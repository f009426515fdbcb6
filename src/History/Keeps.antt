-- ===== src/History/Keeps.antt =====
-- ensure_file of history.c: what is true of the file that records are written to.
use iot_zephyr_app.Base.{
  ℕ, ◌<◌, ◌≡◌, refl, ap, sym, ◌∙◌, inl, inr, Bool, true, false, ◌&&◌, Bool-cases, Option-cases,
  Option, none, some, List, if◌then◌else◌, ltb, ltb→lt, u32, arith,
}
use mathlib.Core.Bool.{true≢false}
use iot_zephyr_app.History.{
  History, is_empty, if_room, or_else, forget, name_it, clean_up, open_append, close_cur_file,
  reopen, resume, reuse, create_file, ensure_file,
}
use iot_zephyr_app.History.Files.{Tm, Fs, hist_file_max, make_hist_name, latest_file, path}

-- The open file can take a record, and its name is known.
pub record IsReady (h : History) : Type 0 where
  pub is_open : h.his_fp_open ≡ true
  pub not_full : h.his_cur_size < hist_file_max
  pub named : is_empty h.his_cur_name ≡ false

abbrev pub IsNamed : History → Type 0
IsNamed h = h.his_fp_open ≡ true → is_empty h.his_cur_name ≡ false

make_hist_name-named : (t : Option Tm) → is_empty (make_hist_name t) ≡ false
unfolding make_hist_name
make_hist_name-named none = refl
make_hist_name-named (some t) = refl

u32_below : (n m : ℕ) → n < m → u32 n < m
u32_below n m h = ground arith

and_both : (a b : Bool) → (a && b) ≡ true → (a ≡ true) × (b ≡ true)
and_both true b e = (refl, e)
and_both false b e = absurd (true≢false (sym e))

module _ {W : Type 0} (fs : Fs W) where
  -- What an attempt gives: a file that can be used, or no open file.
  unfoldable pub Usable : Bool × History × W → Type 0
  Usable (true, h, w) = IsReady h
  Usable (false, h, w) = h.his_fp_open ≡ false

  -- What open_append does: a file is open, or the state is the same.
  Appended : History → Bool × History × W → Type 0
  Appended h (true, h', w) = (h'.his_fp_open ≡ true) × (h'.his_cur_name ≡ h.his_cur_name)
  Appended h (false, h', w) = h' ≡ h

  -- What reopen does: a file that is not full is open, or none.
  Reopened : History → Bool × History × W → Type 0
  Reopened h (true, h', w) =
      (h'.his_fp_open ≡ true)
      × (h'.his_cur_size < hist_file_max)
      × (h'.his_cur_name ≡ h.his_cur_name)
  Reopened h (false, h', w) = h'.his_fp_open ≡ false

  open_append-Appended :
      (p : List ℕ) (create : Bool) (h : History) (w : W) → Appended h (open_append fs p create h w)
  unfolding open_append Appended
  open_append-Appended p create h w =
      let (opened, w1) = fs.fs_open w p create in
      let (sought, w2) = fs.fs_seek_end w1 in
      elim (Bool-cases opened) [
        | inr o ↦ rw (o, open_append) refl
        | inl o ↦ elim (Bool-cases sought) [
          | inr s ↦ rw (o, s) refl
          | inl s ↦ elim (Option-cases (fs.fs_tell w2).0) [
            | inl n ↦ rw (o, s, n) refl
            | inr (k, n) ↦ rw (o, s, n) (refl, refl)
          ]
        ]
      ]

  pub close_cur_file-open : (h : History) (w : W) → (close_cur_file fs h w).0.his_fp_open ≡ false
  unfolding close_cur_file
  close_cur_file-open h w = elim (Bool-cases h.his_fp_open) [
    | inl e ↦ simp e refl
    | inr e ↦ simp e refl
  ]

  if_room-Reopened :
      (h : History) (r : Bool × History × W) → Appended h r → Reopened h (if_room fs r)
  unfolding if_room Appended Reopened
  if_room-Reopened h (true, h', w) a = elim (Bool-cases (ltb h'.his_cur_size hist_file_max)) [
    | inl l ↦ rw l (a.0, ltb→lt h'.his_cur_size hist_file_max l, a.1)
    | inr l ↦ rw l (close_cur_file-open h' w)
  ]
  if_room-Reopened h (false, h', w) a = close_cur_file-open h' w

  reopen-Reopened : (name : List ℕ) (h : History) (w : W) → Reopened h (reopen fs name h w)
  unfolding reopen
  reopen-Reopened name h w =
      if_room-Reopened h (open_append fs (path name) false h w)
        (open_append-Appended (path name) false h w)

  forget-Usable :
      (h : History) (r : Bool × History × W)
      → is_empty h.his_cur_name ≡ false
      → Reopened h r
      → Usable (forget fs r)
  unfolding forget Reopened Usable
  forget-Usable h (true, h', w) e r = record {
    is_open = r.0;
    not_full = r.1;
    named = ap is_empty r.2 ∙ e;
  }
  forget-Usable h (false, h', w) e r = r

  name_it-Usable :
      (h : History) (name : List ℕ) (r : Bool × History × W)
      → is_empty name ≡ false
      → Reopened h r
      → Usable (name_it fs name r)
  unfolding name_it Reopened Usable
  name_it-Usable h name (true, h', w) e r = record { is_open = r.0; not_full = r.1; named = e }
  name_it-Usable h name (false, h', w) e r = r

  resume-Usable : (h : History) (w : W) → h.his_fp_open ≡ false → Usable (resume fs h w)
  unfolding resume Usable
  resume-Usable h w c = elim (Bool-cases (is_empty h.his_cur_name)) [
    | inl e ↦ rw e c
    | inr e ↦ elim (Bool-cases (ltb h.his_cur_size hist_file_max)) [
      | inr l ↦ rw (e, l) c
      | inl l ↦
          rw (e, l)
            (forget-Usable h (reopen fs h.his_cur_name h w) e (reopen-Reopened h.his_cur_name h w))
    ]
  ]

  reuse-Usable : (h : History) (w : W) → h.his_fp_open ≡ false → Usable (reuse fs h w)
  unfolding reuse Usable
  reuse-Usable h w c = elim (Bool-cases (is_empty h.his_cur_name)) [
    | inr e ↦ rw e c
    | inl e ↦ elim (Bool-cases (is_empty (latest_file fs w))) [
      | inl l ↦ rw (e, l) c
      | inr l ↦
          rw (e, l)
            (name_it-Usable h (latest_file fs w) (reopen fs (latest_file fs w) h w) l
              (reopen-Reopened (latest_file fs w) h w))
    ]
  ]

  or_else-Usable :
      (r : Bool × History × W) (other : History → W → Bool × History × W)
      → ((h : History) (w : W) → h.his_fp_open ≡ false → Usable (other h w))
      → Usable r
      → Usable (or_else fs r other)
  unfolding or_else Usable
  or_else-Usable (true, h, w) other k u = u
  or_else-Usable (false, h, w) other k u = k h w u

  -- The file that the clock names is new, or has room.
  abbrev pub IsFresh : Type 0
  IsFresh =
      (w : W) (n : ℕ)
      → (fs.fs_tell
          (fs.fs_seek_end (fs.fs_open w (path (make_hist_name (fs.local_time w))) true).1).1).0
        ≡ some n
      → n < hist_file_max

  open_append-Reopened :
      (p : List ℕ) (create : Bool) (h : History) (w : W)
      → h.his_fp_open ≡ false
      → ((n : ℕ)
          → (fs.fs_tell (fs.fs_seek_end (fs.fs_open w p create).1).1).0 ≡ some n
          → n < hist_file_max)
      → Reopened h (open_append fs p create h w)
  unfolding open_append Reopened
  open_append-Reopened p create h w c fresh =
      let (opened, w1) = fs.fs_open w p create in
      let (sought, w2) = fs.fs_seek_end w1 in
      elim (Bool-cases opened) [
        | inr o ↦ rw (o, open_append) c
        | inl o ↦ elim (Bool-cases sought) [
          | inr s ↦ rw (o, s) c
          | inl s ↦ elim (Option-cases (fs.fs_tell w2).0) [
            | inl n ↦ rw (o, s, n) c
            | inr (k, n) ↦ rw (o, s, n) (refl, u32_below k hist_file_max (fresh k n), refl)
          ]
        ]
      ]

  clean_up-Usable : (r : Bool × History × W) → Usable r → Usable (clean_up fs r)
  unfolding clean_up Usable
  clean_up-Usable (true, h, w) u = u
  clean_up-Usable (false, h, w) u = u

  create_file-Usable :
      IsFresh → (h : History) (w : W) → h.his_fp_open ≡ false → Usable (create_file fs h w)
  unfolding create_file
  create_file-Usable fresh h w c =
      let name = make_hist_name (fs.local_time w) in
      let r = open_append fs (path name) true h w in
      clean_up-Usable (name_it fs name r) (
        name_it-Usable h name r (make_hist_name-named (fs.local_time w))
          (open_append-Reopened (path name) true h w c (fresh w)))

  if-Usable :
      (test : Bool) (h : History) (w : W) (r : Bool × History × W)
      → (test ≡ true → IsReady h)
      → Usable r
      → Usable (if test then (true, h, w) else r)
  unfolding Usable
  if-Usable true h w r ready u = ready refl
  if-Usable false h w r ready u = u

  -- If the file that the clock names is new or has room, ensure_file leaves, when it succeeds, an
  -- open file of less than 1 MB whose name is known, and when it fails, no open file.
  pub ensure_file-Usable : IsFresh → (h : History) (w : W) → IsNamed h → Usable (ensure_file fs h w)
  unfolding ensure_file
  ensure_file-Usable fresh h w named =
      let (h', w') = close_cur_file fs h w in
      let found =
        or_else-Usable (or_else fs (resume fs h' w') (reuse fs)) (create_file fs)
          (create_file-Usable fresh)
          (or_else-Usable (resume fs h' w') (reuse fs) reuse-Usable
            (resume-Usable h' w' (close_cur_file-open h w))) in
      if-Usable (h.his_fp_open && ltb h.his_cur_size hist_file_max) h w
        (or_else fs (or_else fs (resume fs h' w') (reuse fs)) (create_file fs))
        (λ e.
          let (o, l) = and_both h.his_fp_open (ltb h.his_cur_size hist_file_max) e in
          record { is_open = o; not_full = ltb→lt h.his_cur_size hist_file_max l; named = named o })
        found
