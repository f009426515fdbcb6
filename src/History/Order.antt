-- ===== src/History/Order.antt =====
-- his_flush of history.c: the order of the records, and the files that they go to.
use iot_zephyr_app.Base.{
  ℕ, ◌<◌, ◌≡◌, refl, append-nil, append_assoc, ap, ap₂, sym, ◌∙◌, subst, inl, inr, Bool, true,
  false, not, ◌||◌, Bool-cases, Option, none, some, List, [], ◌∷◌, ◌++◌, map, if◌then◌else◌, ltb,
  ◌==◌, length, take, All, All-append, map-append,
}
use mathlib.Core.Bool.{true≢false}
use iot_zephyr_app.History.{
  step, run, finish, his_work_handler, history_sync, history_enable_write, Event, sample, work,
  switch, sync, extend, HisData, History, Fate, stored, missed, is_empty, account, write_to,
  ensure_file, write_record, drain, his_flush, record_len, send_history_data, msgq_depth,
}
use iot_zephyr_app.History.Files.{Fs, hist_file_max}
use iot_zephyr_app.History.Keeps.{
  IsReady, IsNamed, IsFresh, Usable, close_cur_file-open, ensure_file-Usable,
}

-- The record that a fate is of.
abbrev pub of : Fate → HisData
of (stored name size d) = d
of (missed d) = d

-- The records up to one that is missed are stored; if none is missed, none is left.
pub IsFlushed : List Fate → List HisData → Type 0
IsFlushed [] rest = rest ≡ []
IsFlushed (stored name size d ∷ fates) rest = IsFlushed fates rest
IsFlushed (missed d ∷ fates) rest = fates ≡ []

-- A record goes to a file that has a name and less than 1 MB.
abbrev pub IsPlaced : Fate → Type 0
IsPlaced (stored name size d) = (is_empty name ≡ false) × (size < hist_file_max)
IsPlaced (missed d) = Unit

joined :
    (fates later : List Fate) (a q b c mid : List HisData)
    → map of fates ++ mid ≡ q ++ a
    → map of later ++ c ≡ mid ++ b
    → map of (fates ++ later) ++ c ≡ q ++ (a ++ b)
joined fates later a q b c mid e f =
    ap (λ l. l ++ c) (map-append of fates later)
    ∙ append_assoc (map of fates) (map of later) c
    ∙ ap (λ l. map of fates ++ l) f
    ∙ sym (append_assoc (map of fates) mid b)
    ∙ ap (λ l. l ++ b) e
    ∙ append_assoc q a b

-- What becomes of the record `d` in a round that goes on or not.
Decided : HisData → Bool → Fate → Type 0
Decided d true (stored name size e) = (e ≡ d) × IsPlaced (stored name size e)
Decided d true (missed e) = ⊥
Decided d false (stored name size e) = ⊥
Decided d false (missed e) = e ≡ d

-- What a flush makes of the records that were waiting.
pub record Drained (ds : List HisData) (fates : List Fate) (rest : List HisData) : Type 0 where
  pub in_order : map of fates ++ rest ≡ ds
  pub flushed : IsFlushed fates rest
  pub placed : All IsPlaced fates

module _ {W : Type 0} (fs : Fs W) where
  account-Decided :
      (d : HisData) (wrote : Option ℕ) (h : History) (w : W)
      → IsReady h
      → let (more, fate, h', w') = account fs d wrote h w in Decided d more fate × IsNamed h'
  unfolding account Decided
  account-Decided d none h w r = (refl, λ o. r.named)
  account-Decided d (some n) h w r = elim (Bool-cases (n == record_len d)) [
    | inl e ↦ simp e ((refl, (r.named, r.not_full)), λ o. r.named)
    | inr e ↦ simp e (refl, λ o. r.named)
  ]

  write_to-Decided :
      (d : HisData) (r : Bool × History × W)
      → Usable fs r
      → let (more, fate, h', w') = write_to fs d r in Decided d more fate × IsNamed h'
  unfolding write_to Decided Usable
  write_to-Decided d (true, h, w) u =
      let (wrote, w') = fs.fs_write w (take (record_len d) d.raw) in account-Decided d wrote h w' u
  write_to-Decided d (false, h, w) u = (refl, λ o. absurd (true≢false (sym o ∙ u)))

  DrainedTo : List HisData → List Fate × List HisData × History × W → Type 0
  DrainedTo ds (fates, rest, h, w) = Drained ds fates rest × IsNamed h

  extend-Drained :
      (d : HisData) (ds : List HisData) (more : Bool) (fate : Fate) (h : History) (w : W)
      (later : List Fate × List HisData × History × W)
      → Decided d more fate
      → IsNamed h
      → DrainedTo ds later
      → DrainedTo (d ∷ ds) (extend fs more fate ds h w later)
  unfolding extend Decided IsFlushed DrainedTo
  extend-Drained d ds true (stored name size e) h w (fates, rest, h', w') c n r = (
    record {
      in_order = ap₂ ◌∷◌ c.0 r.0.in_order;
      flushed = r.0.flushed;
      placed = (c.1, r.0.placed);
    },
    r.1,
  )
  extend-Drained d ds true (missed e) h w later c n r = absurd c
  extend-Drained d ds false (stored name size e) h w later c n r = absurd c
  extend-Drained d ds false (missed e) h w later c n r =
      (record { in_order = ap (λ e. e ∷ ds) c; flushed = refl; placed = (tt, tt) }, n)

  drain-Drained :
      IsFresh fs
      → (ds : List HisData) (h : History) (w : W) → IsNamed h
      → DrainedTo ds (drain fs ds h w)
  unfolding drain write_record DrainedTo IsFlushed
  drain-Drained fresh [] h w n = (record { in_order = refl; flushed = refl; placed = tt }, n)
  drain-Drained fresh (d ∷ ds) h w n =
      let (more, fate, h', w') = write_record fs d h w in
      let (decided, named) =
        write_to-Decided d (ensure_file fs h w) (ensure_file-Usable fs fresh h w n) in
      extend-Drained d ds more fate h' w' (drain fs ds h' w') decided named
        (drain-Drained fresh ds h' w' named)

  -- The queue gives its records in their order, and keeps those that are not taken.
  Flushed : List HisData → List Fate × History × W → Type 0
  Flushed ds (fates, h, w) = (map of fates ++ h.his_msgq ≡ ds) × All IsPlaced fates × IsNamed h

  finish-Flushed :
      (close_after : Bool) (ds : List HisData) (r : List Fate × List HisData × History × W)
      → DrainedTo ds r
      → Flushed ds (finish fs close_after r)
  unfolding finish DrainedTo Flushed
  finish-Flushed true ds (fates, rest, h, w) r =
      (r.0.in_order, r.0.placed, λ o. absurd (true≢false (sym o ∙ close_cur_file-open fs h w)))
  finish-Flushed false ds (fates, rest, h, w) r = (r.0.in_order, r.0.placed, r.1)

  finish-Drained :
      (close_after : Bool) (ds : List HisData) (r : List Fate × List HisData × History × W)
      → DrainedTo ds r
      → let (fates, h', w') = finish fs close_after r in Drained ds fates h'.his_msgq
  unfolding finish DrainedTo
  finish-Drained close_after ds (fates, rest, h, w) r = r.0

  his_flush-Flushed :
      IsFresh fs
      → (ready close_after : Bool) (h : History) (w : W) → IsNamed h
      → Flushed h.his_msgq (his_flush fs ready close_after h w)
  unfolding his_flush Flushed
  his_flush-Flushed fresh true close_after h w n =
      finish-Flushed close_after h.his_msgq (drain fs h.his_msgq h w)
        (drain-Drained fresh h.his_msgq h w n)
  his_flush-Flushed fresh false close_after h w n = (refl, tt, n)

  -- The record that an event adds to the queue.
  pub taken : Event → History → List HisData
  unfolding send_history_data
  taken (sample ready d) h = if (send_history_data ready d h).1 then d ∷ [] else []
  taken (work ready) h = []
  taken (switch en) h = []
  taken (sync ready) h = []

  sample-Flushed :
      (ready : Bool) (d : HisData) (h : History) (w : W)
      → IsNamed h
      → Flushed (h.his_msgq ++ taken (sample ready d) h) (step fs (sample ready d) h w)
  unfolding taken step send_history_data Flushed
  sample-Flushed ready d h w n = elim (Bool-cases (not h.history_enabled || not ready)) [
    | inl r ↦ rw (r, send_history_data) (sym (append-nil h.his_msgq), tt, n)
    | inr r ↦ elim (Bool-cases (ltb (length h.his_msgq) msgq_depth)) [
      | inl l ↦ rw (r, l, send_history_data) (refl, tt, n)
      | inr l ↦ rw (r, l, send_history_data) (sym (append-nil h.his_msgq), tt, n)
    ]
  ]

  none_taken-Flushed :
      (ds : List HisData) (r : List Fate × History × W) → Flushed ds r → Flushed (ds ++ []) r
  none_taken-Flushed ds r f = subst (λ l. Flushed l r) (sym (append-nil ds)) f

  step-Flushed :
      IsFresh fs
      → (e : Event) (h : History) (w : W) → IsNamed h
      → Flushed (h.his_msgq ++ taken e h) (step fs e h w)
  unfolding taken step his_work_handler history_sync history_enable_write Flushed
  step-Flushed fresh (sample ready d) h w n = sample-Flushed ready d h w n
  step-Flushed fresh (work ready) h w n =
      none_taken-Flushed h.his_msgq (his_work_handler fs ready h w)
        (his_flush-Flushed fresh ready (not h.history_enabled) h w n)
  step-Flushed fresh (switch en) h w n =
      none_taken-Flushed h.his_msgq ([], record h { history_enabled = en }, w) (refl, tt, n)
  step-Flushed fresh (sync true) h w n =
      let h' = record h { his_sync_req = true } in
      none_taken-Flushed h.his_msgq (his_work_handler fs true h' w)
        (his_flush-Flushed fresh true (not h'.history_enabled) h' w n)
  step-Flushed fresh (sync false) h w n = none_taken-Flushed h.his_msgq ([], h, w) (refl, tt, n)

  -- The records that a run adds to the queue.
  pub all_taken : List Event → History → W → List HisData
  unfolding taken
  all_taken [] h w = []
  all_taken (e ∷ es) h w = let (fates, h', w') = step fs e h w in taken e h ++ all_taken es h' w'

  run-Flushed :
      IsFresh fs
      → (es : List Event) (h : History) (w : W) → IsNamed h
      → Flushed (h.his_msgq ++ all_taken es h w) (run fs es h w)
  unfolding run all_taken Flushed
  run-Flushed fresh [] h w n = (sym (append-nil h.his_msgq), tt, n)
  run-Flushed fresh (e ∷ es) h w n =
      let (fates, h', w') = step fs e h w in
      let (later, h'', w'') = run fs es h' w' in
      let (now, placed, named) = step-Flushed fresh e h w n in
      let (then_, placed', named') = run-Flushed fresh es h' w' named in
      (
        joined fates later (taken e h) h.his_msgq (all_taken es h' w') h''.his_msgq h'.his_msgq now
            then_,
        All-append IsPlaced fates later placed placed',
        named',
      )

  -- If the files that the clock names are new or have room, then in any run of samples, flushes,
  -- switches and synchronisations the records come out of the queue in the order in which they
  -- were put in: those that came out, stored or missed, with those still waiting are those that
  -- waited at the start with those taken since; and each one stored went to a named file of
  -- less than 1 MB.
  pub run-records :
      IsFresh fs
      → (es : List Event) (h : History) (w : W) → IsNamed h
      → let (fates, h', w') = run fs es h w in
        (map of fates ++ h'.his_msgq ≡ h.his_msgq ++ all_taken es h w) × All IsPlaced fates
  unfolding Flushed
  run-records fresh es h w n =
      let (order, placed, named) = run-Flushed fresh es h w n in (order, placed)

  -- If the file that the clock names is always new or has room, and the open file, if there is one,
  -- has a name, a flush on a file system that is mounted takes the records from the front of the
  -- queue, stores them, each in a named file of less than 1 MB, and stops only where the queue is
  -- empty or at a record that could not be written, which is the only one that it loses.
  pub his_flush-Drained :
      IsFresh fs
      → (close_after : Bool) (h : History) (w : W) → IsNamed h
      → let (fates, h', w') = his_flush fs true close_after h w in
        Drained h.his_msgq fates h'.his_msgq
  unfolding his_flush
  his_flush-Drained fresh close_after h w n =
      finish-Drained close_after h.his_msgq (drain fs h.his_msgq h w)
        (drain-Drained fresh h.his_msgq h w n)
