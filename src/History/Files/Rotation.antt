-- ===== src/History/Files/Rotation.antt =====
-- Which files history.c removes.
use iot_zephyr_app.Base.{
  length-take, length-set, ℕ, zero, suc, ◌+◌, ◌-◌, ◌<◌, ◌≤◌, ◌≡◌, refl, ap, ap₂, subst₂,
  get_or-append_right, sym, ◌∙◌, subst, Bool, true, false, inl, inr, some, take-nil, Bool-cases,
  List, [], ◌∷◌, ◌++◌, append_assoc, append-nil, if◌then◌else◌, ltb, ltb→lt, ◌==◌, ==_self, min,
  length, length-append, get_or, set, take, All, All-append, arith,
}
use mathlib.Core.Bool.{true≢false}
use mathlib.Core.List.Perm
use mathlib.Core.List.{Perm}
use iot_zephyr_app.History.Files.{
  Fs, Entry, is_history, collect, unlink_all, cleanup_old_files, before, min_loop, min_index,
  swap_remove, rotate_out, rotated, hist_max_files,
}

by_head :
    (a b x : ℕ) (r s t : Bool)
    → (r ≡ true → s ≡ false → t ≡ false)
    → (if a == b then r else ltb a b) ≡ true
    → (if x == b then s else ltb x b) ≡ false
    → (if x == a then t else ltb x a) ≡ false
by_head a b x r s t f h k = ground (arith, f, h, k)

-- What is not before the one of two that is not last is not before the other.
before_trans : (a b x : List ℕ) → before a b ≡ true → before x b ≡ false → before x a ≡ false
unfolding before
before_trans [] [] x h k = absurd (true≢false (sym h))
before_trans [] (b ∷ bs) [] h k = absurd (true≢false k)
before_trans [] (b ∷ bs) (x ∷ xs) h k = refl
before_trans (a ∷ as_) [] x h k = absurd (true≢false (sym h))
before_trans (a ∷ as_) (b ∷ bs) [] h k = absurd (true≢false k)
before_trans (a ∷ as_) (b ∷ bs) (x ∷ xs) h k =
    by_head a b x (before as_ bs) (before xs bs) (before xs as_) (before_trans as_ bs xs) h k

-- No name of the list is before this one.
abbrev IsLeast : List ℕ → List (List ℕ) → Type 0
IsLeast least = All (λ x. before x least ≡ false)

module _ {ℓ κ} {A : Type ℓ} (P : A → Type κ) where
  All-take : (n : ℕ) (xs : List A) → All P xs → All P (take n xs)
  All-take zero xs h = tt
  All-take (suc n) [] h = tt
  All-take (suc n) (x ∷ xs) h = (h.0, All-take n xs h.1)

  All-set : (xs : List A) (i : ℕ) (v : A) → All P xs → P v → All P (set xs i v)
  All-set [] i v h p = tt
  All-set (x ∷ xs) zero v h p = (p, h.1)
  All-set (x ∷ xs) (suc i) v h p = (h.0, All-set xs i v h.1 p)

  All-get_or : (xs : List A) (i : ℕ) (d : A) → i < length xs → All P xs → P (get_or xs i d)
  All-get_or [] i d l h = absurd (omega arith)
  All-get_or (x ∷ xs) zero d l h = h.0
  All-get_or (x ∷ xs) (suc i) d l h = All-get_or xs i d (omega arith) h.1

  All-swap_remove :
      (names : List A) (i : ℕ) (d : A)
      → 0 < length names
      → All P names
      → All P (take (length names - 1) (set names i (get_or names (length names - 1) d)))
  All-swap_remove names i d l h =
      All-take (length names - 1) (set names i (get_or names (length names - 1) d)) (
        All-set names i (get_or names (length names - 1) d) h
          (All-get_or names (length names - 1) d (omega (arith, l)) h))

-- The index is that of a least name.
abbrev Least : List (List ℕ) → ℕ → Type 0
Least names j = (j < length names) × IsLeast (get_or names j []) names

before_irrefl : (name : List ℕ) → before name name ≡ false
unfolding before
before_irrefl [] = refl
before_irrefl (c ∷ cs) = rw (==_self c) (before_irrefl cs)

IsLeast-lower :
    (name least : List ℕ) (names : List (List ℕ))
    → before name least ≡ true
    → IsLeast least names
    → IsLeast name names
IsLeast-lower name least [] b h = tt
IsLeast-lower name least (x ∷ xs) b h =
    (before_trans name least x b h.0, IsLeast-lower name least xs b h.1)

at_end :
    (seen names whole : List (List ℕ)) (name : List ℕ) (i : ℕ)
    → seen ++ (name ∷ names) ≡ whole
    → i ≡ length seen
    → get_or whole i [] ≡ name
at_end seen names whole name i w e =
    ap₂ (λ l k. get_or l k []) (sym w) (e ∙ plus_zero (length seen))
    ∙ get_or-append_right seen (name ∷ names) 0 []
  where
    plus_zero : (n : ℕ) → n ≡ n + 0
    plus_zero n = omega arith

-- The scan, with `seen` behind it and `names` to come.
min_loop-Least :
    (seen names whole : List (List ℕ)) (i min_i : ℕ) (least : List ℕ)
    → seen ++ names ≡ whole
    → i ≡ length seen
    → min_i < length seen
    → get_or whole min_i [] ≡ least
    → IsLeast least seen
    → Least whole (min_loop names i min_i least)
unfolding min_loop
min_loop-Least seen [] whole i min_i least w e l g h =
    let same = sym (append-nil seen) ∙ w in
    (subst (λ s. min_i < length s) same l, subst₂ IsLeast (sym g) same h)
min_loop-Least seen (name ∷ names) whole i min_i least w e l g h =
    let seen' = seen ++ (name ∷ []) in
    let w' = append_assoc seen (name ∷ []) names ∙ w in
    elim (Bool-cases (before name least)) [
      | inl b ↦
          rw (b, min_loop)
            (min_loop-Least seen' names whole (i + 1) i name w'
              (omega (arith, e, length-append seen (name ∷ [])))
              (omega (arith, e, length-append seen (name ∷ [])))
              (at_end seen names whole name i w e)
              (All-append (λ x. before x name ≡ false) seen (name ∷ [])
                (IsLeast-lower name least seen b h) (before_irrefl name, tt)))
      | inr b ↦
          rw (b, min_loop)
            (min_loop-Least seen' names whole (i + 1) min_i least w'
              (omega (arith, e, length-append seen (name ∷ [])))
              (omega (arith, l, length-append seen (name ∷ []))) g
              (All-append (λ x. before x least ≡ false) seen (name ∷ []) h (b, tt)))
    ]

min_index-Least : (names : List (List ℕ)) → 0 < length names → Least names (min_index names)
unfolding min_index
min_index-Least [] h = absurd (omega arith)
min_index-Least (name ∷ names) h =
    min_loop-Least (name ∷ []) names (name ∷ names) 1 0 name refl refl (omega arith) refl
      (before_irrefl name, tt)

module _ {ℓ} {A : Type ℓ} (d : A) where
  last_first : (xs : List A) (m : ℕ) → length xs ≡ suc m → Perm (get_or xs m d ∷ take m xs) xs
  last_first [] m e = absurd (omega (arith, e))
  last_first (x ∷ []) zero e = Perm.rfl
  last_first (x ∷ y ∷ ys) zero e = absurd (omega (arith, e))
  last_first (x ∷ xs) (suc m) e =
      Perm.trans (Perm.swap x (get_or xs m d) (take m xs))
        (Perm.cons x (last_first xs m (omega (arith, e))))

  swapped :
      (xs : List A) (m i : ℕ)
      → length xs ≡ suc m
      → i ≤ m
      → Perm (get_or xs i d ∷ take m (set xs i (get_or xs m d))) xs
  swapped [] m i e l = absurd (omega (arith, e))
  swapped (x ∷ []) zero zero e l = Perm.rfl
  swapped (x ∷ y ∷ ys) zero zero e l = absurd (omega (arith, e))
  swapped (x ∷ xs) zero (suc i) e l = absurd (omega (arith, l))
  swapped (x ∷ xs) (suc m) zero e l = Perm.cons x (last_first xs m (omega (arith, e)))
  swapped (x ∷ xs) (suc m) (suc i) e l =
      Perm.trans (Perm.swap x (get_or xs i d) (take m (set xs i (get_or xs m d))))
        (Perm.cons x (swapped xs m i (omega (arith, e)) (omega (arith, l))))

swap_remove-perm :
    (names : List (List ℕ)) (i : ℕ)
    → i < length names
    → Perm (get_or names i [] ∷ swap_remove names i) names
unfolding swap_remove
swap_remove-perm names i l =
    swapped [] names (length names - 1) i (omega (arith, l)) (omega (arith, l))

length-swap_remove :
    (names : List (List ℕ)) (i : ℕ)
    → 0 < length names
    → length (swap_remove names i) ≡ length names - 1
unfolding swap_remove
length-swap_remove names i l =
    let last = get_or names (length names - 1) [] in
    omega (arith, length-take (length names - 1) (set names i last), length-set names i last, l)

-- What the loop does with names: those removed and those kept.
pub record Rotated (names removed kept : List (List ℕ)) : Type 0 where
  pub all_there : Perm (removed ++ kept) names
  pub count : length kept ≡ min hist_max_files (length names)
  pub oldest : All (λ r. All (λ k. before k r ≡ false) kept) removed

below : (n : ℕ) → hist_max_files < n → 0 < n
below n h = omega (arith, h)

rotate_out-All :
    (P : List ℕ → Type 0) (fuel : ℕ) (names : List (List ℕ))
    → All P names
    → let (removed, kept) = rotate_out fuel names in All P kept
unfolding rotate_out swap_remove
rotate_out-All P zero names h = h
rotate_out-All P (suc fuel) names h = elim (Bool-cases (ltb hist_max_files (length names))) [
  | inr e ↦ rw (e, rotate_out) h
  | inl e ↦
      rw (e, rotate_out)
        (rotate_out-All P fuel (swap_remove names (min_index names)) (
          All-swap_remove P names (min_index names) []
            (below (length names) (ltb→lt hist_max_files (length names) e)) h))
]

fewer-names :
    (fuel : ℕ) (names : List (List ℕ))
    → length names ≤ hist_max_files + suc fuel
    → hist_max_files < length names
    → length (swap_remove names (min_index names)) ≤ hist_max_files + fuel
fewer-names fuel names l more =
    omega (arith, l, length-swap_remove names (min_index names) (below (length names) more))

IsLeast-swap_remove :
    (names : List (List ℕ)) (i : ℕ)
    → IsLeast (get_or names i []) names
    → 0 < length names
    → IsLeast (get_or names i []) (swap_remove names i)
unfolding swap_remove
IsLeast-swap_remove names i h l =
    All-swap_remove (λ x. before x (get_or names i []) ≡ false) names i [] l h

one_more-Rotated :
    (fuel : ℕ) (names : List (List ℕ))
    → hist_max_files < length names
    → let names' = swap_remove names (min_index names) in
      let (removed, kept) = rotate_out fuel names' in
      Rotated names' removed kept → Rotated names (get_or names (min_index names) [] ∷ removed) kept
one_more-Rotated fuel names more r =
    let i = min_index names in
    let least = get_or names i [] in
    let found = min_index-Least names (below (length names) more) in
    record {
      all_there = Perm.trans (Perm.cons least r.all_there) (swap_remove-perm names i found.0);
      count = omega (arith, r.count, more, length-swap_remove names i (below (length names) more));
      oldest = (
        rotate_out-All (λ k. before k least ≡ false) fuel (swap_remove names i)
            (IsLeast-swap_remove names i found.1 (below (length names) more)),
        r.oldest,
      );
    }

rotate_out-Rotated :
    (fuel : ℕ) (names : List (List ℕ))
    → length names ≤ hist_max_files + fuel
    → let (removed, kept) = rotate_out fuel names in Rotated names removed kept
unfolding rotate_out
rotate_out-Rotated zero names l = record {
  all_there = Perm.rfl;
  count = omega (arith, l);
  oldest = tt;
}
rotate_out-Rotated (suc fuel) names l = elim (Bool-cases (ltb hist_max_files (length names))) [
  | inr e ↦
      rw (e, rotate_out) record { all_there = Perm.rfl; count = ground (arith, e); oldest = tt }
  | inl e ↦
      rw (e, rotate_out)
        (one_more-Rotated fuel names (ltb→lt hist_max_files (length names) e) (
          rotate_out-Rotated fuel (swap_remove names (min_index names))
            (fewer-names fuel names l (ltb→lt hist_max_files (length names) e))))
]

rotated-Rotated :
    (names : List (List ℕ)) → let (removed, kept) = rotated names in Rotated names removed kept
unfolding rotated
rotated-Rotated names =
    rotate_out-Rotated (length names - hist_max_files) names (enough (length names))
  where
    enough : (n : ℕ) → n ≤ hist_max_files + (n - hist_max_files)
    enough n = omega arith

rotate_out-le : (fuel : ℕ) (names : List (List ℕ)) → length (rotate_out fuel names).0 ≤ fuel
unfolding rotate_out
rotate_out-le zero names = omega arith
rotate_out-le (suc fuel) names =
    ground (arith, rotate_out-le fuel (swap_remove names (min_index names)))

few_removed : (names : List (List ℕ)) → length names ≤ 12 → length (rotated names).0 ≤ 2
unfolding rotated
few_removed names h = omega (arith, rotate_out-le (length names - hist_max_files) names)

-- The names of the history files that a directory gives, each cut to 23 bytes.
abbrev pub history_names : List Entry → List (List ℕ)
history_names [] = []
history_names (e ∷ es) =
    if is_history e then take 23 e.name ∷ history_names es else history_names es

collect-take : (room : ℕ) (es : List Entry) → collect room es ≡ take room (history_names es)
unfolding collect
collect-take room [] = sym (take-nil room)
collect-take zero (e ∷ es) = refl
collect-take (suc room) (e ∷ es) = elim (Bool-cases (is_history e)) [
  | inl h ↦ rw h (ap (◌∷◌ (take 23 e.name)) (collect-take room es))
  | inr h ↦ rw h (collect-take (suc room) es)
]

-- If the directory can be read, cleanup_old_files looks at the names of the first twelve history
-- files that it gives, each cut to 23 bytes, and removes all but ten of them, or none if there are
-- no more than ten: two at most. What it removes and what it keeps are the names that it looked at,
-- and no name that it keeps is before one that it removes.
pub cleanup_old_files-Rotated :
    {W : Type 0} (fs : Fs W) (w : W) (es : List Entry)
    → fs.entries w ≡ some es
    → let names = take 12 (history_names es) in
      let (removed, kept) = rotated names in
      (cleanup_old_files fs w ≡ unlink_all fs removed w)
      × Rotated names removed kept
      × (length removed ≤ 2)
unfolding cleanup_old_files
cleanup_old_files-Rotated fs w es read =
    let names = take 12 (history_names es) in
    (
      rw (read, cleanup_old_files, collect-take 12 es) refl,
      rotated-Rotated names,
      few_removed names (omega (arith, length-take 12 (history_names es))),
    )
