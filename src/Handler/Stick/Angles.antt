-- ===== src/Handler/Stick/Angles.antt =====
-- The bounds of the stick's angles, and what the average of the samples ignores.
use iot_zephyr_app.Base.{
  ℕ, zero, suc, ◌+◌, ◌*◌, ◌%◌, ◌^◌, ◌≤◌, ◌<◌, ◌≡◌, refl, sym, ap, ◌∙◌, subst, true, false, ◌⊎◌, inl,
  inr, none, some, List, [], ◌∷◌, ◌++◌, if◌then◌else◌, length, length-append, length-set, set, All,
  drop, drop-append_self, arith, ℤ, pos, negsuc, pos_part, neg_part, ◌+ℤ◌, ◌-ℤ◌, ◌≤ℤ◌, ltb_ℤ, quot,
  quot_parts, +ℤ_parts, -ℤ_parts, eq_of_parts,
}
use iot_zephyr_app.Zephyr.ByteOrder.{ByteOrder}
use iot_zephyr_app.Handler.Stick.{
  trim_loop, trim_avg, to_angle, Reading, store_sample, sample_loop, to_degree, Stick, to_u16, s16,
  same_ℤ, state_frame, note_angles, adc_pass, xy_sample_count,
}

-- Within 20 degrees of the middle, in tenths.
abbrev pub InReach : ℤ → Type 0
InReach a = (pos_part a ≤ 200) × (neg_part a ≤ 200)

to_angle-InReach : (mv : ℤ) → InReach (to_angle mv)
unfolding to_angle
to_angle-InReach mv = ground arith

All-set : (P : ℤ → Type 0) (xs : List ℤ) (i : ℕ) (v : ℤ) → P v → All P xs → All P (set xs i v)
All-set P [] i v p h = h
All-set P (x ∷ xs) zero v p h = (p, h.1)
All-set P (x ∷ xs) (suc i) v p h = (h.0, All-set P xs i v p h.1)

store_sample_lem :
    (r : Reading) (i : ℕ) (xs : List ℤ)
    → All InReach xs
    → All InReach (store_sample r i xs) × (length (store_sample r i xs) ≡ length xs)
unfolding store_sample
store_sample_lem none i xs h = (h, refl)
store_sample_lem (some mv) i xs h =
    (All-set InReach xs i (to_angle mv) (to_angle-InReach mv) h, length-set xs i (to_angle mv))

-- The sum is that of the extremes and of `k` samples within reach.
abbrev Trimmed : ℕ → ℤ → ℤ → ℤ → Type 0
Trimmed k min_v max_v sum =
    (pos_part sum + neg_part min_v + neg_part max_v
      ≤ 200 * k + neg_part sum + pos_part min_v + pos_part max_v)
    × (neg_part sum + pos_part min_v + pos_part max_v
        ≤ 200 * k + pos_part sum + neg_part min_v + neg_part max_v)
    × (min_v ≤ℤ max_v)
    × InReach min_v
    × InReach max_v

trim_step :
    (k : ℕ) (x min_v max_v sum : ℤ)
    → InReach x
    → Trimmed k min_v max_v sum
    → Trimmed
        (suc k)
        (if ltb_ℤ x min_v then x else min_v)
        (if ltb_ℤ max_v x then x else max_v)
        (sum +ℤ x)
trim_step k x min_v max_v sum a e = ground (arith, +ℤ_parts sum x)

trim_loop-Trimmed :
    (xs : List ℤ) (k n : ℕ) (min_v max_v sum : ℤ)
    → n ≡ k + length xs
    → All InReach xs
    → Trimmed k min_v max_v sum
    → let (min', max', sum') = trim_loop xs min_v max_v sum in Trimmed n min' max' sum'
unfolding trim_loop
trim_loop-Trimmed [] k n min_v max_v sum c h e = let same : n ≡ k = omega (arith, c) in rw same e
trim_loop-Trimmed (x ∷ xs) k n min_v max_v sum c h e =
    trim_loop-Trimmed xs (suc k) n _ _ _ (omega (arith, c)) h.1
      (trim_step k x min_v max_v sum h.0 e)

first_two :
    (x y : ℤ)
    → InReach x
    → InReach y
    → Trimmed 0 (if ltb_ℤ y x then y else x) (if ltb_ℤ x y then y else x) (pos 0 +ℤ x +ℤ y)
first_two x y a b = ground (arith, +ℤ_parts (pos 0) x, +ℤ_parts (pos 0 +ℤ x) y)

quot-InReach : (a : ℤ) → pos_part a ≤ 1600 → neg_part a ≤ 1600 → InReach (quot a 8)
quot-InReach a h k = omega (arith, quot_parts a 8)

one_sign : (a : ℤ) → (pos_part a ≡ 0) ⊎ (neg_part a ≡ 0)
one_sign (pos n) = inr refl
one_sign (negsuc n) = inl refl

less_extremes :
    (min_v max_v sum : ℤ)
    → Trimmed 8 min_v max_v sum
    → let rest = sum -ℤ min_v -ℤ max_v in (pos_part rest ≤ 1600) × (neg_part rest ≤ 1600)
less_extremes min_v max_v sum e =
    omega
      (arith, -ℤ_parts sum min_v, -ℤ_parts (sum -ℤ min_v) max_v, one_sign (sum -ℤ min_v -ℤ max_v))

not_below_self : (x : ℤ) → ltb_ℤ x x ≡ false
not_below_self x = ground arith

-- The first two samples.
trim_loop-start :
    (x y : ℤ) (xs : List ℤ)
    → trim_loop (x ∷ y ∷ xs) x x (pos 0)
      ≡ trim_loop xs (if ltb_ℤ y x then y else x) (if ltb_ℤ x y then y else x) (pos 0 +ℤ x +ℤ y)
unfolding trim_loop
trim_loop-start x y xs = rw (not_below_self x) refl

-- Ten samples within reach have an average within reach.
trim_avg-InReach :
    (samples : List ℤ) → length samples ≡ 10 → All InReach samples → InReach (trim_avg samples)
unfolding trim_avg
trim_avg-InReach [] n h = absurd (omega arith)
trim_avg-InReach (x ∷ []) n h = absurd (omega arith)
trim_avg-InReach (x ∷ y ∷ xs) n h =
    let eight : length xs ≡ 8 = omega arith in
    let rest =
      less_extremes _ _ _
        (trim_loop-Trimmed xs 0 8 _ _ _ (omega arith) h.1.1 (first_two x y h.0 h.1.0)) in
    rw (trim_loop-start x y xs, eight) (quot-InReach _ rest.0 rest.1)

to_degree-whole :
    (avg : ℤ)
    → InReach avg
    → InReach (to_degree avg)
      × (pos_part (to_degree avg) % 10 ≡ 0)
      × (neg_part (to_degree avg) % 10 ≡ 0)
unfolding to_degree
to_degree-whole avg h = ground (arith, quot_parts avg 10, one_sign (quot avg 10))

sample_loop-InReach :
    (left idx : ℕ) (read : ℕ → Reading × Reading) (xs ys : List ℤ)
    → All InReach xs
    → All InReach ys
    → let (xs', ys') = sample_loop left idx read xs ys in
      All InReach xs' × All InReach ys' × (length xs' ≡ length xs) × (length ys' ≡ length ys)
unfolding sample_loop
sample_loop-InReach zero idx read xs ys h k = (h, k, refl, refl)
sample_loop-InReach (suc left) idx read xs ys h k =
    let x = store_sample_lem (read idx).0 idx xs h in
    let y = store_sample_lem (read idx).1 idx ys k in
    let ih = sample_loop-InReach left (idx + 1) read _ _ x.0 y.0 in
    (ih.0, ih.1, ih.2 ∙ x.1, ih.3 ∙ y.1)

to_u16-s16 : (a : ℤ) → InReach a → (s16 (to_u16 a) ≡ a) × (to_u16 a < 2 ^ 16)
to_u16-s16 (pos n) h = ground arith
to_u16-s16 (negsuc n) h = ground arith

same_ℤ-eq : (a b : ℤ) → same_ℤ a b ≡ true → a ≡ b
same_ℤ-eq a b h = eq_of_parts a b (ground arith)

-- The angles are those given, and the samples stay.
note_angles_lem :
    (x y : ℤ) (now : ℕ) (s : Stick)
    → let s' = note_angles x y now s in
      (s'.x_degree ≡ x)
      × (s'.y_degree ≡ y)
      × (s'.x_samples ≡ s.x_samples)
      × (s'.y_samples ≡ s.y_samples)
unfolding note_angles
note_angles_lem x y now s = ground (arith, same_ℤ-eq x s.x_degree, same_ℤ-eq y s.y_degree)

-- The ten samples of each axis are within reach, as the zeroes are that they start from.
pub record IsSampled (s : Stick) : Type 0 where
  pub ten_x : length s.x_samples ≡ 10
  pub ten_y : length s.y_samples ≡ 10
  pub reach_x : All InReach s.x_samples
  pub reach_y : All InReach s.y_samples

-- An angle that is reported: a whole number of degrees, at most 20 to either side.
pub record IsReported (a : ℤ) : Type 0 where
  pub reach : InReach a
  pub whole : (pos_part a % 10 ≡ 0) × (neg_part a % 10 ≡ 0)

module _ (order : ByteOrder) where
  frame_reads :
      (s : Stick)
      → InReach s.x_degree
      → InReach s.y_degree
      → let frame = state_frame order s in
        (s16 (order.get_be16 frame) ≡ s.x_degree)
        × (s16 (order.get_be16 (drop 2 frame)) ≡ s.y_degree)
  unfolding state_frame
  frame_reads s h k =
      let x = to_u16-s16 s.x_degree h in
      let y = to_u16-s16 s.y_degree k in
      (
        rw (order.get-put_be16 (to_u16 s.x_degree) _ x.1) x.0,
        rw
            (
              drop-append_self (order.put_be16 (to_u16 s.x_degree)) _ 2
                  (sym (order.length-put_be16 (to_u16 s.x_degree))),
              order.get-put_be16 (to_u16 s.y_degree) _ y.1,
            )
            y.0,
      )

  -- Whatever the channels read, a pass from samples within reach keeps the samples so, and reports
  -- angles that are whole degrees of at most 20 to either side: those that the frame's first two
  -- fields hold, as big-endian 16-bit integers with a sign.
  pub adc_pass-IsReported :
      (read : ℕ → Reading × Reading) (now : ℕ) (s : Stick)
      → IsSampled s
      → let (s', frame) = adc_pass order read now s in
        IsSampled s'
        × IsReported s'.x_degree
        × IsReported s'.y_degree
        × (s16 (order.get_be16 frame) ≡ s'.x_degree)
        × (s16 (order.get_be16 (drop 2 frame)) ≡ s'.y_degree)
  unfolding adc_pass
  adc_pass-IsReported read now s v =
      let (good_x, good_y, same_x, same_y) =
        sample_loop-InReach 10 0 read s.x_samples s.y_samples v.reach_x v.reach_y in
      let (xs, ys) = sample_loop xy_sample_count 0 read s.x_samples s.y_samples in
      let x = to_degree-whole (trim_avg xs) (trim_avg-InReach xs (same_x ∙ v.ten_x) good_x) in
      let y = to_degree-whole (trim_avg ys) (trim_avg-InReach ys (same_y ∙ v.ten_y) good_y) in
      let s' = (adc_pass order read now s).0 in
      let (is_x, is_y, xs_kept, ys_kept) =
        note_angles_lem (to_degree (trim_avg xs)) (to_degree (trim_avg ys)) now
          (record s { x_samples = xs; y_samples = ys }) in
      let rx = subst IsReported (sym is_x) (record { reach = x.0; whole = (x.1, x.2) }) in
      let ry = subst IsReported (sym is_y) (record { reach = y.0; whole = (y.1, y.2) }) in
      let frame = frame_reads s' rx.reach ry.reach in
      (
        record {
          ten_x = ap length xs_kept ∙ same_x ∙ v.ten_x;
          ten_y = ap length ys_kept ∙ same_y ∙ v.ten_y;
          reach_x = subst (All InReach) (sym xs_kept) good_x;
          reach_y = subst (All InReach) (sym ys_kept) good_y;
        },
        rx,
        ry,
        frame.0,
        frame.1,
      )

  length-state_frame : (s : Stick) → length (state_frame order s) ≡ 8
  unfolding state_frame
  length-state_frame s = omega (
    arith,
    length-append (order.put_be16 (to_u16 s.x_degree))
        (order.put_be16 (to_u16 s.y_degree) ++ (s.h_button ∷ 255 ∷ 255 ∷ 255 ∷ [])),
    length-append (order.put_be16 (to_u16 s.y_degree)) (s.h_button ∷ 255 ∷ 255 ∷ 255 ∷ []),
    order.length-put_be16 (to_u16 s.x_degree),
    order.length-put_be16 (to_u16 s.y_degree),
  )

  pub length-adc_pass :
      (read : ℕ → Reading × Reading) (now : ℕ) (s : Stick)
      → length (adc_pass order read now s).1 ≡ 8
  unfolding adc_pass
  length-adc_pass read now s = length-state_frame (adc_pass order read now s).0
