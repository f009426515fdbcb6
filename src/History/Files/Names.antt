-- ===== src/History/Files/Names.antt =====
-- The names of history.c: their order and that of the times in them.
use iot_zephyr_app.Base.{
  ℕ, ◌+◌, ◌/◌, ◌%◌, ◌<◌, ◌≤◌, ◌≡◌, refl, ap, ap₂, ◌∙◌, Bool, false, some, List, ◌∷◌, ◌++◌,
  if◌then◌else◌, ltb, ◌==◌, arith,
}
use iot_zephyr_app.History.Files.{
  Tm, before, two_digits, clamp, make_hist_name, data_prefix, raw_suffix,
}

-- The fields are in the ranges that gmtime_r gives, less leap seconds.
pub record IsTime (t : Tm) : Type 0 where
  pub mon : t.tm_mon < 12
  pub day : (1 ≤ t.tm_mday) × (t.tm_mday ≤ 31)
  pub hour : t.tm_hour < 24
  pub minute : t.tm_min < 60
  pub second : t.tm_sec < 60

-- The first of the two in a year: the fields are compared from the month on.
abbrev pub earlier : Tm → Tm → Bool
earlier t u =
    if t.tm_mon == u.tm_mon
    then if t.tm_mday == u.tm_mday
      then if t.tm_hour == u.tm_hour
        then if t.tm_min == u.tm_min then ltb t.tm_sec u.tm_sec else ltb t.tm_min u.tm_min
        else ltb t.tm_hour u.tm_hour
      else ltb t.tm_mday u.tm_mday
    else ltb t.tm_mon u.tm_mon

by_digits :
    (m n : ℕ) (r : Bool)
    → m < 100
    → n < 100
    → (if 48 + m / 10 == 48 + n / 10
        then (if 48 + m % 10 == 48 + n % 10 then r else ltb (48 + m % 10) (48 + n % 10))
        else ltb (48 + m / 10) (48 + n / 10))
      ≡ (if m == n then r else ltb m n)
by_digits m n r h k = ground (arith, h, k)

before-two_digits :
    (m n : ℕ) (as_ bs : List ℕ)
    → m < 100
    → n < 100
    → before (two_digits m ++ as_) (two_digits n ++ bs)
      ≡ (if m == n then before as_ bs else ltb m n)
unfolding before
before-two_digits m n as_ bs h k = by_digits m n (before as_ bs) h k

clamp_id : (n lo hi : ℕ) → lo ≤ n → n ≤ hi → clamp n lo hi ≡ n
clamp_id n lo hi h k = omega (arith, h, k)

by_next :
    (m n : ℕ) (r : Bool)
    → (if m + 1 == n + 1 then r else ltb (m + 1) (n + 1)) ≡ (if m == n then r else ltb m n)
by_next m n r = ground arith

less_only : (m n : ℕ) → (if m == n then false else ltb m n) ≡ ltb m n
less_only m n = ground arith

-- The name with these five numbers in it.
abbrev stamp : ℕ → ℕ → ℕ → ℕ → ℕ → List ℕ
stamp mon day hour minute second =
    data_prefix
    ++ (two_digits mon
        ++ (two_digits day
            ++ 95 ∷ (two_digits hour ++ (two_digits minute ++ (two_digits second ++ raw_suffix)))))

make_hist_name-stamp :
    (t : Tm)
    → IsTime t
    → make_hist_name (some t) ≡ stamp (t.tm_mon + 1) t.tm_mday t.tm_hour t.tm_min t.tm_sec
unfolding make_hist_name
make_hist_name-stamp t p =
    rw
      (
        clamp_id (t.tm_mon + 1) 1 12 (omega arith) (omega (arith, p.mon)),
        clamp_id t.tm_mday 1 31 p.day.0 p.day.1,
        clamp_id t.tm_hour 0 23 (omega arith) (omega (arith, p.hour)),
        clamp_id t.tm_min 0 59 (omega arith) (omega (arith, p.minute)),
        clamp_id t.tm_sec 0 59 (omega arith) (omega (arith, p.second)),
      )
      refl

-- Two names, compared number by number.
before-stamp :
    (a b c d e a' b' c' d' e' : ℕ)
    → (a < 100) × (a' < 100)
    → (b < 100) × (b' < 100)
    → (c < 100) × (c' < 100)
    → (d < 100) × (d' < 100)
    → (e < 100) × (e' < 100)
    → before (stamp a b c d e) (stamp a' b' c' d' e') ≡ (
        if a == a'
        then (if b == b'
            then (if c == c'
                then (if d == d' then (if e == e' then false else ltb e e') else ltb d d')
                else ltb c c')
            else ltb b b')
        else ltb a a')
unfolding before
before-stamp a b c d e a' b' c' d' e' ha hb hc hd he =
    before-two_digits a a' (tail_b b c d e) (tail_b b' c' d' e') ha.0 ha.1
    ∙ ap (λ r. if a == a' then r else ltb a a')
        (before-two_digits b b' (95 ∷ tail_c c d e) (95 ∷ tail_c c' d' e') hb.0 hb.1
          ∙ ap (λ r. if b == b' then r else ltb b b')
              (before-two_digits c c' (tail_d d e) (tail_d d' e') hc.0 hc.1
                ∙ ap (λ r. if c == c' then r else ltb c c')
                    (before-two_digits d d' (two_digits e ++ raw_suffix)
                        (two_digits e' ++ raw_suffix) hd.0 hd.1
                      ∙ ap (λ r. if d == d' then r else ltb d d')
                          (before-two_digits e e' raw_suffix raw_suffix he.0 he.1))))
  where
    tail_d : ℕ → ℕ → List ℕ
    tail_d d e = two_digits d ++ (two_digits e ++ raw_suffix)

    tail_c : ℕ → ℕ → ℕ → List ℕ
    tail_c c d e = two_digits c ++ (two_digits d ++ (two_digits e ++ raw_suffix))

    tail_b : ℕ → ℕ → ℕ → ℕ → List ℕ
    tail_b b c d e =
        two_digits b ++ 95 ∷ (two_digits c ++ (two_digits d ++ (two_digits e ++ raw_suffix)))

-- The order of the names of two times is that of the times in a year, whatever the years are.
pub before-make_hist_name :
    (t u : Tm)
    → IsTime t
    → IsTime u
    → before (make_hist_name (some t)) (make_hist_name (some u)) ≡ earlier t u
unfolding make_hist_name
before-make_hist_name t u p q =
    ap₂ before (make_hist_name-stamp t p) (make_hist_name-stamp u q)
    ∙ before-stamp (t.tm_mon + 1) t.tm_mday t.tm_hour t.tm_min t.tm_sec (u.tm_mon + 1) u.tm_mday
        u.tm_hour u.tm_min u.tm_sec (omega (arith, p.mon), omega (arith, q.mon))
        (omega (arith, p.day.1), omega (arith, q.day.1))
        (omega (arith, p.hour), omega (arith, q.hour))
        (omega (arith, p.minute), omega (arith, q.minute))
        (omega (arith, p.second), omega (arith, q.second))
    ∙ by_next t.tm_mon u.tm_mon
        (rest (if t.tm_sec == u.tm_sec then false else ltb t.tm_sec u.tm_sec))
    ∙ ap (λ r. if t.tm_mon == u.tm_mon then rest r else ltb t.tm_mon u.tm_mon)
        (less_only t.tm_sec u.tm_sec)
  where
    rest : Bool → Bool
    rest r =
        if t.tm_mday == u.tm_mday
        then (if t.tm_hour == u.tm_hour
            then (if t.tm_min == u.tm_min then r else ltb t.tm_min u.tm_min)
            else ltb t.tm_hour u.tm_hour)
        else ltb t.tm_mday u.tm_mday
