-- ===== src/Sampling/Inputs.antt =====
-- What the input register and the output pins of io-edge-hub hold after a pass.
use iot_zephyr_app.Base.{
  ℕ, zero, suc, ◌+◌, ◌^◌, ◌<◌, ◌≤◌, min, ◌≡◌, refl, ap, ap₂, ◌∙◌, Bool, true, false, not, ◌&&◌,
  ◌||◌, Option, none, some, List, [], ◌∷◌, bit_and, bit_or, test_bit, test_bit-or, test_bit_none,
  bit_and-pow, if◌then◌else◌, ltb, leb, ◌==◌, length, set, get_or-set_self, length-set, arith,
}
use iot_zephyr_app.ModbusRegs.{
  Regs, get_holding_reg, get_input_reg, update_input_reg, di_enable, input_di, do_num, di_num,
}
use iot_zephyr_app.Sampling.{
  store, sample_interval, sample_interval_max, Write, set_do_pin, set_led_pin, set_do_loop,
  mb_set_do, di_loop, di_value, di_pass,
}

shorter : (n i : ℕ) → i < n → leb n i ≡ false
shorter n i h = ground (arith, h)

-- A bit that is asked for.
abbrev in_range : ℕ → ℕ → ℕ → Bool
in_range i left j = leb i j && ltb j (i + left)

next_bit :
    (i left j : ℕ) (old en pin : Bool) (pin_j en_j : Bool)
    → (i ≡ j → (pin ≡ pin_j) × (en ≡ en_j))
    → ((if en && pin then old || i == j else old) || (in_range (i + 1) left j && (en_j && pin_j)))
      ≡ (old || (in_range i (suc left) j && (en_j && pin_j)))
next_bit i left j old en pin pin_j en_j same = ground (arith, same)

none_left : (i j : ℕ) (b c : Bool) → b ≡ (b || (in_range i 0 j && c))
none_left i j b c = ground arith

from_zero : (m j : ℕ) → in_range 0 m j ≡ ltb j m
from_zero m j = ground arith

not-not : (b : Bool) → not (not b) ≡ b
not-not true = refl
not-not false = refl

enabled : (i en : ℕ) → not (bit_and en (2 ^ i) == 0) ≡ test_bit i en
enabled i en = ap not (bit_and-pow i en) ∙ not-not (test_bit i en)

bits_if :
    (i val j : ℕ) (b : Bool)
    → test_bit j (if b then bit_or val (2 ^ i) else val)
      ≡ (if b then test_bit j val || i == j else test_bit j val)
bits_if i val j true = test_bit-or j i val
bits_if i val j false = refl

di_loop-bits :
    (left i en : ℕ) (pin : ℕ → Bool) (val j : ℕ)
    → test_bit j (di_loop left i en pin val)
      ≡ (test_bit j val || (in_range i left j && (test_bit j en && pin j)))
unfolding di_loop
di_loop-bits zero i en pin val j = none_left i j (test_bit j val) (test_bit j en && pin j)
di_loop-bits (suc left) i en pin val j =
    di_loop-bits left (i + 1) en pin
      (if not (bit_and en (2 ^ i) == 0) && pin i then bit_or val (2 ^ i) else val) j
    ∙ ap (λ b. b || (in_range (i + 1) left j && (test_bit j en && pin j)))
        (bits_if i val j (not (bit_and en (2 ^ i) == 0) && pin i))
    ∙ ap
        (λ e.
          (if e && pin i then test_bit j val || i == j else test_bit j val)
          || (in_range (i + 1) left j && (test_bit j en && pin j)))
        (enabled i en)
    ∙ next_bit i left j (test_bit j val) (test_bit i en) (pin i) (pin j) (test_bit j en)
        (λ e. (ap pin e, ap (λ k. test_bit k en) e))

-- Each bit of the sampled value tells whether its input is there, enabled and active.
pub di_value-bits :
    (count en : ℕ) (pin : ℕ → Bool) (j : ℕ)
    → test_bit j (di_value count en pin) ≡ (ltb j (min di_num count) && (test_bit j en && pin j))
unfolding di_value
di_value-bits count en pin j =
    di_loop-bits (min di_num count) 0 en pin 0 j
    ∙ ap (λ b. b || (in_range 0 (min di_num count) j && (test_bit j en && pin j))) (test_bit_none j)
    ∙ ap (λ b. b && (test_bit j en && pin j)) (from_zero (min di_num count) j)

update_input_reg-some :
    (regs : Regs) (addr v : ℕ)
    → addr < length regs.input
    → update_input_reg regs addr v ≡ some (record regs { input = set regs.input addr v })
unfolding update_input_reg
update_input_reg-some regs addr v h = rw (shorter (length regs.input) addr h) refl

get_input_reg-set :
    (regs : Regs) (addr v : ℕ)
    → addr < length regs.input
    → get_input_reg (record regs { input = set regs.input addr v }) addr ≡ v
unfolding get_input_reg
get_input_reg-set regs addr v h =
    rw (length-set regs.input addr v, shorter (length regs.input) addr h)
      (get_or-set_self regs.input addr v 0 h)

get_input_reg-store :
    (regs : Regs) (addr v : ℕ)
    → addr < length regs.input
    → get_input_reg (store regs addr v) addr ≡ v
get_input_reg-store regs addr v h =
    ap (λ (o : Option Regs). get_input_reg (elim o [ none ↦ regs | some r ↦ r ]) addr)
      (update_input_reg-some regs addr v h)
    ∙ get_input_reg-set regs addr v h

-- After a pass each bit of the input register tells whether its input is there, enabled and active,
-- if the register exists.
pub di_pass-bits :
    (count now : ℕ) (pin : ℕ → Bool) (regs : Regs) (j : ℕ)
    → input_di < length regs.input
    → let (regs', sample) = di_pass count pin now regs in
      test_bit j (get_input_reg regs' input_di)
      ≡ (ltb j (min di_num count) && (test_bit j (get_holding_reg regs di_enable) && pin j))
unfolding di_pass
di_pass-bits count now pin regs j h =
    let en = get_holding_reg regs di_enable in
    ap (test_bit j) (get_input_reg-store regs input_di (di_value count en pin) h)
    ∙ di_value-bits count en pin j

-- The level that the loop gives a pin, if it gives one.
pub level : List Write → ℕ → Option Bool
level [] j = none
level (set_do_pin i on ∷ ws) j = if i == j then some on else level ws j
level (set_led_pin i on ∷ ws) j = level ws j

-- The pass of a thread is repeated after at least 10 ms and at most 5 s.
pub sample_interval_bounds :
    (si : ℕ) → (10 ≤ sample_interval si) × (sample_interval si ≤ sample_interval_max)
unfolding sample_interval
sample_interval_bounds si = ground arith

nothing : (i j : ℕ) → in_range i 0 j ≡ false
nothing i j = ground arith

next_level :
    (i left j : ℕ) (a b : Bool)
    → (i ≡ j → a ≡ b)
    → (if i == j then some a else (if in_range (i + 1) left j then some b else none))
      ≡ (if in_range i (suc left) j then some b else none)
next_level i left j a b same = ground (arith, same)

level-lights :
    (i j : ℕ) (on b : Bool) (rest : List Write)
    → level (if b then set_led_pin i on ∷ rest else rest) j ≡ level rest j
unfolding level
level-lights i j on true rest = refl
level-lights i j on false rest = refl

set_do_loop-level :
    (left i leds val j : ℕ)
    → level (set_do_loop left i leds val) j
      ≡ (if in_range i left j then some (test_bit j val) else none)
unfolding set_do_loop level
set_do_loop-level zero i leds val j = rw (nothing i j) refl
set_do_loop-level (suc left) i leds val j =
    let on = not (bit_and val (2 ^ i) == 0) in
    let rest = set_do_loop left (i + 1) leds val in
    ap₂ (λ (a : Bool) o. if i == j then some a else o) (enabled i val)
      (level-lights i j on (ltb i leds) rest ∙ set_do_loop-level left (i + 1) leds val j)
    ∙ next_level i left j (test_bit i val) (test_bit j val) (λ e. ap (λ k. test_bit k val) e)

-- Each output pin that there is gets the bit of its channel, and no other pin is written.
pub mb_set_do-level :
    (dos leds val j : ℕ)
    → level (mb_set_do dos leds val) j
      ≡ (if ltb j (min do_num dos) then some (test_bit j val) else none)
unfolding mb_set_do
mb_set_do-level dos leds val j =
    set_do_loop-level (min do_num dos) 0 leds val j
    ∙ ap (λ b. if b then some (test_bit j val) else none) (from_zero (min do_num dos) j)
