-- ===== src/Sampling.antt =====
-- applications/io-edge-hub/src/io/dio.c and adc.c: a pass of the threads that sample the inputs, and
-- the writing of the outputs.
pub mod Inputs
mod Tests
use iot_zephyr_app.Base.{
  ℕ, zero, suc, ◌+◌, ◌*◌, ◌/◌, ◌%◌, ◌^◌, min, Bool, true, false, not, ◌&&◌, Option, none, some,
  List, [], ◌∷◌, ◌++◌, bit_and, bit_or, if◌then◌else◌, ltb, ◌==◌, replicate, u16, u32,
}
use iot_zephyr_app.ModbusRegs.{
  Regs, get_holding_reg, get_input_reg, update_input_reg, di_enable, ai_enable, di_sample_ms,
  ai_sample_ms, input_di, do_num, di_num,
}
use iot_zephyr_app.History.{HisData, di_type}

abbrev pub sample_interval_max : ℕ
sample_interval_max = 5000

abbrev pub ai_num : ℕ
ai_num = 4

abbrev pub ai_type : ℕ
ai_type = 2

abbrev pub input_ai0 : ℕ
input_ai0 = 1

-- How long a thread sleeps for this register value.
pub sample_interval : ℕ → ℕ
sample_interval si =
    if ltb si 10 then 10 else if ltb sample_interval_max si then sample_interval_max else si

pub data Write : Type 0 where
  set_do_pin : ℕ → Bool → Write
  set_led_pin : ℕ → Bool → Write

-- The loop from channel `i` on, with `left` channels to come and `leds` lights.
pub set_do_loop : ℕ → ℕ → ℕ → ℕ → List Write
set_do_loop zero i leds val = []
set_do_loop (suc left) i leds val =
    let on = not (bit_and val (2 ^ i) == 0) in
    let rest = set_do_loop left (i + 1) leds val in
    set_do_pin i on ∷ (if ltb i leds then set_led_pin i on ∷ rest else rest)

pub mb_set_do : ℕ → ℕ → ℕ → List Write
unfolding set_do_loop
mb_set_do dos leds val = set_do_loop (min do_num dos) 0 leds val

-- The loop from input `i` on; `pin` tells the level of each.
pub di_loop : ℕ → ℕ → ℕ → (ℕ → Bool) → ℕ → ℕ
di_loop zero i en pin val = val
di_loop (suc left) i en pin val =
    di_loop left (i + 1) en pin
      (if not (bit_and en (2 ^ i) == 0) && pin i then bit_or val (2 ^ i) else val)

pub di_value : ℕ → ℕ → (ℕ → Bool) → ℕ
unfolding di_loop
di_value count en pin = di_loop (min di_num count) 0 en pin 0

-- The bytes of a field of a packed structure.
abbrev pub le16 : ℕ → List ℕ
le16 n = n % 256 ∷ n / 256 % 256 ∷ []

abbrev pub le32 : ℕ → List ℕ
le32 n = n % 256 ∷ n / 256 % 256 ∷ n / 65536 % 256 ∷ n / 16777216 % 256 ∷ []

-- update_input_reg, whose result is not used.
abbrev pub store : Regs → ℕ → ℕ → Regs
store regs addr val = elim (update_input_reg regs addr val) [ none ↦ regs | some regs' ↦ regs' ]

-- A pass of di_thread, for `count` inputs: the registers, and the record for the history.
pub di_pass : ℕ → (ℕ → Bool) → ℕ → Regs → Regs × Option HisData
unfolding di_value get_holding_reg update_input_reg
di_pass count pin now regs =
    let en = get_holding_reg regs di_enable in
    let val = di_value count en pin in
    (
      store regs input_di val,
      if en == 0
          then none
          else some record {
            kind = di_type;
            raw = le16 di_type ++ (le32 (u32 now) ++ (le16 en ++ (le16 val ++ replicate 6 0)));
          },
    )

-- A conversion in millivolts gives no negative number.
pub ai_convert : ℕ → ℕ → ℕ
ai_convert coeff raw = u16 (u32 (coeff * (raw * 3300 / 4096) / 10000))

-- The loop from channel `i` on; `read` gives the raw value if adc_read_dt succeeds.
pub ai_loop : ℕ → ℕ → ℕ → (ℕ → ℕ) → (ℕ → Option ℕ) → Regs → Regs
unfolding ai_convert update_input_reg
ai_loop zero i en coeff read regs = regs
ai_loop (suc left) i en coeff read regs = ai_loop left (i + 1) en coeff read (
    if bit_and en (2 ^ i) == 0 then regs else elim (read i) [
      | none ↦ regs
      | some raw ↦ store regs (input_ai0 + i) (ai_convert (coeff i) raw)
    ])

pub ai_pass : ℕ → (ℕ → ℕ) → (ℕ → Option ℕ) → ℕ → Regs → Regs × Option HisData
unfolding ai_loop get_holding_reg get_input_reg
ai_pass specs coeff read now regs =
    let en = get_holding_reg regs ai_enable in
    let regs' = ai_loop (min specs ai_num) 0 en coeff read regs in
    (
      regs',
      if bit_and en 0x000F == 0
          then none
          else some record {
            kind = ai_type;
            raw =
                le16 ai_type
                ++ (le32 (u32 now)
                    ++ (le16 (bit_and en 0x000F)
                        ++ (le16 (get_input_reg regs' input_ai0)
                            ++ (le16 (get_input_reg regs' (input_ai0 + 1))
                                ++ (le16 (get_input_reg regs' (input_ai0 + 2))
                                    ++ le16 (get_input_reg regs' (input_ai0 + 3)))))));
          },
    )
