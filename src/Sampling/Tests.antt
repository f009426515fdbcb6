-- ===== src/Sampling/Tests.antt =====
-- Concrete passes of the sampling threads of io-edge-hub.
use iot_zephyr_app.Base.{
  ℕ, ◌≡◌, refl, Bool, true, false, some, [], ◌∷◌, if◌then◌else◌, ◌==◌, replicate,
}
use iot_zephyr_app.ModbusRegs.{Regs}
use iot_zephyr_app.Sampling.{set_do_pin, set_led_pin, mb_set_do, di_pass, ai_pass}

-- Inputs 0 to 3 are enabled, and analogue channel 0.
abbrev regs : Regs
regs = record { holding = 0 ∷ 0x0F ∷ 1 ∷ replicate 15 0; input = 0x1000 ∷ 0 ∷ 0 ∷ 0 ∷ 0 ∷ 0 ∷ [] }

-- Inputs 1 and 5 are active.
abbrev pins : ℕ → Bool
pins i = if i == 1 then true else i == 5

test_inputs : (di_pass 16 pins 1000 regs).0.input ≡ 0x1000 ∷ 0 ∷ 0 ∷ 0 ∷ 0 ∷ 2 ∷ []
unfolding di_pass
test_inputs = refl

-- Half of the range, with a coefficient of 1.
test_analogue :
    (ai_pass 4 (λ i. 10000) (λ i. some 2048) 1000 regs).0.input ≡ 0x1000 ∷ 1650 ∷ 0 ∷ 0 ∷ 0 ∷ 0 ∷ []
unfolding ai_pass
test_analogue = refl

test_outputs : mb_set_do 2 1 2 ≡ set_do_pin 0 false ∷ set_led_pin 0 false ∷ set_do_pin 1 true ∷ []
unfolding mb_set_do
test_outputs = refl
