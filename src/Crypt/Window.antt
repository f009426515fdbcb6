-- ===== src/Crypt/Window.antt =====
-- The receive window of nrf24_crypt.c: which low bytes are accepted, and as which counter.
use iot_zephyr_app.Base.{
  ℕ, ◌+◌, ◌-◌, ◌/◌, ◌%◌, ◌^◌, ◌≤◌, ◌<◌, ◌≡◌, ap, ◌∙◌, ◌↔◌, true, none, some, bit_and, bit_and_high,
  arith,
}
use iot_zephyr_app.Crypt.{Crypt, infer_counter}

-- `rx_counter & ~0xFF` of a 32-bit counter.
clear_low_byte : (c : ℕ) → c < 2 ^ 32 → bit_and c 0xFFFFFF00 ≡ c - c % 256
clear_low_byte c h =
    ap (λ m. bit_and m 0xFFFFFF00) (omega arith)
    ∙ bit_and_high 8 24 (c / 256) (c % 256) (omega arith) (omega arith)
    ∙ omega arith

module _ (s : Crypt) (started : s.rx_initialized ≡ true) where
  -- A frame is accepted as counter `c` exactly when `c` is one of the 32 counters after the last
  -- accepted one and has the byte that was sent as its low byte.
  pub infer_counter_window :
      (ctr_byte c : ℕ)
      → ctr_byte < 256
      → s.rx_counter + 32 < 2 ^ 32
      → (infer_counter s ctr_byte ≡ some c)
        ↔ ((s.rx_counter < c) × (c ≤ s.rx_counter + 32) × (c % 256 ≡ ctr_byte))
  unfolding infer_counter
  infer_counter_window ctr_byte c b w =
      let low : bit_and s.rx_counter 0xFFFFFF00 ≡ s.rx_counter - s.rx_counter % 256 =
        clear_low_byte s.rx_counter (omega arith) in
      ((λ e. ground arith), (λ h. ground arith))

  -- A frame that was sealed no later than the last accepted one, and at most 223 counters before
  -- it, is rejected.
  pub infer_counter-old :
      (c : ℕ)
      → s.rx_counter < 2 ^ 32
      → c ≤ s.rx_counter
      → s.rx_counter < c + 224
      → infer_counter s (c % 256) ≡ none
  unfolding infer_counter
  infer_counter-old c h p q = ground arith
