-- ===== src/GatewayRadio/Tests.antt =====
-- A frame of n2e-gw's radio, and the theorems about it at concrete inputs.
use iot_zephyr_app.Base.{ℕ, ◌≡◌, refl, Bool, true, false, List, [], ◌∷◌, ◌==◌}
use iot_zephyr_app.Zephyr.Model.{model_bytes}
use iot_zephyr_app.Crypt.{Crypt}
use iot_zephyr_app.GatewayRadio.{ignored, tested, route}

abbrev key : List ℕ
key = 1 ∷ 2 ∷ 3 ∷ 4 ∷ []

abbrev sender : Crypt
sender = record { crypt_key = key; tx_counter = 258; rx_counter = 0; rx_initialized = false }

abbrev receiver : Crypt
receiver = record { crypt_key = key; tx_counter = 7; rx_counter = 256; rx_initialized = true }

abbrev angle : List ℕ
angle = 9 ∷ 8 ∷ 7 ∷ []

-- Only the third attempt is answered.
abbrev third : ℕ → Bool
third k = k == 2

test_route : route model_bytes true (0x7 ∷ 0x77 ∷ 5 ∷ 6 ∷ []) 3 ≡ tested (5 ∷ [])
unfolding route model_bytes
test_route = refl

test_route_other : route model_bytes true (0x2 ∷ 0x77 ∷ 5 ∷ 6 ∷ []) 3 ≡ ignored
unfolding route model_bytes
test_route_other = refl
