-- ===== src/Handler/Radio/Tests.antt =====
-- Runs of the link's quality, and the theorems about it at concrete inputs.
use iot_zephyr_app.Base.{ℕ, ◌<◌, ◌≡◌, refl, Bool, true, List, [], ◌∷◌, arith}
use iot_zephyr_app.Handler.Radio.{run}
use iot_zephyr_app.Handler.Radio.Bars.{run-below}

abbrev perfect : List (Bool × ℕ)
perfect = (true, 0) ∷ (true, 0) ∷ (true, 0) ∷ (true, 0) ∷ []

test_stuck : run perfect (25, 3) ≡ (25, 3)
unfolding run
test_stuck = refl

run-below_example : let (quality', rssi') = run perfect (27, 3) in (quality' < 28) × (rssi' < 4)
run-below_example = run-below perfect 27 3 (omega arith) (omega arith)
