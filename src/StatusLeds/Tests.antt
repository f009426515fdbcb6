-- ===== src/StatusLeds/Tests.antt =====
-- Concrete runs of the status lights of n2e-gw.
use iot_zephyr_app.Base.{◌≡◌, refl, true, false, List, [], ◌∷◌}
use iot_zephyr_app.StatusLeds.{
  Leds, Event, activity, blink, selftest, sys_on, error_on, step, run, gw_led_init,
}
use iot_zephyr_app.StatusLeds.Runs.{IsPaced, run-IsPaced, selftest_hides}

abbrev dark : Leds
dark = record {
  led_rf24 = false;
  led_err = false;
  led_sys = false;
  rf24_last_activity = 0;
  blinking = false;
  error_latched = false;
  led_blink_work = false;
  err_selftest_work = false;
}

abbrev events : List Event
events =
    selftest
    ∷ sys_on
    ∷ activity 1000
    ∷ blink 1100
    ∷ activity 1150
    ∷ blink 1200
    ∷ error_on
    ∷ blink 1600
    ∷ []

test_lights : (run events (gw_led_init dark)).led_rf24 ≡ true
unfolding run gw_led_init
test_lights = refl

run-IsPaced_example : IsPaced (run events (gw_led_init dark))
run-IsPaced_example = run-IsPaced events dark

abbrev blinking : Leds
blinking = record dark { blinking = true; led_blink_work = true; rf24_last_activity = 1150 }

-- An error before the end of the self-test, and what follows it.
abbrev early_error : List Event
early_error = sys_on ∷ error_on ∷ activity 100 ∷ []

abbrev quiet : List Event
quiet = activity 1000 ∷ blink 1100 ∷ sys_on ∷ []

selftest_hides_example :
    let s' = run quiet (step selftest (run early_error (gw_led_init dark))) in
    (s'.error_latched ≡ true) × (s'.led_err ≡ false)
selftest_hides_example = selftest_hides early_error quiet dark refl refl refl
