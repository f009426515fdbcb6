-- ===== src/StatusLeds.antt =====
-- applications/n2e-gw/src/led.c: the three status lights of the gateway.
pub mod Runs
mod Tests
use iot_zephyr_app.Base.{
  ℕ, Bool, true, false, not, ◌||◌, List, [], ◌∷◌, if◌then◌else◌, ltb, ◌==◌, sub_u32,
}

-- The lights, the static variables, and whether the two delayed works are scheduled.
pub record Leds : Type 0 where
  pub led_rf24 : Bool
  pub led_err : Bool
  pub led_sys : Bool
  pub rf24_last_activity : ℕ
  pub blinking : Bool
  pub error_latched : Bool
  pub led_blink_work : Bool
  pub err_selftest_work : Bool

abbrev pub activity_timeout_ms : ℕ
activity_timeout_ms = 400

-- `stack_chk_fail` and `cpu_exception` are Zephyr's reasons of that name.
pub data Reason : Type 0 where
  stack_chk_fail : Reason
  cpu_exception : Reason
  other_reason : Reason

pub err_selftest_work_handler : Leds → Leds
err_selftest_work_handler s = record s { led_err = false; err_selftest_work = false }

-- The flag of the error and the last activity keep what they were set to.
pub gw_led_init : Leds → Leds
gw_led_init s = record s {
  led_rf24 = true;
  led_err = true;
  led_sys = false;
  led_blink_work = false;
  blinking = false;
  err_selftest_work = true;
}

pub gw_led_sys_on : Leds → Leds
gw_led_sys_on s = record s { led_sys = true }

pub gw_led_error_on : Leds → Leds
gw_led_error_on s = record s { error_latched = true; led_err = true }

-- `now` is the uptime.
pub led_blink_work_handler : ℕ → Leds → Leds
led_blink_work_handler now s =
    if ltb (sub_u32 now s.rf24_last_activity) activity_timeout_ms
    then record s { led_rf24 = not s.led_rf24; led_blink_work = true }
    else record s { led_rf24 = true; blinking = false; led_blink_work = false }

pub gw_led_rf24_activity : ℕ → Leds → Leds
gw_led_rf24_activity now s =
    let s' = record s { rf24_last_activity = now } in
    if s.blinking
    then s'
    else record s' { blinking = true; led_rf24 = false; led_blink_work = true }

pub fatal_error_handler : Reason → Leds → Leds
unfolding gw_led_error_on
fatal_error_handler stack_chk_fail s = gw_led_error_on s
fatal_error_handler cpu_exception s = gw_led_error_on s
fatal_error_handler other_reason s = s

-- What happens to the lights after their set-up. A work runs only if it is scheduled.
pub data Event : Type 0 where
  activity : ℕ → Event
  blink : ℕ → Event
  selftest : Event
  sys_on : Event
  error_on : Event
  fatal : Reason → Event

pub step : Event → Leds → Leds
unfolding gw_led_rf24_activity led_blink_work_handler err_selftest_work_handler gw_led_sys_on
    gw_led_error_on fatal_error_handler
step (activity now) s = gw_led_rf24_activity now s
step (blink now) s = if s.led_blink_work then led_blink_work_handler now s else s
step selftest s = if s.err_selftest_work then err_selftest_work_handler s else s
step sys_on s = gw_led_sys_on s
step error_on s = gw_led_error_on s
step (fatal reason) s = fatal_error_handler reason s

pub run : List Event → Leds → Leds
unfolding step
run [] s = s
run (e ∷ es) s = run es (step e s)
