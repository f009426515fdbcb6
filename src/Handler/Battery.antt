-- ===== src/Handler/Battery.antt =====
-- applications/angle-handler: the battery's voltage in src/adc.c, from ten samples, and its status
-- in src/gpio.c.
use iot_zephyr_app.Base.{
  ℕ, zero, ◌+◌, ◌-◌, ◌%◌, ◌^◌, ◌<◌, ◌≡◌, Bool, true, false, not, ◌&&◌, none, some, List,
  if◌then◌else◌, ltb, ◌==◌, length, length-set, set, arith, ℤ, pos, negsuc, ◌+ℤ◌,
}
use iot_zephyr_app.Handler.Stick.{Reading, trim_avg}

abbrev pub power_sample_count : ℕ
power_sample_count = 10

pub data BatteryStatus : Type 0 where
  unknown : BatteryStatus
  full : BatteryStatus
  charging : BatteryStatus
  not_charging : BatteryStatus
  discharging : BatteryStatus

-- The levels of the two pins.
pub read_battery_status : Bool → Bool → BatteryStatus
read_battery_status charge_full_pin charging_pin =
    if not charge_full_pin then full else if not charging_pin then charging else discharging

abbrev status_value : BatteryStatus → ℕ
status_value unknown = 0
status_value full = 1
status_value charging = 2
status_value not_charging = 3
status_value discharging = 4

-- A cast to uint32_t.
abbrev to_u32 : ℤ → ℕ
to_u32 (pos n) = n % 2 ^ 32
to_u32 (negsuc n) = 4294967295 - n % 2 ^ 32

-- The static samples of adc_power_thread, and what the modules share.
pub record Battery : Type 0 where
  pub power_samples : List ℤ
  pub power_sample_idx : ℕ
  pub power_mv : ℕ
  pub battery_status : BatteryStatus

-- A read that fails, or a conversion that does, is `none`.
pub take_sample : Reading → Battery → Battery
take_sample none s = s
take_sample (some mv) s = record s {
  power_samples = set s.power_samples s.power_sample_idx (mv +ℤ mv);
  power_sample_idx = s.power_sample_idx + 1;
}

-- A pass of adc_power_thread: whether the display is refreshed.
pub power_pass : Reading → BatteryStatus → Battery → Battery × Bool
unfolding take_sample
power_pass reading status s =
    let s' = take_sample reading s in
    let mv = to_u32 (trim_avg s'.power_samples) in
    let again = record s' { power_sample_idx = zero } in
    let same = mv == s.power_mv && status_value s.battery_status == status_value status in
    if ltb s'.power_sample_idx power_sample_count
    then (s', false)
    else if not same
    then (record again { power_mv = mv; battery_status = status }, true)
    else (again, false)

-- The next sample is within the array of ten.
abbrev pub InArray : Battery → Type 0
InArray s = (length s.power_samples ≡ 10) × (s.power_sample_idx < 10)

-- A pass keeps the index within the array, whatever it reads.
power_pass-InArray :
    (reading : Reading) (status : BatteryStatus) (s : Battery)
    → InArray s
    → InArray (power_pass reading status s).0
unfolding power_pass
power_pass-InArray none status s v = ground arith
power_pass-InArray (some mv) status s v =
    ground (arith, length-set s.power_samples s.power_sample_idx (mv +ℤ mv))
