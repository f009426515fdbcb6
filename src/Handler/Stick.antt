-- ===== src/Handler/Stick.antt =====
-- applications/angle-handler/src/adc.c: the two angles of the stick, from ten samples of each, and
-- the frame that reports them (also sent by the button's work in src/gpio.c).
pub mod Angles
mod Tests
use iot_zephyr_app.Base.{
  ℕ, zero, suc, ◌+◌, ◌-◌, ◌*◌, ◌/◌, ◌%◌, Bool, true, false, not, ◌&&◌, ◌||◌, Option, none, some,
  List, [], ◌∷◌, ◌++◌, if◌then◌else◌, ltb, ◌==◌, length, set, get_or, u16, ℤ, pos, negsuc, pos_part,
  neg_part, sub_ℕ, ◌+ℤ◌, ◌-ℤ◌, ltb_ℤ, quot,
}
use iot_zephyr_app.Zephyr.ByteOrder.{ByteOrder}

abbrev pub xy_sample_count : ℕ
xy_sample_count = 10

-- The samples less their two extremes, averaged.
pub trim_loop : List ℤ → ℤ → ℤ → ℤ → ℤ × ℤ × ℤ
trim_loop [] min_v max_v sum = (min_v, max_v, sum)
trim_loop (x ∷ xs) min_v max_v sum =
    trim_loop xs (if ltb_ℤ x min_v then x else min_v) (if ltb_ℤ max_v x then x else max_v)
      (sum +ℤ x)

pub trim_avg : List ℤ → ℤ
trim_avg samples =
    let first = get_or samples 0 (pos 0) in
    let (min_v, max_v, sum) = trim_loop samples first first (pos 0) in
    quot (sum -ℤ min_v -ℤ max_v) (length samples - 2)

-- CLAMP(val_mv, 300, 2700).
abbrev pub clamp_mv : ℤ → ℕ
clamp_mv mv = if ltb_ℤ mv (pos 300) then 300 else if ltb_ℤ (pos 2700) mv then 2700 else pos_part mv

-- The angle for a voltage, in tenths of a degree.
pub to_angle : ℤ → ℤ
to_angle mv = sub_ℕ ((clamp_mv mv - 300) * 400 / 2400) 200

-- What a read of a channel gives: nothing on an error, or `val_mv` after the conversion.
abbrev pub Reading : Type 0
Reading = Option ℤ

pub store_sample : Reading → ℕ → List ℤ → List ℤ
unfolding to_angle
store_sample none idx samples = samples
store_sample (some mv) idx samples = set samples idx (to_angle mv)

-- The ten rounds, of which so many are left; `read k` is what round `k` reads of the two channels.
pub sample_loop : ℕ → ℕ → (ℕ → Reading × Reading) → List ℤ → List ℤ → List ℤ × List ℤ
unfolding store_sample
sample_loop zero idx read xs ys = (xs, ys)
sample_loop (suc left) idx read xs ys =
    sample_loop left (idx + 1) read (store_sample (read idx).0 idx xs)
      (store_sample (read idx).1 idx ys)

-- To whole degrees, with a dead zone round the middle.
pub to_degree : ℤ → ℤ
to_degree avg =
    let tens = quot avg 10 in
    if ltb_ℤ (negsuc 9) avg && ltb_ℤ avg (pos 10)
    then pos 0
    else sub_ℕ (pos_part tens * 10) (neg_part tens * 10)

-- The static samples, and the angles, the button and the time in what the modules share.
pub record Stick : Type 0 where
  pub x_samples : List ℤ
  pub y_samples : List ℤ
  pub x_degree : ℤ
  pub y_degree : ℤ
  pub h_button : ℕ
  pub last_activity_time : ℕ

-- A cast to uint16_t, and a read of such a value as int16_t.
abbrev pub to_u16 : ℤ → ℕ
to_u16 (pos n) = u16 n
to_u16 (negsuc n) = 65535 - u16 n

abbrev pub s16 : ℕ → ℤ
s16 n = if ltb n 32768 then pos n else negsuc (65535 - n)

abbrev pub same_ℤ : ℤ → ℤ → Bool
same_ℤ a b = pos_part a == pos_part b && neg_part a == neg_part b

-- The angles are stored, with the time, if one of them is new.
pub note_angles : ℤ → ℤ → ℕ → Stick → Stick
note_angles x y now s =
    if not (same_ℤ x s.x_degree) || not (same_ℤ y s.y_degree)
    then record s { x_degree = x; y_degree = y; last_activity_time = now }
    else s

module _ (order : ByteOrder) where
  -- The frame of HANDLER_STATE.
  pub state_frame : Stick → List ℕ
  state_frame s =
      order.put_be16 (to_u16 s.x_degree)
      ++ (order.put_be16 (to_u16 s.y_degree) ++ (s.h_button ∷ 255 ∷ 255 ∷ 255 ∷ []))

  -- A pass of adc_read_thread; `now` is the uptime when the angles are compared.
  pub adc_pass : (ℕ → Reading × Reading) → ℕ → Stick → Stick × List ℕ
  adc_pass read now s =
      let (xs, ys) = sample_loop xy_sample_count 0 read s.x_samples s.y_samples in
      let sampled = record s { x_samples = xs; y_samples = ys } in
      let s' = note_angles (to_degree (trim_avg xs)) (to_degree (trim_avg ys)) now sampled in
      (s', state_frame s')

  -- The button's work, with the level of its pin; nothing while the system sleeps.
  pub btn_display_work_handler : Bool → ℕ → ℕ → Stick → Stick × Option (List ℕ)
  unfolding state_frame
  btn_display_work_handler sleeping level now s =
      let s' = record s { h_button = level; last_activity_time = now } in
      if sleeping then (s, none) else (s', some (state_frame s'))
