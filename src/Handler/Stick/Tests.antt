-- ===== src/Handler/Stick/Tests.antt =====
-- Runs of the stick's sampling, and the theorem about it at a concrete input.
use iot_zephyr_app.Base.{
  ℕ, ◌+◌, ◌≡◌, refl, none, some, [], ◌∷◌, ◌++◌, replicate, drop, pos, negsuc, arith,
}
use iot_zephyr_app.Zephyr.Model.{model_bytes}
use iot_zephyr_app.Base.{quot, ◌+ℤ◌, ◌-ℤ◌}
use iot_zephyr_app.Handler.Stick.{
  Reading, Stick, trim_avg, trim_loop, to_angle, to_degree, s16, adc_pass,
}
use iot_zephyr_app.Handler.Stick.Angles.{IsSampled, IsReported, adc_pass-IsReported}

test_trim : trim_avg (pos 5 ∷ negsuc 99 ∷ replicate 7 (pos 5) ++ pos 180 ∷ []) ≡ pos 5
unfolding trim_avg trim_loop quot ◌+ℤ◌ ◌-ℤ◌
test_trim = refl

test_angles :
    (to_angle (pos 1500) ≡ pos 0)
    × (to_angle (pos 0) ≡ negsuc 199)
    × (to_angle (pos 3000) ≡ pos 200)
unfolding to_angle
test_angles = (refl, refl, refl)

test_degree : (to_degree (negsuc 26) ≡ negsuc 19) × (to_degree (pos 9) ≡ pos 0)
unfolding to_degree quot
test_degree = (refl, refl)

abbrev middle : Stick
middle = record {
  x_samples = replicate 10 (pos 0);
  y_samples = replicate 10 (pos 0);
  x_degree = pos 0;
  y_degree = pos 0;
  h_button = 1;
  last_activity_time = 0;
}

middle-IsSampled : IsSampled middle
middle-IsSampled = record {
  ten_x = refl;
  ten_y = refl;
  reach_x = omega arith;
  reach_y = omega arith;
}

-- The second channel cannot be read.
abbrev readings : ℕ → Reading × Reading
readings k = (some (pos (600 + k)), none)

adc_pass-IsReported_example :
    let (s', frame) = adc_pass model_bytes readings 77 middle in
    IsSampled s'
    × IsReported s'.x_degree
    × IsReported s'.y_degree
    × (s16 (model_bytes.get_be16 frame) ≡ s'.x_degree)
    × (s16 (model_bytes.get_be16 (drop 2 frame)) ≡ s'.y_degree)
adc_pass-IsReported_example = adc_pass-IsReported model_bytes readings 77 middle middle-IsSampled
