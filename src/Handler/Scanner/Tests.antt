-- ===== src/Handler/Scanner/Tests.antt =====
-- Frames of the scanner.
use iot_zephyr_app.Base.{◌≡◌, refl, [], ◌∷◌, pos, negsuc}
use iot_zephyr_app.Zephyr.Model.{model_bytes}
use iot_zephyr_app.Handler.Scanner.{ScannerData, ignored, parse_scanner, dispatch, overbreak_laser}

abbrev scanned : ScannerData
scanned = record {
  overbreak_valid = negsuc 0;
  overbreak_value = pos 0;
  laser_valid = negsuc 0;
  laser_distance = pos 0;
  coord_xy_valid = negsuc 0;
  coord_x_value = pos 0;
  coord_y_value = pos 0;
  coord_z_valid = negsuc 0;
  coord_z_value = pos 0;
}

test_overbreak :
    (parse_scanner model_bytes overbreak_laser (1 ∷ 0 ∷ 255 ∷ 254 ∷ 0 ∷ 0 ∷ 1 ∷ 2 ∷ []) scanned).0
    ≡ record scanned {
      overbreak_valid = pos 1;
      overbreak_value = negsuc 1;
      laser_distance = pos 258;
    }
unfolding parse_scanner model_bytes
test_overbreak = refl

test_other : dispatch model_bytes scanned (1 ∷ 0xE3 ∷ 5 ∷ []) 3 ≡ ignored
unfolding dispatch model_bytes
test_other = refl
