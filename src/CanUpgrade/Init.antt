-- ===== src/CanUpgrade/Init.antt =====
-- `can_fw_init` of can_fw_upgrade.c: the controller is set up, and what fails stops it.
use iot_zephyr_app.Base.{ℕ, ◌≡◌, Bool, not, List, [], ◌∷◌, ◌++◌, if◌then◌else◌, ◌==◌, arith}
use iot_zephyr_app.CanUpgrade.{Build, CanFw}

pub data SetupCall : Type 0 where
  set_mode_one_shot : SetupCall
  set_bitrate : ℕ → SetupCall
  start : SetupCall
  mask_error_interrupts : SetupCall
  add_rx_filter : SetupCall
  send_trace : SetupCall

-- What the driver returns: an error number, which is 0 for none.
pub record Driver : Type 0 where
  pub ready : Bool
  pub bitrate_err : ℕ
  pub start_err : ℕ

abbrev pub enodev : ℕ
enodev = 19

-- The calls, and the error number that is returned (0 for none).
pub can_fw_init : Build → Driver → CanFw → List SetupCall × ℕ
can_fw_init b d s =
    let bail = λ (rc : ℕ). if b.boot_wait then 0 else rc in
    let bitrate : ℕ = if s.bitrate_override == 0 then b.default_bitrate else s.bitrate_override in
    let before = (if b.boot_wait then set_mode_one_shot ∷ [] else []) ++ set_bitrate bitrate ∷ [] in
    if not d.ready
    then ([], bail enodev)
    else if not (d.bitrate_err == 0)
    then (before, bail d.bitrate_err)
    else if not (d.start_err == 0)
    then (before ++ start ∷ [], 0)
    else (
      before
          ++ start
            ∷ mask_error_interrupts
            ∷ add_rx_filter
            ∷ (if b.boot_wait then send_trace ∷ [] else []),
      0,
    )

module _ (b : Build) (d : Driver) (s : CanFw) where
  -- The boot loader never reports an error of the set-up; an application reports that the device is
  -- missing or refuses the bitrate, and no other.
  pub can_fw_init_lem :
      (can_fw_init b d s).1 ≡ (if b.boot_wait then 0 else if d.ready then d.bitrate_err else enodev)
  unfolding can_fw_init
  can_fw_init_lem = ground arith
