-- ===== src/CanUpgrade.antt =====
-- libs/can_fw_upgrade/can_fw_upgrade.c: its static variables, what it does to the world outside,
-- and the registration of hooks and handlers.
-- A callback is a number; `Answers` holds what the calls out of the library return while one frame
-- is handled. The targets are little-endian, so `data_32` is read and written as such.
pub mod Frames
pub mod Boot
pub mod Init
mod Tests
use iot_zephyr_app.Base.{
  ℕ, ◌+◌, Bool, true, false, Option, none, some, List, [], ◌∷◌, ◌++◌, if◌then◌else◌, ltb, length,
}
use iot_zephyr_app.Zephyr.ByteOrder.{ByteOrder}
use iot_zephyr_app.UdpUpgrade.{put_handler, drop_handler}

-- A `struct can_frame` that was received; `bytes` is its `data`, of eight bytes.
pub record CanFrame : Type 0 where
  pub id : ℕ
  pub bytes : List ℕ
  pub dlc : ℕ

pub data Partition : Type 0 where
  slot0 : Partition
  slot1 : Partition
  scratch : Partition

-- The Kconfig symbols and the generated headers of a build, and what it calls in Zephyr.
-- `boot_wait` is CONFIG_CAN_FW_UPGRADE_BOOT_WAIT, `keyhash` is `fw_keyhash` where
-- CAN_FW_KEYHASH_ENABLE is defined, and `version` is the text that VERSION formats, which its
-- buffer of 24 bytes holds.
pub record Build : Type 0 where
  pub bytes : ByteOrder
  pub round_up : ℕ → ℕ → ℕ
  pub dlc_to_bytes : ℕ → ℕ
  pub boot_wait : Bool
  pub has_scratch : Bool
  pub keyhash : Option (List ℕ)
  pub version : List ℕ
  pub default_bitrate : ℕ

abbrev pub max_pre_reboot_hooks : ℕ
max_pre_reboot_hooks = 4

-- The static variables; `boot_acks` is the count of `can_fw_boot_ack_sem`.
pub record CanFw : Type 0 where
  pub handlers : List (Option (ℕ × ℕ))
  pub pre_reboot_hooks : List ℕ
  pub pre_start_hook : Option ℕ
  pub fw_img_initialized : Bool
  pub fw_written : ℕ
  pub fw_total_size : ℕ
  pub boot_acks : ℕ
  pub last_activity_ms : ℕ
  pub confirmed : Bool
  pub rx_busy : Bool
  pub rx_keybuf : List ℕ
  pub key_chunk_mask : ℕ
  pub rx_msgq : List CanFrame
  pub bitrate_override : ℕ

-- Calls out of the library, in order. `img_write` tells whether the write succeeded.
pub data Effect : Type 0 where
  can_send : ℕ → List ℕ → Effect
  area_erase : Partition → ℕ → Effect
  img_init : Partition → Effect
  img_write : List ℕ → Bool → Effect
  img_flush : Effect
  request_upgrade : ℕ → Effect
  hook : ℕ → Effect
  callback : ℕ → ℕ → CanFrame → Effect
  log_process : Effect
  reboot : Effect

-- What those calls return.
pub record Answers : Type 0 where
  pub uptime : ℕ
  pub pre_start : Bool
  pub area_open : Partition → Bool
  pub area_size : Partition → ℕ
  pub area_read : Partition → ℕ → ℕ → List ℕ
  pub init : Bool
  pub write : Bool
  pub request : Bool

pub add_pre_reboot_hook : CanFw → Option ℕ → CanFw
add_pre_reboot_hook s none = s
add_pre_reboot_hook s (some h) =
    if ltb (length s.pre_reboot_hooks) max_pre_reboot_hooks
    then record s { pre_reboot_hooks = s.pre_reboot_hooks ++ h ∷ [] }
    else s

pub add_pre_start_hook : CanFw → Option ℕ → CanFw
add_pre_start_hook s h = record s { pre_start_hook = h }

pub set_bitrate : CanFw → ℕ → CanFw
set_bitrate s bitrate = record s { bitrate_override = bitrate }

-- The slots are searched as in udp_fw_upgrade.c; `false` is the NULL that is returned.
pub set_app_handler : CanFw → Option ℕ → ℕ → CanFw × Bool
set_app_handler s none user_data = (s, true)
set_app_handler s (some cb) user_data = elim (put_handler s.handlers (cb, user_data)) [
  | none ↦ (s, false)
  | some slots ↦ (record s { handlers = slots }, true)
]

-- `false` is -ENOENT.
pub remove_handler : CanFw → ℕ → CanFw × Bool
remove_handler s cb = elim (drop_handler s.handlers cb) [
  | none ↦ (s, false)
  | some slots ↦ (record s { handlers = slots }, true)
]
