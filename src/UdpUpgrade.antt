-- ===== src/UdpUpgrade.antt =====
-- libs/udp_fw_upgrade/udp_fw_upgrade.c: its static variables, what it does to the world outside,
-- and the registries of hooks, handlers and broadcast commands.
-- A callback is a number; what it returns is part of the answers of a command (`Answers`).
pub mod Commands
pub mod Receive
pub mod Registry
mod Tests
use iot_zephyr_app.Base.{
  ℕ, suc, ◌+◌, Bool, true, false, Option, none, some, List, [], ◌∷◌, ◌++◌, if◌then◌else◌, ltb, ◌==◌,
  length, get_or,
}
use iot_zephyr_app.Zephyr.ByteOrder.{ByteOrder}
use iot_zephyr_app.Zephyr.Crc.{Crc}

-- A socket address: IPv4 address and port, in host order.
pub record Addr : Type 0 where
  pub ip : ℕ
  pub port : ℕ

-- The Kconfig symbols and the generated headers that the library is built with, and what it calls
-- in Zephyr. `keyhash` is `fw_keyhash` where CONFIG_MCUBOOT_SIGNATURE_KEY_FILE is set;
-- `version` is the text that GET_VERSION formats.
pub record Build : Type 0 where
  pub bytes : ByteOrder
  pub crc : Crc
  pub round_up : ℕ → ℕ → ℕ
  pub chunk : ℕ
  pub port : ℕ
  pub max_handlers : ℕ
  pub max_bcast_cmds : ℕ
  pub restrict : Bool
  pub keyhash : Option (List ℕ)
  pub version : List ℕ

abbrev pub max_pre_reboot_hooks : ℕ
max_pre_reboot_hooks = 4

-- The static variables. A handler slot is empty or holds a callback and its user data;
-- `config_sock` is `none` for -1.
pub record UdpFw : Type 0 where
  pub handlers : List (Option (ℕ × ℕ))
  pub pre_reboot_hooks : List ℕ
  pub pre_start_hook : Option ℕ
  pub fail_hook : Option ℕ
  pub bcast_allowed_cmds : List ℕ
  pub config_sock : Option ℕ
  pub config_remote_addr : Addr
  pub fw_started : Bool
  pub fw_size : ℕ
  pub fw_received : ℕ
  pub udp_fw_started : Bool

-- Calls out of the library, in order. `img_write` tells whether the write succeeded.
pub data Effect : Type 0 where
  send : Addr → List ℕ → Effect
  erase : ℕ → Effect
  img_init : Effect
  img_write : List ℕ → Bool → Effect
  img_flush : Effect
  request_upgrade : ℕ → Effect
  hook : ℕ → Effect
  callback : ℕ → ℕ → ℕ → List ℕ → Effect
  log_process : Effect
  reboot : Effect

-- What those calls return while one command is handled. `iface` is the default interface, if
-- there is one, with its address and netmask, if it has one; `area_read` is `none` on an error.
pub record Answers : Type 0 where
  pub iface : Option (Option (ℕ × ℕ))
  pub pre_start : Bool
  pub area_open : Bool
  pub init : Bool
  pub write : Bool
  pub bytes_written : ℕ
  pub area_read : ℕ → ℕ → Option (List ℕ)
  pub request : Bool
  pub handles : ℕ → ℕ → List ℕ → Bool

pub add_pre_reboot_hook : UdpFw → Option ℕ → UdpFw
add_pre_reboot_hook s none = s
add_pre_reboot_hook s (some h) =
    if ltb (length s.pre_reboot_hooks) max_pre_reboot_hooks
    then record s { pre_reboot_hooks = s.pre_reboot_hooks ++ h ∷ [] }
    else s

pub add_pre_start_hook : UdpFw → Option ℕ → UdpFw
add_pre_start_hook s h = record s { pre_start_hook = h }

pub add_fail_hook : UdpFw → Option ℕ → UdpFw
add_fail_hook s h = record s { fail_hook = h }

pub bcast_cmd_allowed : List ℕ → ℕ → Bool
bcast_cmd_allowed [] cmd = false
bcast_cmd_allowed (c ∷ cs) cmd = if c == cmd then true else bcast_cmd_allowed cs cmd

-- The first empty slot takes the handler; `none` if there is no slot left.
pub put_handler : List (Option (ℕ × ℕ)) → ℕ × ℕ → Option (List (Option (ℕ × ℕ)))
put_handler [] h = none
put_handler (none ∷ slots) h = some (some h ∷ slots)
put_handler (some g ∷ slots) h = elim (put_handler slots h) [
  | none ↦ none
  | some slots' ↦ some (some g ∷ slots')
]

pub set_app_handler : UdpFw → Option ℕ → ℕ → UdpFw
unfolding put_handler
set_app_handler s none user_data = s
set_app_handler s (some cb) user_data = elim (put_handler s.handlers (cb, user_data)) [
  | none ↦ s
  | some slots ↦ record s { handlers = slots }
]

-- The first slot of that callback is emptied; `none` is -ENOENT.
pub drop_handler : List (Option (ℕ × ℕ)) → ℕ → Option (List (Option (ℕ × ℕ)))
drop_handler [] cb = none
drop_handler (none ∷ slots) cb = elim (drop_handler slots cb) [
  | none ↦ none
  | some slots' ↦ some (none ∷ slots')
]
drop_handler (some (g, u) ∷ slots) cb =
    let rest : Option (List (Option (ℕ × ℕ))) = elim (drop_handler slots cb) [
      | none ↦ none
      | some slots' ↦ some (some (g, u) ∷ slots')
    ] in
    if g == cb then some (none ∷ slots) else rest

pub remove_handler : UdpFw → ℕ → UdpFw × Bool
unfolding drop_handler
remove_handler s cb = elim (drop_handler s.handlers cb) [
  | none ↦ (s, false)
  | some slots ↦ (record s { handlers = slots }, true)
]

module _ (b : Build) where
  pub allow_broadcast_cmd : UdpFw → ℕ → UdpFw
  allow_broadcast_cmd s cmd =
      if b.restrict
      then if bcast_cmd_allowed s.bcast_allowed_cmds cmd
        then s
        else if ltb (length s.bcast_allowed_cmds) b.max_bcast_cmds
        then record s { bcast_allowed_cmds = s.bcast_allowed_cmds ++ cmd ∷ [] }
        else s
      else s
