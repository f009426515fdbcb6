-- ===== src/UdpUpgrade/Receive.antt =====
-- The receive thread of udp_fw_upgrade.c, and the start of the configuration port.
pub mod Routing
use iot_zephyr_app.Base.{
  ℕ, Bool, true, false, not, ◌&&◌, Option, none, some, List, [], ◌∷◌, if◌then◌else◌,
}
use iot_zephyr_app.UdpUpgrade.{Addr, Build, UdpFw, Answers, Effect, callback, bcast_cmd_allowed}
use iot_zephyr_app.UdpUpgrade.Commands.{Outcome, is_same_subnet, handle_fw_cmd}

-- Every registered handler is called, in the order of the slots.
pub broadcast_cmd : List (Option (ℕ × ℕ)) → ℕ → List ℕ → List Effect
broadcast_cmd [] cmd bytes = []
broadcast_cmd (none ∷ slots) cmd bytes = broadcast_cmd slots cmd bytes
broadcast_cmd (some (cb, u) ∷ slots) cmd bytes =
    callback cb u cmd bytes ∷ broadcast_cmd slots cmd bytes

module _ (b : Build) (a : Answers) where
  -- One round of the thread, for a datagram of at least one byte: the command and its data.
  pub rx_datagram : UdpFw → Addr → ℕ → List ℕ → Outcome
  rx_datagram s src cmd bytes =
      let s' = record s { config_remote_addr = src } in
      if b.restrict
        && (not (is_same_subnet a.iface src.ip)
            && not (bcast_cmd_allowed s'.bcast_allowed_cmds cmd))
      then (s', [])
      else elim (handle_fw_cmd b a s' cmd bytes) [
        | some outcome ↦ outcome
        | none ↦ (s', broadcast_cmd s'.handlers cmd bytes)
      ]

  -- A `recvfrom` that returns 0 or less is skipped.
  pub rx_round : UdpFw → Addr → List ℕ → Outcome
  rx_round s src [] = (s, [])
  rx_round s src (cmd ∷ bytes) = rx_datagram s src cmd bytes

-- What `socket` and `bind` return.
pub udp_fw_start : Option ℕ → Bool → UdpFw → UdpFw
udp_fw_start sock bound s = if s.udp_fw_started then s else elim sock [
  | none ↦ record s { config_sock = none }
  | some fd ↦
      if bound
      then record s { config_sock = some fd; udp_fw_started = true }
      else record s { config_sock = none }
]

-- `up` tells whether the event is NET_EVENT_IF_UP.
pub if_up_handler : Bool → Option ℕ → Bool → UdpFw → UdpFw
unfolding udp_fw_start
if_up_handler up sock bound s = if up then udp_fw_start sock bound s else s

-- `up` is `none` if there is no default interface, else whether it is up; the flag tells whether
-- the callback is registered, to wait for it.
pub udp_fw_init : Option Bool → Option ℕ → Bool → UdpFw → UdpFw × Bool
unfolding udp_fw_start
udp_fw_init up sock bound s = elim up [
  | some true ↦ (udp_fw_start sock bound s, false)
  | some false ↦ (s, true)
  | none ↦ (s, true)
]
