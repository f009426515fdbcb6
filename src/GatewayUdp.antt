-- ===== src/GatewayUdp.antt =====
-- applications/n2e-gw/src/udp.c: the host's commands, the queue of frames for the host, and the
-- forwarding of the host's frames to the radio.
-- A text is the list of its characters, without the final zero.
pub mod Angles
pub mod Coordinates
pub mod Queue
pub mod Settings
mod Tests
use iot_zephyr_app.Base.{
  ℕ, ◌+◌, ◌-◌, ◌/◌, ◌^◌, ◌≡◌, Bool, true, false, not, ◌&&◌, ◌||◌, Option, none, some, List, [], ◌∷◌,
  ◌++◌, if◌then◌else◌, ltb, ◌==◌, length, take, drop, replicate,
}
use iot_zephyr_app.Zephyr.ByteOrder.{ByteOrder}
use iot_zephyr_app.Crypt.{Crypt}
use iot_zephyr_app.GatewayRadio.{gw_rf24_send}
use iot_zephyr_app.Handler.Scanner.{is_scanner}
use iot_zephyr_app.UdpUpgrade.{Build, UdpFw, set_app_handler, allow_broadcast_cmd}

-- The text of an IPv4 address and its four bytes: inet_pton and inet_ntop.
pub record Inet : Type 0 where
  pub inet_pton : List ℕ → Option (List ℕ)
  pub inet_ntop : List ℕ → List ℕ
  pub pton-ntop : (addr : List ℕ) → length addr ≡ 4 → inet_pton (inet_ntop addr) ≡ some addr
  pub pton-length : (text addr : List ℕ) → inet_pton text ≡ some addr → length addr ≡ 4

abbrev pub gw_tx_frame_max : ℕ
gw_tx_frame_max = 32

abbrev pub gw_tx_slots : ℕ
gw_tx_slots = 8

abbrev pub rf24_addr_len : ℕ
rf24_addr_len = 5

abbrev pub cmd_set_ip : ℕ
cmd_set_ip = 0x10

abbrev pub cmd_get_net : ℕ
cmd_get_net = 0x11

abbrev pub cmd_set_rf24 : ℕ
cmd_set_rf24 = 0x12

abbrev pub cmd_get_rf24 : ℕ
cmd_get_rf24 = 0x13

abbrev pub cmd_set_host : ℕ
cmd_set_host = 0x14

abbrev pub cmd_discover : ℕ
cmd_discover = 0x15

abbrev pub cmd_factory_reset : ℕ
cmd_factory_reset = 0x16

pub record GwParams : Type 0 where
  pub rf24_addr : List ℕ
  pub ip_addr : List ℕ
  pub data_port : ℕ
  pub use_dhcp : Bool
  pub host_ip : List ℕ
  pub host_port : ℕ

-- Calls out of the command handler, in order. `set_radio` is gw_rf24_set_config.
pub data Effect : Type 0 where
  reply : List ℕ → Effect
  save_network : Effect
  save_rf24 : Effect
  set_radio : List ℕ → Effect
  reboot : Effect

-- The address of the interface, if it has one, what opening and erasing the settings partition
-- answer, and CONFIG_UDP_FW_CONFIG_PORT.
pub record Answers : Type 0 where
  pub live : Option (List ℕ)
  pub area_open : Bool
  pub area_erase : Bool
  pub config_port : ℕ

-- gw_udp_send: what becomes of the queue. A frame that finds it full is dropped.
pub gw_udp_send : Bool → List (List ℕ) → List ℕ → List (List ℕ)
gw_udp_send link_up queue frame =
    if length frame == 0 || ltb gw_tx_frame_max (length frame)
    then queue
    else if not link_up
    then queue
    else if ltb (length queue) gw_tx_slots
    then queue ++ frame ∷ []
    else queue

module _ (order : ByteOrder) (inet : Inet) where
  pub ip_is_valid : List ℕ → Bool
  ip_is_valid addr =
      let a = order.get_be32 addr in
      let b0 = a / 2 ^ 24 in
      if a == 0
      then false
      else if a == 0xFFFFFFFF
      then false
      else if b0 == 127
      then false
      else if not (ltb b0 224)
      then false
      else true

  abbrev pub addr_or_zero : Option (List ℕ) → List ℕ
  addr_or_zero none = replicate 4 0
  addr_or_zero (some addr) = addr

  pub pack_host : GwParams → List ℕ
  pack_host p = addr_or_zero (inet.inet_pton p.host_ip) ++ order.put_be16 p.host_port

  -- A datagram that is sent: the destination's address and port, and the bytes. `sock` tells whether
  -- the data socket is open.
  pub gw_udp_do_send : Bool → Bool → GwParams → List ℕ → Option (List ℕ × ℕ × List ℕ)
  gw_udp_do_send sock link_up p frame =
      if not sock || length frame == 0
      then none
      else if not link_up
      then none
      else elim (inet.inet_pton p.host_ip) [
        | none ↦ none
        | some addr ↦ some (addr, p.host_port, frame)
      ]

  pub set_ip : GwParams → List ℕ → GwParams × List Effect
  unfolding ip_is_valid
  set_ip p bytes =
      let addr = take 4 bytes in
      if not (ltb (length bytes) 4) && not p.use_dhcp
      then if ip_is_valid addr
        then (record p { ip_addr = inet.inet_ntop addr }, save_network ∷ reply (1 ∷ []) ∷ [])
        else (p, reply (0 ∷ []) ∷ [])
      else (p, reply (0 ∷ []) ∷ [])

  pub get_net : GwParams → List Effect
  get_net p =
      reply (
        order.put_be16 p.data_port
        ++ (addr_or_zero (inet.inet_pton p.host_ip) ++ order.put_be16 p.host_port))
      ∷ []

  pub set_rf24 : GwParams → List ℕ → GwParams × List Effect
  set_rf24 p bytes =
      let addr = take rf24_addr_len bytes in
      if ltb (length bytes) rf24_addr_len
      then (p, [])
      else (record p { rf24_addr = addr }, save_rf24 ∷ set_radio addr ∷ reply addr ∷ [])

  pub set_host : GwParams → List ℕ → GwParams × List Effect
  unfolding pack_host
  set_host p bytes =
      let p' = record p {
        host_ip = inet.inet_ntop (take 4 bytes);
        host_port = order.get_be16 (drop 4 bytes);
      } in
      if ltb (length bytes) 6 then (p, []) else (p', save_network ∷ reply (pack_host p') ∷ [])

  pub discover : Answers → GwParams → List Effect
  discover a p =
      let own : List ℕ = elim a.live [
        | none ↦ addr_or_zero (inet.inet_pton p.ip_addr)
        | some addr ↦ addr
      ] in
      reply (own ++ order.put_be16 a.config_port) ∷ []

  pub factory_reset : Answers → List Effect
  factory_reset a =
      if a.area_open && a.area_erase then reply (1 ∷ []) ∷ reboot ∷ [] else reply (0 ∷ []) ∷ []

  -- Whether the command is one of these.
  pub app_cmd_handler : Answers → GwParams → ℕ → List ℕ → Bool × GwParams × List Effect
  unfolding set_ip factory_reset
  app_cmd_handler a p cmd bytes =
      if cmd == cmd_set_ip
      then (true, (set_ip p bytes).0, (set_ip p bytes).1)
      else if cmd == cmd_get_net
      then (true, p, get_net p)
      else if cmd == cmd_set_rf24
      then (true, (set_rf24 p bytes).0, (set_rf24 p bytes).1)
      else if cmd == cmd_get_rf24
      then (true, p, reply p.rf24_addr ∷ [])
      else if cmd == cmd_set_host
      then (true, (set_host p bytes).0, (set_host p bytes).1)
      else if cmd == cmd_discover
      then (true, p, discover a p)
      else if cmd == cmd_factory_reset
      then (true, p, factory_reset a)
      else (false, p, [])

  -- A pass of udp_tx_thread, if a frame is queued: the queue, and what is sent.
  pub udp_tx_pass :
      Bool → Bool → GwParams → List (List ℕ) → List (List ℕ) × List (List ℕ × ℕ × List ℕ)
  udp_tx_pass sock link_up p [] = ([], [])
  udp_tx_pass sock link_up p (frame ∷ queue) = elim (gw_udp_do_send sock link_up p frame) [
    | none ↦ (queue, [])
    | some datagram ↦ (queue, datagram ∷ [])
  ]

module _ (order : ByteOrder) where
  -- A datagram at the data port; `ready`, `air` and `junk` are as in gw_rf24_send.
  pub data_rx : Bool → (ℕ → Bool) → Crypt → List ℕ → List ℕ → Bool × Crypt
  data_rx ready air c received junk =
      let can_id = order.get_be16 received in
      if ltb (length received) 2
      then (false, c)
      else if is_scanner can_id
      then gw_rf24_send order true ready air c can_id (drop 2 received) junk
      else (false, c)

-- gw_udp_init: only DISCOVER may come by broadcast.
pub gw_udp_init : Build → UdpFw → ℕ → ℕ → UdpFw
gw_udp_init b s handler user_data =
    allow_broadcast_cmd b (set_app_handler s (some handler) user_data) cmd_discover
