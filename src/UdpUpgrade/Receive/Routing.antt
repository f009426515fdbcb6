-- ===== src/UdpUpgrade/Receive/Routing.antt =====
-- Where the answers of udp_fw_upgrade.c go, and which datagrams get none.
use iot_zephyr_app.Base.{
  ℕ, ◌+◌, ◌≡◌, ◌∙◌, true, false, not, ◌&&◌, some, List, [], ◌∷◌, if◌then◌else◌, u16,
}
use iot_zephyr_app.UdpUpgrade.{Addr, Build, UdpFw, Answers, send, bcast_cmd_allowed}
use iot_zephyr_app.UdpUpgrade.Commands.{Outcome, broadcast, is_same_subnet, handle_fw_cmd}
use iot_zephyr_app.UdpUpgrade.Commands.Trace.{only, is_send}
use iot_zephyr_app.UdpUpgrade.Commands.Replies.{handle_fw_cmd_answers, udp_fw_reply_lem}
use iot_zephyr_app.UdpUpgrade.Receive.{rx_datagram}

module _ (b : Build) (a : Answers) (s : UdpFw) (src : Addr) (cmd : ℕ) (bytes : List ℕ) where
  -- A command that came from another subnet, and was not allowed to, is dropped: nothing is called,
  -- and only the sender's address is kept.
  pub rx_datagram_dropped :
      b.restrict ≡ true
      → is_same_subnet a.iface src.ip ≡ false
      → bcast_cmd_allowed s.bcast_allowed_cmds cmd ≡ false
      → rx_datagram b a s src cmd bytes ≡ (record s { config_remote_addr = src }, [])
  unfolding rx_datagram
  rx_datagram_dropped limited far barred = simp (limited, far, barred, rx_datagram)

  -- A firmware command that is not dropped is answered, over an open socket, by one datagram with
  -- the command's code: to its sender if that is in the own subnet, and else to everybody on the
  -- port after the configuration port.
  pub rx_datagram_routed :
      (fd : ℕ) (out : Outcome)
      → s.config_sock ≡ some fd
      → handle_fw_cmd b a (record s { config_remote_addr = src }) cmd bytes ≡ some out
      → (b.restrict
          && (not (is_same_subnet a.iface src.ip)
              && not (bcast_cmd_allowed s.bcast_allowed_cmds cmd)))
        ≡ false
      → (rest : List ℕ) × (only is_send (rx_datagram b a s src cmd bytes).1
          ≡ send
              (if is_same_subnet a.iface src.ip
                then src
                else record { ip = broadcast; port = u16 (b.port + 1) })
              (cmd ∷ rest)
            ∷ [])
  unfolding rx_datagram
  rx_datagram_routed fd out opened made passed =
      let (payload, says) =
        handle_fw_cmd_answers b a (record s { config_remote_addr = src }) cmd bytes out made in
      let (rest, one) = udp_fw_reply_lem b a out.0 fd cmd payload (says.2 ∙ opened) in
      (rest, simp (passed, made, rx_datagram, says.0, one, says.1))
