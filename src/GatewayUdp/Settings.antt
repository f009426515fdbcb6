-- ===== src/GatewayUdp/Settings.antt =====
-- What the host's commands do to the settings of the gateway.
use iot_zephyr_app.Base.{
  ℕ, ◌*◌, ◌/◌, ◌^◌, ◌≤◌, ◌<◌, ◌≡◌, refl, sym, ap, true, not, ◌&&◌, some, List, [], ◌∷◌, ◌++◌,
  if◌then◌else◌, ltb, ◌==◌, ==_no, length, length-append, take, take-append_self, drop-append_self,
  arith, le→ltb_false,
}
use iot_zephyr_app.Zephyr.ByteOrder.{ByteOrder}
use iot_zephyr_app.GatewayUdp.{
  Inet, GwParams, Answers, Effect, reply, save_network, cmd_set_ip, cmd_get_net, cmd_set_host,
  ip_is_valid, set_host, pack_host, get_net, set_ip, app_cmd_handler, gw_udp_do_send,
}

module _ (order : ByteOrder) (inet : Inet) (a : Answers) (p : GwParams) where
  set_host_stored :
      (addr rest : List ℕ) (port : ℕ)
      → length addr ≡ 4
      → port < 2 ^ 16
      → let p' = record p { host_ip = inet.inet_ntop addr; host_port = port } in
        set_host order inet p (addr ++ (order.put_be16 port ++ rest))
        ≡ (p', save_network ∷ reply (addr ++ order.put_be16 port) ∷ [])
  unfolding set_host pack_host
  set_host_stored addr rest port four small =
      rw
        (
          le→ltb_false (length bytes) 6 long,
          take-append_self addr (order.put_be16 port ++ rest) 4 (sym four),
          drop-append_self addr (order.put_be16 port ++ rest) 4 (sym four),
          order.get-put_be16 port rest small,
          inet.pton-ntop addr four,
        )
        refl
    where
      bytes : List ℕ
      bytes = addr ++ (order.put_be16 port ++ rest)

      long : 6 ≤ length bytes
      long = omega (
        arith,
        length-append addr (order.put_be16 port ++ rest),
        length-append (order.put_be16 port) rest,
        order.length-put_be16 port,
      )

  -- SET_HOST with an address and a port, and whatever follows them, saves them and answers with them;
  -- a GET_NET then answers with the data port and them, and a frame of at least a byte is sent to
  -- them while the socket is open and the link is up.
  pub set_host-get_net :
      (addr rest frame : List ℕ) (port : ℕ)
      → length addr ≡ 4
      → port < 2 ^ 16
      → 1 ≤ length frame
      → let bytes = addr ++ (order.put_be16 port ++ rest) in
        let (known, p', calls) = app_cmd_handler order inet a p cmd_set_host bytes in
        let (_, _, calls') = app_cmd_handler order inet a p' cmd_get_net [] in
        (known ≡ true)
        × (calls ≡ save_network ∷ reply (addr ++ order.put_be16 port) ∷ [])
        × (calls' ≡ reply (order.put_be16 p.data_port ++ (addr ++ order.put_be16 port)) ∷ [])
        × (gw_udp_do_send order inet true true p' frame ≡ some (addr, port, frame))
  unfolding app_cmd_handler get_net gw_udp_do_send
  set_host-get_net addr rest frame port four small some_byte =
      rw
        (
          set_host_stored addr rest port four small,
          inet.pton-ntop addr four,
          ==_no (length frame) 0 (omega arith),
        )
        (
          refl,
          refl,
          refl,
          ap (λ (r : GwParams × List Effect). some (addr, r.0.host_port, frame))
              (set_host_stored addr rest port four small),
        )

  -- SET_IP stores the address, and saves it, just if it has four bytes, the static mode is on, and the
  -- address is not 0.0.0.0, of the loopback net 127, or from 224.0.0.0 on; the answer tells which, and
  -- otherwise nothing changes.
  pub set_ip_lem :
      (bytes : List ℕ)
      → let (known, p', calls) = app_cmd_handler order inet a p cmd_set_ip bytes in
        let value = order.get_be32 (take 4 bytes) in
        let fits = not (ltb (length bytes) 4) && not p.use_dhcp in
        let unicast =
          not (value == 0) && (not (value / 2 ^ 24 == 127) && ltb value (224 * 2 ^ 24)) in
        (known ≡ true)
        × (p'
            ≡ (if fits && unicast then record p { ip_addr = inet.inet_ntop (take 4 bytes) } else p))
        × (calls
            ≡ (if fits && unicast then save_network ∷ reply (1 ∷ []) ∷ [] else reply (0 ∷ []) ∷ []))
  unfolding app_cmd_handler set_ip ip_is_valid
  set_ip_lem bytes = ground arith
