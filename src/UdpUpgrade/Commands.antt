-- ===== src/UdpUpgrade/Commands.antt =====
-- The replies and the firmware commands of udp_fw_upgrade.c. A handler returns the new state, the
-- calls that it made, in order, and for `handle_fw_cmd` whether the command was one of its own.
pub mod Window
pub mod Verify
pub mod Guards
pub mod Replies
pub mod Trace
use iot_zephyr_app.Base.{
  ℕ, zero, suc, ◌+◌, ◌-◌, ◌/◌, Bool, true, false, not, ◌&&◌, Option, none, some, List, [], ◌∷◌,
  ◌++◌, bit_and, if◌then◌else◌, ltb, leb, ◌==◌, u16, u32, length, get_or, take, drop,
}
use iot_zephyr_app.UdpUpgrade.{
  Addr, Build, UdpFw, Answers, Effect, send, erase, img_init, img_write, img_flush, request_upgrade,
  hook, log_process, reboot,
}

abbrev pub Outcome : Type 0
Outcome = UdpFw × List Effect

-- Whether two buffers of one length hold the same bytes (memcmp).
unfoldable pub bytes_eq : List ℕ → List ℕ → Bool
bytes_eq [] [] = true
bytes_eq [] (y ∷ ys) = false
bytes_eq (x ∷ xs) [] = false
bytes_eq (x ∷ xs) (y ∷ ys) = x == y && bytes_eq xs ys

unfoldable pub is_same_subnet : Option (Option (ℕ × ℕ)) → ℕ → Bool
is_same_subnet none sender = true
is_same_subnet (some none) sender = true
is_same_subnet (some (some (local, mask))) sender = bit_and sender mask == bit_and local mask

abbrev pub broadcast : ℕ
broadcast = 0xFFFFFFFF

-- `if (hook) hook()`.
abbrev pub call_hook : Option ℕ → List Effect
call_hook none = []
call_hook (some h) = hook h ∷ []

abbrev pub call_hooks : List ℕ → List Effect
call_hooks [] = []
call_hooks (h ∷ hs) = hook h ∷ call_hooks hs

-- Whether the pre_start hook is there and declines.
abbrev pub declines : Option ℕ → Answers → Bool
declines none a = false
declines (some h) a = not a.pre_start

pub fw_session_fail : UdpFw → Outcome
fw_session_fail s = (record s { fw_started = false }, call_hook s.fail_hook)

module _ (b : Build) (a : Answers) where
  pub udp_fw_reply : UdpFw → ℕ → List ℕ → List Effect
  unfolding is_same_subnet
  udp_fw_reply s cmd bytes = elim s.config_sock [
    | none ↦ []
    | some sock ↦
        let payload : List ℕ =
          if ltb 0 (length bytes) && leb (length bytes) 63 then cmd ∷ bytes else cmd ∷ [] in
        let to : Addr =
          if is_same_subnet a.iface s.config_remote_addr.ip
          then s.config_remote_addr
          else record { ip = broadcast; port = u16 (b.port + 1) } in
        send to payload ∷ []
  ]

  start_reply : ℕ → List ℕ
  start_reply status = status ∷ bit_and b.chunk 0xff ∷ bit_and (b.chunk / 256) 0xff ∷ []

  pub key_mismatch : List ℕ → Bool
  unfolding bytes_eq
  key_mismatch bytes = elim b.keyhash [
    | none ↦ false
    | some key ↦
        length bytes == 4 + length key && not (bytes_eq (take (length key) (drop 4 bytes)) key)
  ]

  -- From the opening of the flash area on; the number is the status of the reply.
  pub begin_session : UdpFw → UdpFw × List Effect × ℕ
  unfolding fw_session_fail
  begin_session s =
      let (failed, told) = fw_session_fail s in
      if not a.area_open
      then (failed, told, 0)
      else if not a.init
      then (failed, erase (b.round_up s.fw_size 4096) ∷ img_init ∷ told, 0)
      else (
        record s { fw_started = true; fw_received = 0 },
        erase (b.round_up s.fw_size 4096) ∷ img_init ∷ [],
        1,
      )

  pub cmd_start : UdpFw → List ℕ → Outcome
  unfolding begin_session start_reply
  cmd_start s bytes =
      if not s.fw_started && leb 4 (length bytes)
      then (let sized = record s { fw_size = b.bytes.get_le32 bytes } in
          if key_mismatch bytes
          then (sized, udp_fw_reply sized 1 (start_reply 2))
          else if declines s.pre_start_hook a
          then (sized, call_hook s.pre_start_hook ++ udp_fw_reply sized 1 (start_reply 0))
          else let (next, effects, status) = begin_session sized in
            (
              next,
              call_hook s.pre_start_hook ++ effects ++ udp_fw_reply next 1 (start_reply status),
            ))
      else (s, udp_fw_reply s 1 (start_reply 0))

  abbrev pub no_offset : List ℕ
  no_offset = 0 ∷ 0 ∷ 0 ∷ 0 ∷ []

  pub cmd_data : UdpFw → List ℕ → Outcome
  unfolding fw_session_fail
  cmd_data s bytes =
      if s.fw_started && ltb 0 (length bytes)
      then (let received = record s { fw_received = u32 (s.fw_received + length bytes) } in
          let (failed, told) = fw_session_fail s in
          if a.write
          then (
            received,
            img_write bytes true ∷ udp_fw_reply received 2 (b.bytes.put_le32 received.fw_received),
          )
          else (failed, (img_write bytes false ∷ told) ++ udp_fw_reply failed 2 no_offset))
      else (s, udp_fw_reply s 2 no_offset)

  -- The write of a frame whose offset is the one that is expected.
  pub write_frame : UdpFw → List ℕ → Outcome
  unfolding fw_session_fail
  write_frame s payload =
      let (failed, told) = fw_session_fail s in
      if a.write
      then (
        record s { fw_received = u32 (s.fw_received + length payload) },
        img_write payload true ∷ [],
      )
      else (failed, img_write payload false ∷ told)

  pub cmd_data_v2 : UdpFw → List ℕ → Outcome
  unfolding write_frame
  cmd_data_v2 s bytes =
      if s.fw_started && ltb 4 (length bytes)
      then (let (next, effects) =
            if b.bytes.get_le32 bytes == s.fw_received
            then write_frame s (drop 4 bytes)
            else (s, []) in
          (next, effects ++ udp_fw_reply next 6 (b.bytes.put_le32 next.fw_received)))
      else (s, udp_fw_reply s 6 no_offset)

  -- The `for` loop of `fw_verify_crc`, with a fuel for its rounds: `none` if a read fails.
  pub crc_loop : ℕ → ℕ → ℕ → Option ℕ
  crc_loop zero off calc_crc = some calc_crc
  crc_loop (suc n) off calc_crc = elim (ltb off a.bytes_written) [
    | false ↦ some calc_crc
    | true ↦
        let len : ℕ = if ltb (a.bytes_written - off) 64 then a.bytes_written - off else 64 in
        elim (a.area_read off len) [
          | none ↦ none
          | some chunk ↦ crc_loop n (off + 64) (b.crc.crc16_ccitt calc_crc chunk)
        ]
  ]

  -- A round takes the offset 64 further, so `written / 64 + 1` rounds are enough.
  pub fw_verify_crc : ℕ → Bool
  fw_verify_crc recv_crc =
      if not a.area_open then false else elim (crc_loop (a.bytes_written / 64 + 1) 0 0) [
        | none ↦ false
        | some calc_crc ↦ calc_crc == recv_crc
      ]

  pub cmd_end : UdpFw → List ℕ → Outcome
  unfolding fw_session_fail
  cmd_end s bytes =
      if s.fw_started && leb 3 (length bytes)
      then (let (failed, told) = fw_session_fail s in
          let permanent : ℕ = if get_or bytes 0 0 == 0 then 1 else 0 in
          let done = record s { fw_started = false } in
          if fw_verify_crc (b.bytes.get_le16 (drop 1 bytes))
          then if a.request
            then (done, img_flush ∷ request_upgrade permanent ∷ udp_fw_reply done 3 (1 ∷ []))
            else (
              failed,
              (img_flush ∷ request_upgrade permanent ∷ told) ++ udp_fw_reply failed 3 (0 ∷ []),
            )
          else (failed, (img_flush ∷ told) ++ udp_fw_reply failed 3 (0 ∷ [])))
      else (s, udp_fw_reply s 3 (0 ∷ []))

  pub cmd_get_version : UdpFw → Outcome
  cmd_get_version s = (s, udp_fw_reply s 4 b.version)

  pub cmd_reboot : UdpFw → Outcome
  cmd_reboot s =
      (s, udp_fw_reply s 5 (1 ∷ []) ++ (log_process ∷ call_hooks s.pre_reboot_hooks) ++ reboot ∷ [])

  -- The `switch`: `none` is its `default`.
  unfoldable pub handle_fw_cmd : UdpFw → ℕ → List ℕ → Option Outcome
  handle_fw_cmd s cmd bytes =
      if cmd == 1
      then some (cmd_start s bytes)
      else if cmd == 2
      then some (cmd_data s bytes)
      else if cmd == 6
      then some (cmd_data_v2 s bytes)
      else if cmd == 3
      then some (cmd_end s bytes)
      else if cmd == 4
      then some (cmd_get_version s)
      else if cmd == 5
      then some (cmd_reboot s)
      else none
