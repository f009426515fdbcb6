-- ===== src/CanUpgrade/Frames.antt =====
-- The frames that can_fw_upgrade.c handles and sends. A handler returns the new variables and the
-- calls that it made, in order.
pub mod Version
pub mod Key
pub mod Update
pub mod Session
pub mod Counted
use iot_zephyr_app.Base.{
  ℕ, zero, suc, ◌+◌, ◌-◌, ◌*◌, ◌/◌, ◌%◌, ◌^◌, min, Bool, true, false, not, ◌&&◌, ◌||◌, Option, none,
  some, List, [], ◌∷◌, ◌++◌, bit_and, bit_or, if◌then◌else◌, ltb, leb, ◌==◌, u8, u32, length,
  get_or, take, drop, replicate,
}
use iot_zephyr_app.UdpUpgrade.Commands.{bytes_eq}
use iot_zephyr_app.CanUpgrade.{
  CanFrame, Partition, slot0, slot1, scratch, Build, CanFw, Effect, Answers, can_send, area_erase,
  img_init, img_write, img_flush, request_upgrade, hook, callback, log_process, reboot,
}

abbrev pub Outcome : Type 0
Outcome = CanFw × List Effect

-- The bytes of a key hash (FW_KEYHASH_KEY_LEN), and those in one frame.
abbrev pub key_len : ℕ
key_len = 32

abbrev pub key_chunk_bytes : ℕ
key_chunk_bytes = 7

abbrev pub key_chunks : ℕ
key_chunks = (key_len + key_chunk_bytes - 1) / key_chunk_bytes

abbrev pub full_mask : ℕ
full_mask = 2 ^ key_chunks - 1

-- `enum fw_code`.
abbrev pub code_offset : ℕ
code_offset = 0

abbrev pub code_update_success : ℕ
code_update_success = 1

abbrev pub code_version : ℕ
code_version = 2

abbrev pub code_confirm : ℕ
code_confirm = 3

abbrev pub code_flash_error : ℕ
code_flash_error = 4

abbrev pub code_transfer_error : ℕ
code_transfer_error = 5

abbrev pub code_keyhash_error : ℕ
code_keyhash_error = 6

abbrev pub call_hook : Option ℕ → List Effect
call_hook none = []
call_hook (some h) = hook h ∷ []

abbrev pub call_hooks : List ℕ → List Effect
call_hooks [] = []
call_hooks (h ∷ hs) = hook h ∷ call_hooks hs

abbrev pub call_handlers : List (Option (ℕ × ℕ)) → CanFrame → List Effect
call_handlers [] frame = []
call_handlers (none ∷ slots) frame = call_handlers slots frame
call_handlers (some (cb, u) ∷ slots) frame = callback cb u frame ∷ call_handlers slots frame

-- The loop of `fw_can_send_version_string`, with a fuel for its rounds. `off` and `seq` are bytes.
pub version_loop : ℕ → List ℕ → ℕ → ℕ → ℕ → List Effect
version_loop zero ver len off seq = []
version_loop (suc n) ver len off seq =
    let rest = version_loop n ver len (u8 (off + 7)) (u8 (seq + 1)) in
    let chunk : ℕ = min 7 (len - off) in
    if ltb off len
    then can_send 0x105 (seq ∷ (take chunk (drop off ver) ++ replicate (7 - chunk) 0)) ∷ rest
    else []

-- A round takes `off` seven further, so `len / 7 + 1` rounds are enough, as `off` does not wrap
-- for texts of less than 250 bytes.
pub send_version_string : List ℕ → ℕ → List Effect
unfolding version_loop
send_version_string ver len = version_loop (len / 7 + 1) ver len 0 0

module _ (b : Build) where
  abbrev pub word : CanFrame → ℕ → ℕ
  word frame i = b.bytes.get_le32 (drop (4 * i) frame.bytes)

  pub fw_can_reply : ℕ → ℕ → Effect
  fw_can_reply code offset = can_send 0x102 (b.bytes.put_le32 code ++ b.bytes.put_le32 offset)

  -- FW_TARGET_PARTITION_ID.
  abbrev pub target : Partition
  target = if b.boot_wait then slot0 else slot1

  -- Only with the whole key there is it compared; the mask is then cleared. The flag is a mismatch.
  unfoldable pub check_key : CanFw → CanFw × Bool
  check_key s = elim b.keyhash [
    | none ↦ (s, false)
    | some key ↦
        if bit_and s.key_chunk_mask full_mask == full_mask
        then (record s { key_chunk_mask = 0 }, not (bytes_eq (take key_len s.rx_keybuf) key))
        else (s, false)
  ]

  unfoldable pub handle_keyhash_frame : CanFw → CanFrame → CanFw
  handle_keyhash_frame s frame =
      let seq : ℕ = get_or frame.bytes 0 0 in
      -- A negative difference wraps: 1792 is a multiple of 256.
      let rem : ℕ = u8 (key_len + 1792 - seq * key_chunk_bytes) in
      let chunk : ℕ = min rem key_chunk_bytes in
      if leb key_chunks seq || ltb (u8 (b.dlc_to_bytes frame.dlc)) (1 + chunk)
      then s
      else record s {
        rx_keybuf =
            take (seq * key_chunk_bytes) s.rx_keybuf
            ++ (take chunk (drop 1 frame.bytes)
                ++ drop (seq * key_chunk_bytes + chunk) s.rx_keybuf);
        key_chunk_mask = u8 (bit_or s.key_chunk_mask (2 ^ seq));
      }

  module _ (a : Answers) where
    abbrev pub declines : Option ℕ → Bool
    declines none = false
    declines (some h) = not a.pre_start

    abbrev pub trace_start : List Effect
    trace_start = if b.boot_wait then can_send 0x108 (6 ∷ []) ∷ [] else []

    -- From `fw_total_size` on. The frames in the queue are thrown away.
    pub begin_update : CanFw → ℕ → Outcome
    unfolding fw_can_reply
    begin_update s size =
        let sized = record s { fw_total_size = size } in
        let begun = record sized { fw_img_initialized = true; fw_written = 0; rx_msgq = [] } in
        let prepare = area_erase target (b.round_up size 4096) ∷ img_init target ∷ [] in
        if not (a.area_open target)
        then (sized, fw_can_reply code_flash_error 0 ∷ [])
        else if not a.init
        then (
          record sized { fw_img_initialized = false },
          prepare ++ fw_can_reply code_flash_error 0 ∷ [],
        )
        else (begun, prepare ++ fw_can_reply code_offset 0 ∷ [])

    pub cmd_start_update : CanFw → CanFrame → Outcome
    unfolding begin_update check_key fw_can_reply
    cmd_start_update s frame =
        let (checked, mismatch) = check_key s in
        let (begun, effects) = begin_update checked (word frame 1) in
        if not (b.dlc_to_bytes frame.dlc == 8)
        then (s, fw_can_reply code_flash_error 0 ∷ [])
        else if mismatch
        then (checked, trace_start ++ fw_can_reply code_keyhash_error 0 ∷ [])
        else if declines checked.pre_start_hook
        then (
          checked,
          trace_start
              ++ (call_hook checked.pre_start_hook ++ fw_can_reply code_transfer_error 0 ∷ []),
        )
        else (begun, trace_start ++ (call_hook checked.pre_start_hook ++ effects))

    pub cmd_confirm : CanFw → CanFrame → Outcome
    unfolding fw_can_reply
    cmd_confirm s frame =
        let closed = record s { fw_img_initialized = false } in
        let permanent : ℕ = word frame 1 in
        if not s.fw_img_initialized
        then (s, fw_can_reply code_transfer_error 0 ∷ [])
        else if not (s.fw_written == s.fw_total_size)
        then (closed, img_flush ∷ fw_can_reply code_transfer_error 0 ∷ [])
        else if b.boot_wait
        then (
          record closed { confirmed = true },
          img_flush ∷ fw_can_reply code_confirm 0x55AA55AA ∷ [],
        )
        else if a.request
        then (
          closed,
          img_flush ∷ request_upgrade permanent ∷ fw_can_reply code_confirm 0x55AA55AA ∷ [],
        )
        else (
          closed,
          img_flush ∷ request_upgrade permanent ∷ fw_can_reply code_transfer_error 0 ∷ [],
        )

    pub cmd_version : CanFw → Outcome
    unfolding fw_can_reply send_version_string
    cmd_version s = (
      s,
      fw_can_reply code_version (u32 (length b.version))
          ∷ send_version_string b.version (u8 (length b.version)),
    )

    pub cmd_reboot : CanFw → Outcome
    cmd_reboot s =
        if b.boot_wait
        then (record s { confirmed = true }, [])
        else (s, log_process ∷ (call_hooks s.pre_reboot_hooks ++ reboot ∷ []))

    -- The frames of the dump from number `seq` on, `n` of them.
    pub dump_frames : ℕ → ℕ → List ℕ → List Effect
    dump_frames zero seq buf = []
    dump_frames (suc n) seq buf =
        can_send 0x109 (seq ∷ take 7 (drop (seq * 7) buf)) ∷ dump_frames n (seq + 1) buf

    pub cmd_debug_dump : CanFw → CanFrame → Outcome
    unfolding fw_can_reply dump_frames
    cmd_debug_dump s frame =
        let area : ℕ = word frame 1 / 2 ^ 24 in
        let off : ℕ = bit_and (word frame 1) 0xFFFFFF in
        let fa =
          if b.has_scratch && area == 2 then scratch else (if area == 1 then slot1 else slot0) in
        if not (a.area_open fa)
        then (s, fw_can_reply code_flash_error 0xDE01 ∷ [])
        else if ltb (a.area_size fa) (off + 56)
        then (s, fw_can_reply code_flash_error 0xDE02 ∷ [])
        else (s, dump_frames 8 0 (a.area_read fa off 56))

    pub handle_platform_rx : CanFw → CanFrame → Outcome
    handle_platform_rx s frame =
        let cmd : ℕ = word frame 0 in
        if cmd == 0
        then cmd_start_update s frame
        else if cmd == 1
        then cmd_confirm s frame
        else if cmd == 2
        then cmd_version s
        else if cmd == 3
        then cmd_reboot s
        else if b.boot_wait && cmd == 0xDE
        then cmd_debug_dump s frame
        else (s, [])

    -- `size_t` has 32 bits.
    pub handle_fw_data : CanFw → CanFrame → Outcome
    unfolding fw_can_reply
    handle_fw_data s frame =
        let size : ℕ = b.dlc_to_bytes frame.dlc in
        let payload : List ℕ = take size frame.bytes in
        let fw_written : ℕ = u32 (s.fw_written + size) in
        let grown = record s { fw_written = fw_written } in
        if not s.fw_img_initialized
        then (s, fw_can_reply code_transfer_error 0 ∷ [])
        else if not a.write
        then (s, img_write payload false ∷ fw_can_reply code_flash_error 0 ∷ [])
        else if fw_written == s.fw_total_size
        then (grown, img_write payload true ∷ fw_can_reply code_update_success s.fw_total_size ∷ [])
        else if fw_written % 64 == 0
        then (grown, img_write payload true ∷ fw_can_reply code_offset fw_written ∷ [])
        else (grown, img_write payload true ∷ [])

    pub note_activity : CanFw → CanFw
    note_activity s = if b.boot_wait then record s { last_activity_ms = a.uptime } else s

    abbrev pub has_key : Bool
    has_key = elim b.keyhash [ none ↦ false | some key ↦ true ]

    -- One round of the thread. The semaphore counts to one.
    pub rx_frame : CanFw → CanFrame → Outcome
    unfolding note_activity
    rx_frame s frame =
        let (handled, effects) =
          handle_platform_rx (record (note_activity s) { rx_busy = true }) frame in
        if frame.id == 0x101
        then (record handled { rx_busy = false }, effects)
        else if frame.id == 0x103
        then handle_fw_data (note_activity s) frame
        else if has_key && frame.id == 0x104
        then (handle_keyhash_frame (note_activity s) frame, [])
        else if b.boot_wait && frame.id == 0x107
        then (record s { boot_acks = 1 }, [])
        else (s, call_handlers s.handlers frame)
