-- ===== src/UdpUpgrade/Commands/Verify.antt =====
-- The check of the image at FW_END in udp_fw_upgrade.c: the chunked CRC is that of the whole image,
-- and the boot loader is asked for the upgrade exactly if it is the one received.
use iot_zephyr_app.Base.{
  ℕ, zero, suc, ◌+◌, ◌-◌, ◌*◌, ◌/◌, ◌≤◌, ◌<◌, ◌≡◌, refl, sym, ap, ◌∙◌, Bool, ◌&&◌, not, true, false,
  some, List, [], ◌∷◌, ◌++◌, Bool-cases, inl, inr, if◌then◌else◌, ltb, leb, ◌==◌, length, take,
  drop, get_or, arith, length-drop, le→ltb_false, lt→ltb, take-append-drop, take_all, drop_all,
  drop-add, dec_lt,
}
use iot_zephyr_app.UdpUpgrade.{Build, UdpFw, Answers, request_upgrade}
use iot_zephyr_app.UdpUpgrade.Commands.{
  call_hook, udp_fw_reply, fw_session_fail, crc_loop, fw_verify_crc, cmd_end,
}
use iot_zephyr_app.UdpUpgrade.Commands.Trace.{only, is_request, is_send, is_hook, trace}

-- The reads of the slot give the bytes of `image`, and no more than it has were written.
pub record Holds (a : Answers) (image : List ℕ) : Type 0 where
  pub counted : a.bytes_written ≡ length image
  pub reads :
      (off len : ℕ)
      → off + len ≤ length image
      → a.area_read off len ≡ some (take len (drop off image))

open_cases : (o x y : Bool) → x ≡ y → (if not o then false else x) ≡ (o && y)
open_cases true x y e = e
open_cases false x y e = refl

module _ (b : Build) (a : Answers) (image : List ℕ) (h : Holds a image) where
  -- What one round reads.
  chunk_lem :
      (off : ℕ)
      → off < length image
      → let len : ℕ = if ltb (a.bytes_written - off) 64 then a.bytes_written - off else 64 in
        a.area_read off len ≡ some (take 64 (drop off image))
  chunk_lem off p = elim (dec_lt (a.bytes_written - off) 64) [
    | yes short ↦
        rw
          (
            lt→ltb (a.bytes_written - off) 64 short,
            h.reads off (a.bytes_written - off) (omega (arith, h.counted)),
          )
          (ap some (
            take_all (a.bytes_written - off) (drop off image)
              (omega (arith, length-drop off image, h.counted))
            ∙ sym (take_all 64 (drop off image) (omega (arith, length-drop off image, h.counted)))))
    | no long ↦ rw (
      le→ltb_false (a.bytes_written - off) 64 (omega arith),
      h.reads off 64 (omega (arith, h.counted)),
    )
  ]

  crc_rest :
      (off crc : ℕ)
      → b.crc.crc16_ccitt (b.crc.crc16_ccitt crc (take 64 (drop off image))) (drop (off + 64) image)
        ≡ b.crc.crc16_ccitt crc (drop off image)
  crc_rest off crc =
      sym (b.crc.crc16_ccitt-append crc (take 64 (drop off image)) (drop (off + 64) image))
      ∙ ap (b.crc.crc16_ccitt crc) (
          ap (◌++◌ (take 64 (drop off image))) (drop-add off 64 image)
          ∙ take-append-drop 64 (drop off image))

  crc_end : (off crc : ℕ) → length image ≤ off → crc ≡ b.crc.crc16_ccitt crc (drop off image)
  crc_end off crc p = rw (drop_all off image p) (sym (b.crc.crc16_ccitt-nil crc))

  -- With fuel for the blocks left, the loop ends with the CRC of all that is left.
  crc_loop_lem :
      (n off crc : ℕ)
      → length image < off + 64 * n
      → crc_loop b a n off crc ≡ some (b.crc.crc16_ccitt crc (drop off image))
  unfolding crc_loop
  crc_loop_lem zero off crc p = ap some (crc_end off crc (omega arith))
  crc_loop_lem (suc n) off crc p = elim (dec_lt off (length image)) [
    | yes more ↦
        rw (lt→ltb off a.bytes_written (omega (arith, h.counted)), crc_loop, chunk_lem off more)
          (crc_loop_lem n (off + 64) (b.crc.crc16_ccitt crc (take 64 (drop off image)))
              (omega arith)
            ∙ ap some (crc_rest off crc))
    | no over ↦
        rw (le→ltb_false off a.bytes_written (omega (arith, h.counted)), crc_loop)
          (ap some (crc_end off crc (omega arith)))
  ]

  -- Let reads of the slot give an image of as many bytes as were written. `fw_verify_crc` accepts
  -- exactly if the area opens and the CRC of the whole image is the one received.
  pub fw_verify_crc_lem :
      (recv_crc : ℕ)
      → fw_verify_crc b a recv_crc ≡ (a.area_open && (b.crc.crc16_ccitt 0 image == recv_crc))
  unfolding fw_verify_crc
  fw_verify_crc_lem recv_crc =
      open_cases a.area_open _ _
        (rw (crc_loop_lem (a.bytes_written / 64 + 1) 0 0 (omega (arith, h.counted))))

  -- Let reads of the slot give an image of as many bytes as were written. FW_END in an open
  -- session, with at least three bytes of data, ends the session. The boot loader is asked for the
  -- upgrade exactly if the area opens and the CRC of the image is the one received, permanently
  -- unless the first byte asks for a test; the reply is 1 exactly if it then agrees, and otherwise
  -- the fail hook runs.
  pub cmd_end_lem :
      (s : UdpFw) (bytes : List ℕ)
      → s.fw_started ≡ true
      → 3 ≤ length bytes
      → let (s', es) = cmd_end b a s bytes in
        let valid = a.area_open && (b.crc.crc16_ccitt 0 image == b.bytes.get_le16 (drop 1 bytes)) in
        let permanent : ℕ = if get_or bytes 0 0 == 0 then 1 else 0 in
        (s' ≡ record s { fw_started = false })
        × (only is_request es ≡ (if valid then request_upgrade permanent ∷ [] else []))
        × (only is_send es ≡ udp_fw_reply b a s' 3 ((if valid && a.request then 1 else 0) ∷ []))
        × (only is_hook es ≡ (if valid && a.request then [] else call_hook s.fail_hook))
  unfolding cmd_end fw_session_fail
  cmd_end_lem s bytes on enough =
      rw (← fw_verify_crc_lem recv) (elim (Bool-cases (fw_verify_crc b a recv)) [
        | inl ok ↦ elim (Bool-cases a.request) [
          | inl agrees ↦ simp (taken, ok, agrees, cmd_end, trace) (refl, refl, refl, refl)
          | inr refuses ↦ simp (taken, ok, refuses, cmd_end, trace) (refl, refl, refl, refl)
        ]
        | inr bad ↦ simp (taken, bad, cmd_end, trace) (refl, refl, refl, refl)
      ])
    where
      recv : ℕ
      recv = b.bytes.get_le16 (drop 1 bytes)

      taken : (s.fw_started && leb 3 (length bytes)) ≡ true
      taken = rw on (ground arith)
