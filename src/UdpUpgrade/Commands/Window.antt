-- ===== src/UdpUpgrade/Commands/Window.antt =====
-- The windowed upload of udp_fw_upgrade.c (FW_DATA_V2): whatever frames of one image arrive, in
-- whatever order and how often, flash holds a prefix of the image, of the length that is reported.
use iot_zephyr_app.Base.{
  ℕ, ◌+◌, ◌^◌, ◌≤◌, ◌<◌, ◌≡◌, refl, sym, ap, ap₂, ◌∙◌, ◌&&◌, true, false, Option, none, some, List,
  [], ◌∷◌, ◌++◌, append-nil, append_assoc, Bool-cases, inl, inr, ltb, ◌==◌, u32, length, All, take,
  drop, arith, length-take, length-drop, take-add, ==_iff, ==_self, lt→ltb, length-append,
  drop-append_self,
}
use mathlib.Core.List.{flatten}
use iot_zephyr_app.UdpUpgrade.{
  Build, UdpFw, Answers, Effect, send, erase, img_init, img_write, img_flush, request_upgrade, hook,
  callback, log_process, reboot,
}
use iot_zephyr_app.UdpUpgrade.Commands.{
  Outcome, call_hook, udp_fw_reply, fw_session_fail, write_frame, cmd_data_v2,
}

-- The bytes that reach the image through these calls.
abbrev pub written : List Effect → List ℕ
written [] = []
written (img_write bytes true ∷ es) = bytes ++ written es
written (e ∷ es) = written es

pub written-append : (es fs : List Effect) → written (es ++ fs) ≡ written es ++ written fs
written-append [] fs = refl
written-append (img_write bytes true ∷ es) fs =
    ap (◌++◌ bytes) (written-append es fs) ∙ sym (append_assoc bytes (written es) (written fs))
written-append (img_write bytes false ∷ es) fs = written-append es fs
written-append (send a bytes ∷ es) fs = written-append es fs
written-append (erase n ∷ es) fs = written-append es fs
written-append (img_init ∷ es) fs = written-append es fs
written-append (img_flush ∷ es) fs = written-append es fs
written-append (request_upgrade n ∷ es) fs = written-append es fs
written-append (hook n ∷ es) fs = written-append es fs
written-append (callback n u c bytes ∷ es) fs = written-append es fs
written-append (log_process ∷ es) fs = written-append es fs
written-append (reboot ∷ es) fs = written-append es fs

-- The first `n` bytes of the image.
abbrev pub IsPrefixOf : List ℕ → ℕ → List ℕ → Type 0
IsPrefixOf image n bytes = (n ≤ length image) × (bytes ≡ take n image)

module _ (b : Build) where
  -- A frame `[offset][bytes]` whose bytes are those of the image at the offset.
  abbrev pub IsFrameOf : List ℕ → List ℕ → Type 0
  IsFrameOf image frame =
      drop 4 frame ≡ take (length (drop 4 frame)) (drop (b.bytes.get_le32 frame) image)

  written-hook : (h : Option ℕ) → written (call_hook h) ≡ []
  written-hook none = refl
  written-hook (some h) = refl

  written-reply :
      (a : Answers) (s : UdpFw) (cmd : ℕ) (bytes : List ℕ)
      → written (udp_fw_reply b a s cmd bytes) ≡ []
  unfolding udp_fw_reply
  written-reply a s cmd bytes = ground arith

  written-then_reply :
      (a : Answers) (s : UdpFw) (cmd : ℕ) (bytes : List ℕ) (es : List Effect)
      → written (es ++ udp_fw_reply b a s cmd bytes) ≡ written es
  written-then_reply a s cmd bytes es =
      rw (written-append es (udp_fw_reply b a s cmd bytes), written-reply a s cmd bytes, append-nil)

  module _ (a : Answers) (s : UdpFw) (image done : List ℕ) (small : length image < 2 ^ 32) where
    write_frame-prefix :
        (payload : List ℕ)
        → IsPrefixOf image s.fw_received done
        → payload ≡ take (length payload) (drop s.fw_received image)
        → IsPrefixOf image
            (write_frame b a s payload).0.fw_received
            (done ++ written (write_frame b a s payload).1)
    unfolding write_frame fw_session_fail
    write_frame-prefix payload v e = elim (Bool-cases a.write) [
      | inl ok ↦
          rw (ok, write_frame)
            (
              rw grown within,
              rw (grown, append-nil, v.1)
                  (ap (◌++◌ (take s.fw_received image)) e
                    ∙ sym (take-add s.fw_received (length payload) image)),
            )
      | inr bad ↦ rw (bad, write_frame, written-hook s.fail_hook, append-nil) v
    ]
      where
        within : s.fw_received + length payload ≤ length image
        within = omega (
          arith,
          ap length e,
          length-take (length payload) (drop s.fw_received image),
          length-drop s.fw_received image,
        )

        grown : u32 (s.fw_received + length payload) ≡ s.fw_received + length payload
        grown = omega (arith, within)

    -- A frame of the image extends what is written by the bytes that come next, or by nothing.
    cmd_data_v2-prefix :
        (frame : List ℕ)
        → IsPrefixOf image s.fw_received done
        → IsFrameOf image frame
        → IsPrefixOf image
            (cmd_data_v2 b a s frame).0.fw_received
            (done ++ written (cmd_data_v2 b a s frame).1)
    unfolding cmd_data_v2
    cmd_data_v2-prefix frame v e = elim (Bool-cases (s.fw_started && ltb 4 (length frame))) [
      | inl taken ↦ elim (Bool-cases (b.bytes.get_le32 frame == s.fw_received)) [
        | inl next ↦
            let place = (==_iff (b.bytes.get_le32 frame) s.fw_received).0 next in
            let (n, bytes) =
              write_frame-prefix (drop 4 frame) v
                (e ∙ ap (λ k. take (length (drop 4 frame)) (drop k image)) place) in
            rw (taken, cmd_data_v2, next, written-then_reply) (n, bytes)
        | inr other ↦ rw (taken, cmd_data_v2, other, written-then_reply, append-nil) v
      ]
      | inr refused ↦ rw (refused, cmd_data_v2, written-reply, append-nil) v
    ]

  -- Frames handled one after the other, each with what the calls in it return.
  pub upload : UdpFw → List (Answers × List ℕ) → Outcome
  upload s [] = (s, [])
  upload s ((a, frame) ∷ rest) =
      let (s', es) = cmd_data_v2 b a s frame in let (s'', fs) = upload s' rest in (s'', es ++ fs)

  -- Let every frame hold the bytes of one image of less than 2 ^ 32 bytes at the offset that it
  -- names. Then, in whatever order the frames arrive, however often, and whichever are lost or fail
  -- to be written, the bytes written so far are the first `fw_received` bytes of the image, if they
  -- were at the start.
  pub upload-prefix :
      (image : List ℕ) (frames : List (Answers × List ℕ)) (s : UdpFw) (done : List ℕ)
      → length image < 2 ^ 32
      → All (λ f. IsFrameOf image f.1) frames
      → IsPrefixOf image s.fw_received done
      → let (s', es) = upload s frames in IsPrefixOf image s'.fw_received (done ++ written es)
  unfolding upload
  upload-prefix image [] s done small fit v = rw append-nil v
  upload-prefix image ((a, frame) ∷ rest) s done small fit v =
      let (s', es) = cmd_data_v2 b a s frame in
      let ih =
        upload-prefix image rest s' (done ++ written es) small fit.1
          (cmd_data_v2-prefix a s image done small frame v fit.0) in
      rw (written-append es (upload s' rest).1, ← append_assoc done (written es)) ih

module _ (b : Build) (a : Answers) (writes : a.write ≡ true) where
  -- The frames that a host cuts `payloads` into, from offset `k` on.
  abbrev pub frames_of : ℕ → List (List ℕ) → List (Answers × List ℕ)
  frames_of k [] = []
  frames_of k (p ∷ ps) = (a, b.bytes.put_le32 k ++ p) ∷ frames_of (k + length p) ps

  write_frame_ok :
      (s : UdpFw) (p : List ℕ)
      → write_frame b a s p
        ≡ (record s { fw_received = u32 (s.fw_received + length p) }, img_write p true ∷ [])
  unfolding write_frame
  write_frame_ok s p = rw writes

  next_frame :
      (s : UdpFw) (k : ℕ) (p : List ℕ)
      → s.fw_started ≡ true
      → s.fw_received ≡ k
      → 0 < length p
      → k + length p < 2 ^ 32
      → let (s', es) = cmd_data_v2 b a s (b.bytes.put_le32 k ++ p) in
        (s'.fw_started ≡ true) × (s'.fw_received ≡ k + length p) × (written es ≡ p)
  unfolding cmd_data_v2
  next_frame s k p on at some_bytes small =
      rw (taken, cmd_data_v2, next, payload, written-then_reply, write_frame_ok s p)
        (on, omega arith, append-nil p)
    where
      frame : List ℕ
      frame = b.bytes.put_le32 k ++ p

      taken : (s.fw_started && ltb 4 (length frame)) ≡ true
      taken = rw on (
          lt→ltb 4 (length frame)
            (omega (arith, length-append (b.bytes.put_le32 k) p, b.bytes.length-put_le32 k)))

      next : (b.bytes.get_le32 frame == s.fw_received) ≡ true
      next = rw (at, b.bytes.get-put_le32 k p (omega arith)) (==_self k)

      payload : drop 4 frame ≡ p
      payload = drop-append_self (b.bytes.put_le32 k) p 4 (sym (b.bytes.length-put_le32 k))

  -- In an open session, let frames that are not empty follow one another from the offset that is
  -- expected, be written, and end below 2 ^ 32. Then they all count: `fw_received` has grown by the
  -- number of their bytes, the session is still open, and the bytes written are the payloads in
  -- order.
  pub upload_complete :
      (payloads : List (List ℕ)) (s : UdpFw) (k : ℕ)
      → s.fw_started ≡ true
      → s.fw_received ≡ k
      → All (λ p. 0 < length p) payloads
      → k + length (flatten payloads) < 2 ^ 32
      → let (s', es) = upload b s (frames_of k payloads) in
        (s'.fw_started ≡ true)
        × (s'.fw_received ≡ k + length (flatten payloads))
        × (written es ≡ flatten payloads)
  unfolding upload flatten
  upload_complete [] s k on at full small = (on, omega arith, refl)
  upload_complete (p ∷ ps) s k on at full small =
      let (s', es) = cmd_data_v2 b a s (b.bytes.put_le32 k ++ p) in
      let total = length-append p (flatten ps) in
      let (on', at', here) = next_frame s k p on at full.0 (omega arith) in
      let (on'', at'', later) = upload_complete ps s' (k + length p) on' at' full.1 (omega arith) in
      (
        on'',
        omega arith,
        written-append es (upload b s' (frames_of (k + length p) ps)).1 ∙ ap₂ ◌++◌ here later,
      )
