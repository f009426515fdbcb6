-- ===== src/CanUpgrade/Frames/Session.antt =====
-- Whole sessions of can_fw_upgrade.c: any sequence of frames, and the update that goes through.
use mathlib.Core.List.{flatten}
use mathlib.Core.Bool.{true≢false}
use iot_zephyr_app.Base.{
  ℕ, ◌+◌, ◌%◌, ◌^◌, ◌<◌, ◌≡◌, refl, sym, ap, ◌∙◌, true, false, ◌&&◌, List, [], ◌∷◌, ◌++◌, map,
  append-nil, append_assoc, if◌then◌else◌, ◌==◌, ==_self, u32, length, take, Bool-cases, inl, inr,
  All, arith,
}
use iot_zephyr_app.CanUpgrade.{CanFrame, Build, CanFw, Answers, request_upgrade}
use iot_zephyr_app.CanUpgrade.Frames.{
  Outcome, word, cmd_confirm, handle_platform_rx, handle_fw_data, note_activity, rx_frame,
}
use iot_zephyr_app.CanUpgrade.Frames.Update.{
  image_after, image_after-append, requests, Counted, IsFrame, Keeps,
}
use iot_zephyr_app.CanUpgrade.Frames.Counted.{note_activity_keeps, rx_frame-Counted}

module _ (b : Build) where
  -- Frames handled one after the other, each with what the calls in it return.
  pub rx_run : CanFw → List (Answers × CanFrame) → Outcome
  rx_run s [] = (s, [])
  rx_run s ((a, frame) ∷ rest) =
      let (s', es) = rx_frame b a s frame in let (s'', fs) = rx_run s' rest in (s'', es ++ fs)

  rx_run-Counted :
      (frames : List (Answers × CanFrame)) (s : CanFw) (done : List ℕ)
      → All (λ f. IsFrame b f.1) frames
      → Counted s done
      → Keeps done (rx_run s frames)
  unfolding rx_run
  rx_run-Counted [] s done fit v = v
  rx_run-Counted ((a, frame) ∷ rest) s done fit v =
      let (s', es) = rx_frame b a s frame in
      rw (image_after-append es (rx_run s' rest).1 done) (
        rx_run-Counted rest s' (image_after done es) fit.1
          (rx_frame-Counted b a s frame done fit.0 v))

  module _ (a : Answers) (s : CanFw) (frame : CanFrame) (app : b.boot_wait ≡ false) where
    -- What CONFIRM asks of the boot loader, and what it answers, in an application.
    confirm_lem :
        word b frame 0 ≡ 1
        → frame.id ≡ 0x101
        → let complete = s.fw_img_initialized && s.fw_written == s.fw_total_size in
          (requests (rx_frame b a s frame).1
            ≡ (if complete then request_upgrade (word b frame 1) ∷ [] else []))
          × ((rx_frame b a s frame).0.fw_img_initialized ≡ false)
    unfolding rx_frame handle_platform_rx cmd_confirm note_activity
    confirm_lem cmd id = elim (Bool-cases s.fw_img_initialized) [
      | inr shut ↦
          simp (id, cmd, app, shut, rx_frame, handle_platform_rx, cmd_confirm, note_activity)
            (refl, refl)
      | inl opened ↦ elim (Bool-cases (s.fw_written == s.fw_total_size)) [
        | inr cut ↦
            simp
              (id, cmd, app, opened, cut, rx_frame, handle_platform_rx, cmd_confirm, note_activity)
              (refl, refl)
        | inl whole ↦ elim (Bool-cases a.request) [
          | inl agrees ↦
              simp
                (
                  id, cmd, app, opened, whole, agrees, rx_frame, handle_platform_rx, cmd_confirm,
                  note_activity,
                )
                (refl, refl)
          | inr refuses ↦
              simp
                (
                  id, cmd, app, opened, whole, refuses, rx_frame, handle_platform_rx, cmd_confirm,
                  note_activity,
                )
                (refl, refl)
        ]
      ]
    ]

  -- Let any frames arrive in an application that has no update open. A CONFIRM after them asks the
  -- boot loader for the upgrade exactly if an update is open and the bytes written since it began
  -- are as many as START announced (in 32 bits), and it closes the update.
  pub rx_run-confirm :
      (frames : List (Answers × CanFrame)) (s : CanFw) (a : Answers) (frame : CanFrame)
      → b.boot_wait ≡ false
      → s.fw_img_initialized ≡ false
      → All (λ f. IsFrame b f.1) frames
      → word b frame 0 ≡ 1
      → frame.id ≡ 0x101
      → let (s', es) = rx_run s frames in
        let complete =
          s'.fw_img_initialized && u32 (length (image_after [] es)) == s'.fw_total_size in
        let (s'', fs) = rx_frame b a s' frame in
        (requests fs ≡ (if complete then request_upgrade (word b frame 1) ∷ [] else []))
        × (s''.fw_img_initialized ≡ false)
  rx_run-confirm frames s a frame app shut fit cmd id =
      let (s', es) = rx_run s frames in
      let (asked, closed) = confirm_lem a s' frame app cmd id in
      let v = rx_run-Counted frames s [] fit (λ e. absurd (true≢false (sym e ∙ shut))) in
      (
        asked
            ∙ ap (λ t. if t then request_upgrade (word b frame 1) ∷ [] else [])
                (elim (Bool-cases s'.fw_img_initialized) [
                  | inl opened ↦ ap (λ n. s'.fw_img_initialized && n == s'.fw_total_size) (v opened)
                  | inr none_open ↦ rw none_open
                ]),
        closed,
      )

  -- A data frame that is written.
  abbrev pub IsData : Answers × CanFrame → Type 0
  IsData f = (f.0.write ≡ true) × (f.1.id ≡ 0x103) × IsFrame b f.1

  abbrev pub payload : Answers × CanFrame → List ℕ
  payload f = take (b.dlc_to_bytes f.1.dlc) f.1.bytes

  abbrev Appends : Answers → CanFw → CanFrame → Outcome → Type 0
  Appends a s frame out =
      (out.0.fw_img_initialized ≡ true)
      × (out.0.fw_total_size ≡ s.fw_total_size)
      × ((done : List ℕ) → image_after done out.1 ≡ done ++ payload (a, frame))

  fw_data-Appends :
      (a : Answers) (s : CanFw) (frame : CanFrame)
      → a.write ≡ true
      → s.fw_img_initialized ≡ true
      → Appends a s frame (handle_fw_data b a s frame)
  unfolding handle_fw_data
  fw_data-Appends a s frame writes opened =
      elim (Bool-cases (u32 (s.fw_written + b.dlc_to_bytes frame.dlc) == s.fw_total_size)) [
        | inl all ↦ simp (opened, writes, all, handle_fw_data) (refl, refl, λ done. refl)
        | inr more ↦ elim (Bool-cases (u32 (s.fw_written + b.dlc_to_bytes frame.dlc) % 64 == 0)) [
          | inl told ↦ simp (opened, writes, more, told, handle_fw_data) (refl, refl, λ done. refl)
          | inr still ↦
              simp (opened, writes, more, still, handle_fw_data) (refl, refl, λ done. refl)
        ]
      ]

  rx_data :
      (a : Answers) (s : CanFw) (frame : CanFrame)
      → frame.id ≡ 0x103
      → rx_frame b a s frame ≡ handle_fw_data b a (note_activity b a s) frame
  unfolding rx_frame
  rx_data a s frame id = simp (id, rx_frame)

  data_lem :
      (a : Answers) (s : CanFw) (frame : CanFrame)
      → IsData (a, frame)
      → s.fw_img_initialized ≡ true
      → Appends a s frame (rx_frame b a s frame)
  data_lem a s frame f opened =
      let keeps = note_activity_keeps b a s in
      let (opened', total, grows) =
        fw_data-Appends a (note_activity b a s) frame f.0 (keeps.0 ∙ opened) in
      rw (rx_data a s frame f.1) (opened', total ∙ keeps.2, grows)

  data_run :
      (frames : List (Answers × CanFrame)) (s : CanFw) (done : List ℕ)
      → All IsData frames
      → s.fw_img_initialized ≡ true
      → let (s', es) = rx_run s frames in
        (s'.fw_img_initialized ≡ true)
        × (s'.fw_total_size ≡ s.fw_total_size)
        × (image_after done es ≡ done ++ flatten (map payload frames))
  unfolding rx_run flatten
  data_run [] s done f opened = (opened, refl, sym (append-nil done))
  data_run ((a, frame) ∷ rest) s done f opened =
      let (s', es) = rx_frame b a s frame in
      let (opened', total', here) = data_lem a s frame f.0 opened in
      let (opened'', total'', later) = data_run rest s' (image_after done es) f.1 opened' in
      (
        opened'',
        total'' ∙ total',
        image_after-append es (rx_run s' rest).1 done
            ∙ (later
                ∙ (ap (λ d. d ++ flatten (map payload rest)) (here done)
                    ∙ append_assoc done (payload (a, frame)) (flatten (map payload rest)))),
      )

  -- Let an update be open in an application, with nothing written, and data frames of as many bytes
  -- as START announced (below 2 ^ 32) arrive and be written. Then the image has those bytes in
  -- their order, and a CONFIRM makes the application ask the boot loader for the upgrade.
  pub rx_run-update :
      (frames : List (Answers × CanFrame)) (s : CanFw) (a : Answers) (frame : CanFrame)
      → b.boot_wait ≡ false
      → s.fw_img_initialized ≡ true
      → s.fw_written ≡ 0
      → s.fw_total_size ≡ length (flatten (map payload frames))
      → s.fw_total_size < 2 ^ 32
      → All IsData frames
      → word b frame 0 ≡ 1
      → frame.id ≡ 0x101
      → let (s', es) = rx_run s frames in
        (image_after [] es ≡ flatten (map payload frames))
        × (requests (rx_frame b a s' frame).1 ≡ request_upgrade (word b frame 1) ∷ [])
  rx_run-update frames s a frame app opened none_yet total small f cmd id =
      let (s', es) = rx_run s frames in
      let (opened', total', image) = data_run frames s [] f opened in
      let counted = rx_run-Counted frames s [] (all_frames frames f) (λ e. none_yet) opened' in
      let whole : s'.fw_written ≡ s'.fw_total_size =
        counted
        ∙ (ap (λ d. u32 (length d)) image ∙ (omega (arith, total) ∙ sym (total' ∙ total))) in
      let (asked, closed) = confirm_lem a s' frame app cmd id in
      let complete : (s'.fw_img_initialized && s'.fw_written == s'.fw_total_size) ≡ true =
        rw (opened', whole) (==_self s'.fw_total_size) in
      (image, asked ∙ ap (λ t. if t then request_upgrade (word b frame 1) ∷ [] else []) complete)
    where
      all_frames :
          (frames : List (Answers × CanFrame)) → All IsData frames → All (λ f. IsFrame b f.1) frames
      all_frames [] f = tt
      all_frames (x ∷ xs) f = (f.0.2, all_frames xs f.1)
