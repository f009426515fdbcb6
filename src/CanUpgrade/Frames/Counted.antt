-- ===== src/CanUpgrade/Frames/Counted.antt =====
-- Each frame that can_fw_upgrade.c handles keeps the count of the bytes in the image.
use iot_zephyr_app.Base.{ℕ, ◌≡◌, sym, ◌∙◌, true, ◌&&◌, List, ◌==◌, Bool-cases, inl, inr, arith}
use iot_zephyr_app.CanUpgrade.{CanFrame, Build, CanFw, Answers}
use iot_zephyr_app.CanUpgrade.Frames.{
  word, handle_keyhash_frame, handle_platform_rx, note_activity, has_key, rx_frame,
}
use iot_zephyr_app.CanUpgrade.Frames.Update.{
  Counted, IsFrame, Keeps, call_handlers-Quiet, handle_fw_data-Counted, cmd_confirm-Counted,
  cmd_start_update-Counted, cmd_version-Counted, cmd_reboot-Counted, cmd_debug_dump-Counted,
}

module _ (b : Build) (a : Answers) where
  handle_platform_rx-Counted :
      (s : CanFw) (frame : CanFrame) (done : List ℕ)
      → Counted s done
      → Keeps done (handle_platform_rx b a s frame)
  unfolding handle_platform_rx
  handle_platform_rx-Counted s frame done v = elim (Bool-cases (word b frame 0 == 0)) [
    | inl start ↦ simp (start, handle_platform_rx) (cmd_start_update-Counted b a s frame done v)
    | inr no_start ↦ elim (Bool-cases (word b frame 0 == 1)) [
      | inl confirm ↦
          simp (no_start, confirm, handle_platform_rx) (cmd_confirm-Counted b a s frame done v)
      | inr no_confirm ↦ elim (Bool-cases (word b frame 0 == 2)) [
        | inl version ↦
            simp (no_start, no_confirm, version, handle_platform_rx)
              (cmd_version-Counted b a s frame done v)
        | inr no_version ↦ elim (Bool-cases (word b frame 0 == 3)) [
          | inl boot ↦
              simp (no_start, no_confirm, no_version, boot, handle_platform_rx)
                (cmd_reboot-Counted b a s frame done v)
          | inr no_boot ↦ elim (Bool-cases (b.boot_wait && word b frame 0 == 0xDE)) [
            | inl dump ↦
                simp (no_start, no_confirm, no_version, no_boot, dump, handle_platform_rx)
                  (cmd_debug_dump-Counted b a s frame done v)
            | inr other ↦
                simp (no_start, no_confirm, no_version, no_boot, other, handle_platform_rx) v
          ]
        ]
      ]
    ]
  ]

  pub note_activity_keeps :
      (s : CanFw)
      → ((note_activity b a s).fw_img_initialized ≡ s.fw_img_initialized)
        × ((note_activity b a s).fw_written ≡ s.fw_written)
        × ((note_activity b a s).fw_total_size ≡ s.fw_total_size)
  unfolding note_activity
  note_activity_keeps s = ground arith

  handle_keyhash_frame_keeps :
      (s : CanFw) (frame : CanFrame)
      → ((handle_keyhash_frame b s frame).fw_img_initialized ≡ s.fw_img_initialized)
        × ((handle_keyhash_frame b s frame).fw_written ≡ s.fw_written)
  unfolding handle_keyhash_frame
  handle_keyhash_frame_keeps s frame = ground arith

  pub rx_frame-Counted :
      (s : CanFw) (frame : CanFrame) (done : List ℕ)
      → IsFrame b frame
      → Counted s done
      → Keeps done (rx_frame b a s frame)
  unfolding rx_frame
  rx_frame-Counted s frame done f v = elim (Bool-cases (frame.id == 0x101)) [
    | inl platform ↦
        simp (platform, rx_frame)
          (handle_platform_rx-Counted (record (note_activity b a s) { rx_busy = true }) frame done
            noted)
    | inr no_platform ↦ elim (Bool-cases (frame.id == 0x103)) [
      | inl fw_data ↦
          simp (no_platform, fw_data, rx_frame)
            (handle_fw_data-Counted b a (note_activity b a s) frame done noted f)
      | inr no_data ↦ elim (Bool-cases (has_key b a && frame.id == 0x104)) [
        | inl key ↦ simp (no_platform, no_data, key, rx_frame) keyed
        | inr no_key ↦ elim (Bool-cases (b.boot_wait && frame.id == 0x107)) [
          | inl ack ↦ simp (no_platform, no_data, no_key, ack, rx_frame) v
          | inr other ↦ simp (no_platform, no_data, no_key, other, rx_frame, call_handlers-Quiet) v
        ]
      ]
    ]
  ]
    where
      noted : Counted (note_activity b a s) done
      noted e = (note_activity_keeps s).1 ∙ v (sym (note_activity_keeps s).0 ∙ e)

      keyed : Counted (handle_keyhash_frame b (note_activity b a s) frame) done
      keyed e =
          (handle_keyhash_frame_keeps (note_activity b a s) frame).1
          ∙ noted (sym (handle_keyhash_frame_keeps (note_activity b a s) frame).0 ∙ e)
