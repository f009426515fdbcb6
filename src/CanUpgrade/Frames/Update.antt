-- ===== src/CanUpgrade/Frames/Update.antt =====
-- An update over CAN, frame by frame: what is in the image when the boot loader is asked for it.
use iot_zephyr_app.Base.{
  ℕ, zero, suc, ◌+◌, ◌%◌, ◌≤◌, ◌≡◌, refl, sym, ap, ◌∙◌, Bool, true, false, Option, none, some, List,
  [], ◌∷◌, ◌++◌, if◌then◌else◌, ltb, ◌==◌, u8, u32, length, take, Bool-cases, inl, inr,
  length-append, length-take, arith,
}
use mathlib.Core.Bool.{true≢false}
use iot_zephyr_app.CanUpgrade.{
  CanFrame, Build, CanFw, Effect, Answers, can_send, area_erase, img_init, img_write, img_flush,
  request_upgrade, hook, callback, log_process, reboot,
}
use iot_zephyr_app.CanUpgrade.Frames.{
  Outcome, call_hook, call_hooks, call_handlers, version_loop, send_version_string, word, target,
  check_key, declines, trace_start, begin_update, cmd_start_update, cmd_confirm, cmd_version,
  cmd_reboot, dump_frames, cmd_debug_dump, handle_fw_data,
}

-- The bytes in the image after some calls, if there were `done` before them.
abbrev pub image_after : List ℕ → List Effect → List ℕ
image_after done [] = done
image_after done (img_init p ∷ es) = image_after [] es
image_after done (img_write bytes true ∷ es) = image_after (done ++ bytes) es
image_after done (e ∷ es) = image_after done es

abbrev pub is_request : Effect → Bool
is_request (request_upgrade n) = true
is_request _ = false

abbrev pub requests : List Effect → List Effect
requests [] = []
requests (e ∷ es) = if is_request e then e ∷ requests es else requests es

pub image_after-append :
    (es fs : List Effect) (done : List ℕ)
    → image_after done (es ++ fs) ≡ image_after (image_after done es) fs
image_after-append [] fs done = refl
image_after-append (img_write bytes true ∷ es) fs done = image_after-append es fs (done ++ bytes)
image_after-append (img_write bytes false ∷ es) fs done = image_after-append es fs done
image_after-append (can_send a bytes ∷ es) fs done = image_after-append es fs done
image_after-append (area_erase p n ∷ es) fs done = image_after-append es fs done
image_after-append (img_init p ∷ es) fs done = image_after-append es fs []
image_after-append (img_flush ∷ es) fs done = image_after-append es fs done
image_after-append (request_upgrade n ∷ es) fs done = image_after-append es fs done
image_after-append (hook n ∷ es) fs done = image_after-append es fs done
image_after-append (callback n u f ∷ es) fs done = image_after-append es fs done
image_after-append (log_process ∷ es) fs done = image_after-append es fs done
image_after-append (reboot ∷ es) fs done = image_after-append es fs done

-- Calls that leave the image alone.
abbrev pub Quiet : List Effect → Type 0
Quiet es = (done : List ℕ) → image_after done es ≡ done

call_hook-Quiet : (h : Option ℕ) → Quiet (call_hook h)
call_hook-Quiet none done = refl
call_hook-Quiet (some h) done = refl

call_hooks-Quiet : (hs : List ℕ) → Quiet (call_hooks hs)
call_hooks-Quiet [] done = refl
call_hooks-Quiet (h ∷ hs) done = call_hooks-Quiet hs done

pub call_handlers-Quiet :
    (slots : List (Option (ℕ × ℕ))) (frame : CanFrame) → Quiet (call_handlers slots frame)
call_handlers-Quiet [] frame done = refl
call_handlers-Quiet (none ∷ slots) frame done = call_handlers-Quiet slots frame done
call_handlers-Quiet (some h ∷ slots) frame done = call_handlers-Quiet slots frame done

version_loop-Quiet :
    (n : ℕ) (ver : List ℕ) (len off seq : ℕ) → Quiet (version_loop n ver len off seq)
unfolding version_loop
version_loop-Quiet zero ver len off seq done = refl
version_loop-Quiet (suc n) ver len off seq done = elim (Bool-cases (ltb off len)) [
  | inl more ↦ rw more (version_loop-Quiet n ver len (u8 (off + 7)) (u8 (seq + 1)) done)
  | inr over ↦ rw over
]

-- While an update is open, `fw_written` is the number of bytes in the image, in 32 bits.
abbrev pub Counted : CanFw → List ℕ → Type 0
Counted s done = s.fw_img_initialized ≡ true → s.fw_written ≡ u32 (length done)

abbrev pub Keeps : List ℕ → Outcome → Type 0
Keeps done out = Counted out.0 (image_after done out.1)

-- A frame has eight bytes, and its length code stands for at most so many.
abbrev pub IsFrame : Build → CanFrame → Type 0
IsFrame b frame = (length frame.bytes ≡ 8) × (b.dlc_to_bytes frame.dlc ≤ 8)

module _ (b : Build) (a : Answers) where
  dump_frames-Quiet : (n seq : ℕ) (buf : List ℕ) → Quiet (dump_frames b a n seq buf)
  unfolding dump_frames
  dump_frames-Quiet zero seq buf done = refl
  dump_frames-Quiet (suc n) seq buf done = dump_frames-Quiet n (seq + 1) buf done

  trace_start-Quiet : Quiet (trace_start b a)
  trace_start-Quiet done = elim (Bool-cases b.boot_wait) [ inl boot ↦ rw boot | inr app ↦ rw app ]

  cmd_confirm_shuts :
      (s : CanFw) (frame : CanFrame) → (cmd_confirm b a s frame).0.fw_img_initialized ≡ false
  unfolding cmd_confirm
  cmd_confirm_shuts s frame = ground arith

  check_key_keeps :
      (s : CanFw)
      → ((check_key b s).0.fw_img_initialized ≡ s.fw_img_initialized)
        × ((check_key b s).0.fw_written ≡ s.fw_written)
  unfolding check_key
  check_key_keeps s = ground arith

  cmd_debug_dump_idle :
      (s : CanFw) (frame : CanFrame) (done : List ℕ)
      → ((cmd_debug_dump b a s frame).0 ≡ s)
        × (image_after done (cmd_debug_dump b a s frame).1 ≡ done)
  unfolding cmd_debug_dump
  cmd_debug_dump_idle s frame done = grind (arith, dump_frames-Quiet)

  begin_update-Counted :
      (s : CanFw) (size : ℕ) (done : List ℕ)
      → Counted s done
      → let (s', es) = begin_update b a s size in Counted s' (image_after done es)
  unfolding begin_update
  begin_update-Counted s size done v = elim (Bool-cases (a.area_open (target b))) [
    | inr shut ↦ simp (shut, begin_update) v
    | inl opens ↦ elim (Bool-cases a.init) [
      | inr fails ↦ simp (opens, fails, begin_update) (λ e. absurd (true≢false (sym e)))
      | inl inits ↦ simp (opens, inits, begin_update) (λ e. refl)
    ]
  ]

  module _ (s : CanFw) (frame : CanFrame) (done : List ℕ) (v : Counted s done) where
    pub handle_fw_data-Counted : IsFrame b frame → Keeps done (handle_fw_data b a s frame)
    unfolding handle_fw_data
    handle_fw_data-Counted f open_now = elim (Bool-cases s.fw_img_initialized) [
      | inr shut ↦ absurd (true≢false (sym open_now ∙ simp (shut, handle_fw_data) refl))
      | inl opened ↦ elim (Bool-cases a.write) [
        | inr fails ↦ simp (opened, fails, handle_fw_data) (v opened)
        | inl writes ↦
            elim (Bool-cases (u32 (s.fw_written + b.dlc_to_bytes frame.dlc) == s.fw_total_size)) [
              | inl all ↦ simp (opened, writes, all, handle_fw_data) (grown opened)
              | inr more ↦
                  elim (Bool-cases (u32 (s.fw_written + b.dlc_to_bytes frame.dlc) % 64 == 0)) [
                    | inl told ↦ simp (opened, writes, more, told, handle_fw_data) (grown opened)
                    | inr still ↦ simp (opened, writes, more, still, handle_fw_data) (grown opened)
                  ]
            ]
      ]
    ]
      where
        payload : List ℕ
        payload = take (b.dlc_to_bytes frame.dlc) frame.bytes

        grown :
            s.fw_img_initialized ≡ true
            → u32 (s.fw_written + b.dlc_to_bytes frame.dlc) ≡ u32 (length (done ++ payload))
        grown opened = omega (
          arith,
          v opened,
          length-append done payload,
          length-take (b.dlc_to_bytes frame.dlc) frame.bytes,
          f.0,
          f.1,
        )

    pub cmd_confirm-Counted : Keeps done (cmd_confirm b a s frame)
    cmd_confirm-Counted open_now = absurd (true≢false (sym open_now ∙ cmd_confirm_shuts s frame))

    checked : Counted (check_key b s).0 done
    checked e = (check_key_keeps s).1 ∙ v (sym (check_key_keeps s).0 ∙ e)

    pub cmd_start_update-Counted : Keeps done (cmd_start_update b a s frame)
    unfolding cmd_start_update begin_update
    cmd_start_update-Counted = elim (Bool-cases (b.dlc_to_bytes frame.dlc == 8)) [
      | inr odd ↦ simp (odd, cmd_start_update) v
      | inl sized ↦ elim (Bool-cases (check_key b s).1) [
        | inl other ↦
            simp (sized, other, cmd_start_update, image_after-append, trace_start-Quiet) checked
        | inr key ↦ elim (Bool-cases (declines b a (check_key b s).0.pre_start_hook)) [
          | inl barred ↦
              simp
                (
                  sized, key, barred, cmd_start_update, image_after-append, trace_start-Quiet,
                  call_hook-Quiet,
                )
                checked
          | inr start ↦
              simp
                (
                  sized, key, start, cmd_start_update, image_after-append, trace_start-Quiet,
                  call_hook-Quiet,
                )
                (begin_update-Counted (check_key b s).0 (word b frame 1) done checked)
        ]
      ]
    ]

    pub cmd_version-Counted : Keeps done (cmd_version b a s)
    unfolding cmd_version send_version_string
    cmd_version-Counted = rw version_loop-Quiet v

    pub cmd_reboot-Counted : Keeps done (cmd_reboot b a s)
    unfolding cmd_reboot
    cmd_reboot-Counted = elim (Bool-cases b.boot_wait) [
      | inl boot ↦ simp (boot, cmd_reboot) v
      | inr app ↦
          simp
            (
              app,
              cmd_reboot,
              image_after-append (call_hooks s.pre_reboot_hooks),
              call_hooks-Quiet s.pre_reboot_hooks,
            )
            v
    ]

    pub cmd_debug_dump-Counted : Keeps done (cmd_debug_dump b a s frame)
    cmd_debug_dump-Counted open_now =
        let (same, quiet) = cmd_debug_dump_idle s frame done in
        ap CanFw.fw_written same
        ∙ (v (sym (ap CanFw.fw_img_initialized same) ∙ open_now)
            ∙ ap (λ d. u32 (length d)) (sym quiet))
