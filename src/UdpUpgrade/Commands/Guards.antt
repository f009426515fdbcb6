-- ===== src/UdpUpgrade/Commands/Guards.antt =====
-- What guards the image slot in udp_fw_upgrade.c: FW_START on every branch, and what the other
-- commands may do without a session.
use iot_zephyr_app.Base.{
  ℕ, ◌≡◌, ◌≢◌, refl, Bool, false, not, ◌&&◌, ◌||◌, some, List, [], ◌∷◌, Bool-cases, inl, inr,
  if◌then◌else◌, leb, length, arith,
}
use iot_zephyr_app.UdpUpgrade.{Build, UdpFw, Answers, erase, img_init}
use iot_zephyr_app.UdpUpgrade.Commands.{
  Outcome, declines, fw_session_fail, key_mismatch, begin_session, cmd_start, cmd_data, cmd_data_v2,
  cmd_end, cmd_get_version, cmd_reboot, handle_fw_cmd, call_hooks,
}
use iot_zephyr_app.UdpUpgrade.Commands.Trace.{only, is_flash, trace}

only-call_hooks : (hs : List ℕ) → only is_flash (call_hooks hs) ≡ []
only-call_hooks [] = refl
only-call_hooks (h ∷ hs) = only-call_hooks hs

module _ (b : Build) (a : Answers) (s : UdpFw) (bytes : List ℕ) where
  -- What FW_START asks for before it opens the area.
  abbrev pub admitted : Bool
  admitted =
      not s.fw_started
      && (leb 4 (length bytes)
          && (not (key_mismatch b a bytes) && not (declines s.pre_start_hook a)))

  -- FW_START erases the slot exactly if no session is open, the size is there, the key hash fits
  -- (or is not sent), the pre_start hook agrees and the area opens; it erases the size rounded up,
  -- and nothing else in flash is written. A session is open afterwards exactly if one was, or all
  -- this holds and the image context is initialised.
  pub cmd_start_lem :
      let (s', es) = cmd_start b a s bytes in
      (only is_flash es ≡ (
        if admitted && a.area_open
        then erase (b.round_up (b.bytes.get_le32 bytes) 4096) ∷ img_init ∷ []
        else []))
      × (s'.fw_started ≡ (s.fw_started || (admitted && (a.area_open && a.init))))
  unfolding cmd_start begin_session fw_session_fail
  cmd_start_lem = elim (Bool-cases s.fw_started) [
    | inl open_before ↦ simp (open_before, cmd_start, trace) (refl, refl)
    | inr idle ↦ elim (Bool-cases (leb 4 (length bytes))) [
      | inr short ↦ simp (idle, short, cmd_start, trace) (refl, refl)
      | inl sized ↦ elim (Bool-cases (key_mismatch b a bytes)) [
        | inl other_key ↦ simp (idle, sized, other_key, cmd_start, trace) (refl, refl)
        | inr key ↦ elim (Bool-cases (declines s.pre_start_hook a)) [
          | inl no_start ↦ simp (idle, sized, key, no_start, cmd_start, trace) (refl, refl)
          | inr start ↦ elim (Bool-cases a.area_open) [
            | inr shut ↦ simp (idle, sized, key, start, shut, cmd_start, trace) (refl, refl)
            | inl opens ↦ elim (Bool-cases a.init) [
              | inl inits ↦
                  simp (idle, sized, key, start, opens, inits, cmd_start, trace) (refl, refl)
              | inr fails ↦
                  simp (idle, sized, key, start, opens, fails, cmd_start, trace) (refl, refl)
            ]
          ]
        ]
      ]
    ]
  ]

-- A command that leaves the variables and flash alone.
abbrev Leaves : UdpFw → Outcome → Type 0
Leaves s out = (out.0 ≡ s) × (only is_flash out.1 ≡ [])

module _ (b : Build) (a : Answers) (s : UdpFw) where
  cmd_get_version-Leaves : Leaves s (cmd_get_version b a s)
  unfolding cmd_get_version
  cmd_get_version-Leaves = simp trace (refl, refl)

  cmd_reboot-Leaves : Leaves s (cmd_reboot b a s)
  unfolding cmd_reboot
  cmd_reboot-Leaves = simp (only-call_hooks, trace) (refl, refl)

module _ (b : Build) (a : Answers) (s : UdpFw) (bytes : List ℕ) (idle : s.fw_started ≡ false) where
  cmd_data_idle : Leaves s (cmd_data b a s bytes)
  unfolding cmd_data
  cmd_data_idle = simp (idle, cmd_data, trace) (refl, refl)

  cmd_data_v2_idle : Leaves s (cmd_data_v2 b a s bytes)
  unfolding cmd_data_v2
  cmd_data_v2_idle = simp (idle, cmd_data_v2, trace) (refl, refl)

  cmd_end_idle : Leaves s (cmd_end b a s bytes)
  unfolding cmd_end
  cmd_end_idle = simp (idle, cmd_end, trace) (refl, refl)

  -- With no session open, no command but FW_START touches flash or changes a variable.
  pub handle_fw_cmd_idle :
      (cmd : ℕ) (out : Outcome)
      → cmd ≢ 1
      → handle_fw_cmd b a s cmd bytes ≡ some out
      → (out.0 ≡ s) × (only is_flash out.1 ≡ [])
  unfolding handle_fw_cmd
  handle_fw_cmd_idle cmd out other e = ground (
    arith,
    cmd_data_idle,
    cmd_data_v2_idle,
    cmd_end_idle,
    cmd_get_version-Leaves b a s,
    cmd_reboot-Leaves b a s,
  )
