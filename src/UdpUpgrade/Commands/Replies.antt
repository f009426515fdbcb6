-- ===== src/UdpUpgrade/Commands/Replies.antt =====
-- The replies of udp_fw_upgrade.c: each firmware command is answered exactly once.
use iot_zephyr_app.Base.{
  ℕ, ◌≡◌, refl, sym, subst₂, ℕ_discrete, not, ◌&&◌, some, List, [], ◌∷◌, Bool-cases, inl, inr,
  if◌then◌else◌, leb, ltb, ◌==◌, ◌+◌, u16, u32, length, drop, arith,
}
use iot_zephyr_app.UdpUpgrade.{Addr, Build, UdpFw, Answers, send}
use iot_zephyr_app.UdpUpgrade.Commands.{
  Outcome, broadcast, is_same_subnet, call_hooks, declines, udp_fw_reply, fw_session_fail,
  key_mismatch, start_reply, begin_session, cmd_start, cmd_data, write_frame, cmd_data_v2,
  fw_verify_crc, cmd_end, cmd_get_version, cmd_reboot, handle_fw_cmd, no_offset,
}
use iot_zephyr_app.UdpUpgrade.Commands.Trace.{only, is_send, trace}

only-call_hooks_send : (hs : List ℕ) → only is_send (call_hooks hs) ≡ []
only-call_hooks_send [] = refl
only-call_hooks_send (h ∷ hs) = only-call_hooks_send hs

module _ (b : Build) (a : Answers) (s : UdpFw) where
  -- What is sent is one reply with the command's code, and the address to answer stays.
  abbrev pub Says : ℕ → List ℕ → Outcome → Type 0
  Says cmd payload out =
      (only is_send out.1 ≡ udp_fw_reply b a out.0 cmd payload)
      × (out.0.config_remote_addr ≡ s.config_remote_addr)
      × (out.0.config_sock ≡ s.config_sock)

  abbrev pub AnswersOnce : ℕ → Outcome → Type 0
  AnswersOnce cmd out = (payload : List ℕ) × Says cmd payload out

  cmd_start_answers : (bytes : List ℕ) → AnswersOnce 1 (cmd_start b a s bytes)
  unfolding cmd_start begin_session fw_session_fail
  cmd_start_answers bytes = elim (Bool-cases (not s.fw_started && leb 4 (length bytes))) [
    | inr refused ↦ (start_reply b a 0, simp (refused, cmd_start, trace) (refl, refl, refl))
    | inl taken ↦ elim (Bool-cases (key_mismatch b a bytes)) [
      | inl other ↦ (start_reply b a 2, simp (taken, other, cmd_start, trace) (refl, refl, refl))
      | inr key ↦ elim (Bool-cases (declines s.pre_start_hook a)) [
        | inl no_start ↦
            (start_reply b a 0, simp (taken, key, no_start, cmd_start, trace) (refl, refl, refl))
        | inr start ↦ elim (Bool-cases a.area_open) [
          | inr shut ↦ (
            start_reply b a 0,
            simp (taken, key, start, shut, cmd_start, trace) (refl, refl, refl),
          )
          | inl opens ↦ elim (Bool-cases a.init) [
            | inl inits ↦ (
              start_reply b a 1,
              simp (taken, key, start, opens, inits, cmd_start, trace) (refl, refl, refl),
            )
            | inr fails ↦ (
              start_reply b a 0,
              simp (taken, key, start, opens, fails, cmd_start, trace) (refl, refl, refl),
            )
          ]
        ]
      ]
    ]
  ]

  cmd_data_answers : (bytes : List ℕ) → AnswersOnce 2 (cmd_data b a s bytes)
  unfolding cmd_data fw_session_fail
  cmd_data_answers bytes = elim (Bool-cases (s.fw_started && ltb 0 (length bytes))) [
    | inr refused ↦ (no_offset b a, simp (refused, cmd_data, trace) (refl, refl, refl))
    | inl taken ↦ elim (Bool-cases a.write) [
      | inl writes ↦ (
        b.bytes.put_le32 (u32 (s.fw_received + length bytes)),
        simp (taken, writes, cmd_data, trace) (refl, refl, refl),
      )
      | inr fails ↦ (no_offset b a, simp (taken, fails, cmd_data, trace) (refl, refl, refl))
    ]
  ]

  write_frame_quiet :
      (payload : List ℕ)
      → let (s', es) = write_frame b a s payload in
        (only is_send es ≡ [])
        × (s'.config_remote_addr ≡ s.config_remote_addr)
        × (s'.config_sock ≡ s.config_sock)
  unfolding write_frame fw_session_fail
  write_frame_quiet payload = elim (Bool-cases a.write) [
    | inl writes ↦ simp (writes, write_frame) (refl, refl, refl)
    | inr fails ↦ simp (fails, write_frame, trace) (refl, refl, refl)
  ]

  cmd_data_v2_answers : (bytes : List ℕ) → AnswersOnce 6 (cmd_data_v2 b a s bytes)
  unfolding cmd_data_v2
  cmd_data_v2_answers bytes = elim (Bool-cases (s.fw_started && ltb 4 (length bytes))) [
    | inr refused ↦ (no_offset b a, simp (refused, cmd_data_v2, trace) (refl, refl, refl))
    | inl taken ↦ elim (Bool-cases (b.bytes.get_le32 bytes == s.fw_received)) [
      | inl next ↦ (
        b.bytes.put_le32 (write_frame b a s (drop 4 bytes)).0.fw_received,
        simp (taken, next, cmd_data_v2, (write_frame_quiet (drop 4 bytes)).0, trace)
            (refl, (write_frame_quiet (drop 4 bytes)).1, (write_frame_quiet (drop 4 bytes)).2),
      )
      | inr other ↦ (
        b.bytes.put_le32 s.fw_received,
        simp (taken, other, cmd_data_v2, trace) (refl, refl, refl),
      )
    ]
  ]

  cmd_end_answers : (bytes : List ℕ) → AnswersOnce 3 (cmd_end b a s bytes)
  unfolding cmd_end fw_session_fail
  cmd_end_answers bytes = elim (Bool-cases (s.fw_started && leb 3 (length bytes))) [
    | inr refused ↦ (0 ∷ [], simp (refused, cmd_end, trace) (refl, refl, refl))
    | inl taken ↦ elim (Bool-cases (fw_verify_crc b a (b.bytes.get_le16 (drop 1 bytes)))) [
      | inr bad ↦ (0 ∷ [], simp (taken, bad, cmd_end, trace) (refl, refl, refl))
      | inl ok ↦ elim (Bool-cases a.request) [
        | inl agrees ↦ (1 ∷ [], simp (taken, ok, agrees, cmd_end, trace) (refl, refl, refl))
        | inr refuses ↦ (0 ∷ [], simp (taken, ok, refuses, cmd_end, trace) (refl, refl, refl))
      ]
    ]
  ]

  cmd_get_version_answers : AnswersOnce 4 (cmd_get_version b a s)
  unfolding cmd_get_version
  cmd_get_version_answers = (b.version, simp trace (refl, refl, refl))

  cmd_reboot_answers : AnswersOnce 5 (cmd_reboot b a s)
  unfolding cmd_reboot
  cmd_reboot_answers = (1 ∷ [], simp (only-call_hooks_send, trace) (refl, refl, refl))

  answers_as :
      (n cmd : ℕ) (made out : Outcome)
      → cmd ≡ n
      → made ≡ out
      → AnswersOnce n made
      → AnswersOnce cmd out
  answers_as n cmd made out at e = subst₂ AnswersOnce (sym at) e

  -- What a firmware command sends is what one call of `udp_fw_reply` sends, with the command's own
  -- code; the address to answer and the socket stay as they are.
  pub handle_fw_cmd_answers :
      (cmd : ℕ) (bytes : List ℕ) (out : Outcome)
      → handle_fw_cmd b a s cmd bytes ≡ some out
      → AnswersOnce cmd out
  unfolding handle_fw_cmd
  handle_fw_cmd_answers cmd bytes out e = elim (ℕ_discrete cmd 1) [
    | yes p ↦
        answers_as 1 cmd (cmd_start b a s bytes) out p (ground arith) (cmd_start_answers bytes)
    | no p ↦ elim (ℕ_discrete cmd 2) [
      | yes q ↦
          answers_as 2 cmd (cmd_data b a s bytes) out q (ground arith) (cmd_data_answers bytes)
      | no q ↦ elim (ℕ_discrete cmd 6) [
        | yes r ↦
            answers_as 6 cmd (cmd_data_v2 b a s bytes) out r (ground arith)
              (cmd_data_v2_answers bytes)
        | no r ↦ elim (ℕ_discrete cmd 3) [
          | yes t ↦
              answers_as 3 cmd (cmd_end b a s bytes) out t (ground arith) (cmd_end_answers bytes)
          | no t ↦ elim (ℕ_discrete cmd 4) [
            | yes u ↦
                answers_as 4 cmd (cmd_get_version b a s) out u (ground arith)
                  cmd_get_version_answers
            | no u ↦ elim (ℕ_discrete cmd 5) [
              | yes v ↦ answers_as 5 cmd (cmd_reboot b a s) out v (ground arith) cmd_reboot_answers
              | no v ↦ absurd (ground arith)
            ]
          ]
        ]
      ]
    ]
  ]

  -- Where a reply goes: to the sender in one's own subnet, else to everybody, one port further.
  abbrev pub route : Addr
  route =
      if is_same_subnet a.iface s.config_remote_addr.ip
      then s.config_remote_addr
      else record { ip = broadcast; port = u16 (b.port + 1) }

  -- With the socket open a reply is one datagram that begins with the command's code.
  pub udp_fw_reply_lem :
      (fd cmd : ℕ) (payload : List ℕ)
      → s.config_sock ≡ some fd
      → (rest : List ℕ) × (udp_fw_reply b a s cmd payload ≡ send route (cmd ∷ rest) ∷ [])
  unfolding udp_fw_reply
  udp_fw_reply_lem fd cmd payload opened =
      elim (Bool-cases (ltb 0 (length payload) && leb (length payload) 63)) [
        | inl fits ↦ (payload, simp (opened, fits, udp_fw_reply))
        | inr other ↦ ([], simp (opened, other, udp_fw_reply))
      ]
