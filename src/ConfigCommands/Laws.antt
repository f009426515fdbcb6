-- ===== src/ConfigCommands/Laws.antt =====
-- What the configuration commands of io-edge-hub promise: what is set can be read, and when the
-- factory reset is carried out.
use iot_zephyr_app.Base.{
  ℕ, ◌+◌, ◌≤◌, ◌<◌, ◌≡◌, refl, sym, ap, ap₂, ◌∙◌, Bool, true, false, not, List, [], ◌∷◌,
  if◌then◌else◌, ltb, leb, u8, length, length-set, get_or, set, get_or-set_self, get_or-set_ne,
  drop, Bool-cases, inl, inr, arith,
}
use iot_zephyr_app.Zephyr.ByteOrder.{ByteOrder}
use iot_zephyr_app.ModbusRegs.{Regs, get_holding_reg, update_holding_reg, slave_id, rs485_baudrate}
use iot_zephyr_app.ConfigCommands.{
  UdpApp, Effect, Answers, reply, holding_reg_save, settings_factory_reset, put_reg, cmd_set_modbus,
  cmd_get_modbus, execute_reset, cmd_factory_reset,
}

abbrev pub resets : List Effect → Bool
resets [] = false
resets (settings_factory_reset ∷ es) = true
resets (e ∷ es) = resets es

module _ (bo : ByteOrder) (a : Answers) (s : UdpApp) (cmd : ℕ) where
  -- One command, while no confirmation is left over.
  cmd_factory_reset_lem :
      s.factory_reset_confirmed ≡ false
      → let (s', es) = cmd_factory_reset bo a s cmd in
        let late = ltb (s.factory_reset_pending_ms + 5000) a.now in
        (resets es ≡ not late)
        × (s'.factory_reset_pending_ms ≡ (if late then a.now else s.factory_reset_pending_ms))
        × (s'.factory_reset_confirmed ≡ false)
  unfolding cmd_factory_reset execute_reset
  cmd_factory_reset_lem fresh = elim (Bool-cases (ltb (s.factory_reset_pending_ms + 5000) a.now)) [
    | inl late ↦ simp (fresh, late, cmd_factory_reset) (refl, refl, refl)
    | inr soon ↦ simp (fresh, soon, cmd_factory_reset) (runs, refl, refl)
  ]
    where
      runs : resets (execute_reset bo a cmd) ≡ true
      runs = ground arith

module _ (bo : ByteOrder) (cmd : ℕ) where
  -- Whether the command is carried out, and the state after it.
  abbrev pub carried_out : Answers → UdpApp → Bool
  carried_out a s = resets (cmd_factory_reset bo a s cmd).1

  pub after : List Answers → UdpApp → UdpApp
  after [] s = s
  after (a ∷ commands) s = after commands (cmd_factory_reset bo a s cmd).0

  -- The time of the last command that was not carried out, or `time` if all were.
  pub last_refused : ℕ → List Answers → UdpApp → ℕ
  last_refused time [] s = time
  last_refused time (a ∷ commands) s =
      last_refused (if carried_out a s then time else a.now) commands
        (cmd_factory_reset bo a s cmd).0

  pending_time :
      (commands : List Answers) (s : UdpApp)
      → s.factory_reset_confirmed ≡ false
      → let s' = after commands s in
        (s'.factory_reset_pending_ms ≡ last_refused s.factory_reset_pending_ms commands s)
        × (s'.factory_reset_confirmed ≡ false)
  unfolding after last_refused
  pending_time [] s fresh = (refl, fresh)
  pending_time (a ∷ commands) s fresh =
      let (done, pending, fresh') = cmd_factory_reset_lem bo a s cmd fresh in
      let late = ltb (s.factory_reset_pending_ms + 5000) a.now in
      let moved : (cmd_factory_reset bo a s cmd).0.factory_reset_pending_ms
          ≡ (if carried_out a s then s.factory_reset_pending_ms else a.now) =
        pending
        ∙ sym (ap (λ c. if c then s.factory_reset_pending_ms else a.now) done ∙ swap late) in
      let (time, fresh'') = pending_time commands (cmd_factory_reset bo a s cmd).0 fresh' in
      (time ∙ ap (λ t. last_refused t commands (cmd_factory_reset bo a s cmd).0) moved, fresh'')
    where
      swap :
          (c : Bool)
          → (if not c then s.factory_reset_pending_ms else a.now)
            ≡ (if c then a.now else s.factory_reset_pending_ms)
      swap true = refl
      swap false = refl

  -- After any FACTORY_RESET commands since the start, when the pending time is 0 and no
  -- confirmation is left over, one more is carried out exactly if it comes at most 5 s after the
  -- last of them that was not carried out, or, if there is none, within the first 5 s of uptime:
  -- also if it is the first and only command.
  pub factory_reset_run :
      (commands : List Answers) (a : Answers) (s : UdpApp)
      → s.factory_reset_pending_ms ≡ 0
      → s.factory_reset_confirmed ≡ false
      → carried_out a (after commands s) ≡ leb a.now (last_refused 0 commands s + 5000)
  factory_reset_run commands a s boot fresh =
      let (time, fresh') = pending_time commands s fresh in
      let (done, _, _) = cmd_factory_reset_lem bo a (after commands s) cmd fresh' in
      let last = time ∙ ap (λ t. last_refused t commands s) boot in
      done
      ∙ (ap (λ t. not (ltb (t + 5000) a.now)) last
          ∙ not_ltb (last_refused 0 commands s + 5000) a.now)
    where
      not_ltb : (m n : ℕ) → not (ltb m n) ≡ leb n m
      not_ltb m n = ground arith

put_reg_lem :
    (s : Regs) (addr v : ℕ)
    → addr < length s.holding
    → put_reg s addr v ≡ record s { holding = set s.holding addr v }
unfolding put_reg update_holding_reg
put_reg_lem s addr v p = rw (room, put_reg, update_holding_reg)
  where
    room : leb (length s.holding) addr ≡ false
    room = ground arith

get_holding_reg_lem :
    (s : Regs) (addr : ℕ)
    → addr < length s.holding
    → get_holding_reg s addr ≡ get_or s.holding addr 0
unfolding get_holding_reg
get_holding_reg_lem s addr p = ground arith

module _ (bo : ByteOrder) (a a' : Answers) (s : UdpApp) where
  -- SET_MODBUS with three bytes, in 18 registers, and GET_MODBUS after it: the slave's number and the
  -- bit rate come back, and the settings are saved before the command is answered.
  pub cmd_set_modbus-cmd_get_modbus :
      (bytes : List ℕ)
      → length s.regs.holding ≡ 18
      → 3 ≤ length bytes
      → get_or bytes 0 0 < 256
      → let (s', es) = cmd_set_modbus bo a s 0x12 bytes in
        (es ≡ holding_reg_save ∷ reply 0x12 (1 ∷ []) ∷ [])
        × (cmd_get_modbus bo a' s' 0x13
            ≡ (s', reply 0x13 (get_or bytes 0 0 ∷ bo.put_be16 (bo.get_be16 (drop 1 bytes))) ∷ []))
  unfolding cmd_set_modbus cmd_get_modbus
  cmd_set_modbus-cmd_get_modbus bytes size enough byte = rw written (
    refl,
    ap₂ (λ x y. (record s { regs = after }, reply 0x13 (x ∷ bo.put_be16 y) ∷ [])) slave baud,
  )
    where
      x : ℕ
      x = get_or bytes 0 0

      y : ℕ
      y = bo.get_be16 (drop 1 bytes)

      middle : Regs
      middle = record s.regs { holding = set s.regs.holding slave_id x }

      after : Regs
      after = record s.regs { holding = set middle.holding rs485_baudrate y }

      long : length middle.holding ≡ 18
      long = length-set s.regs.holding slave_id x ∙ size

      stored : put_reg (put_reg s.regs slave_id x) rs485_baudrate y ≡ after
      stored =
          ap (λ r. put_reg r rs485_baudrate y) (put_reg_lem s.regs slave_id x (omega (arith, size)))
          ∙ put_reg_lem middle rs485_baudrate y (omega (arith, long))

      taken : leb 3 (length bytes) ≡ true
      taken = ground arith

      written :
          cmd_set_modbus bo a s 0x12 bytes
          ≡ (record s { regs = after }, holding_reg_save ∷ reply 0x12 (1 ∷ []) ∷ [])
      written = rw (taken, cmd_set_modbus, stored)

      fits : length after.holding ≡ 18
      fits = length-set middle.holding rs485_baudrate y ∙ long

      slave : u8 (get_holding_reg after slave_id) ≡ x
      slave =
          ap u8 (
            get_holding_reg_lem after slave_id (omega (arith, fits))
            ∙ (get_or-set_ne middle.holding rs485_baudrate slave_id y 0 (omega arith)
                ∙ get_or-set_self s.regs.holding slave_id x 0 (omega (arith, size))))
          ∙ omega arith

      baud : get_holding_reg after rs485_baudrate ≡ y
      baud =
          get_holding_reg_lem after rs485_baudrate (omega (arith, fits))
          ∙ get_or-set_self middle.holding rs485_baudrate y 0 (omega (arith, long))
