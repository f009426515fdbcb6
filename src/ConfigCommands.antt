-- ===== src/ConfigCommands.antt =====
-- applications/io-edge-hub/src/udp.c: the commands of the configuration port that are not those of
-- the firmware upgrade.
-- A 64-bit uptime does not wrap, and a pending time is one that was read before.
pub mod Laws
mod Tests
use iot_zephyr_app.Base.{
  ℕ, ◌+◌, Bool, true, false, not, ◌&&◌, Option, none, some, List, [], ◌∷◌, ◌++◌, if◌then◌else◌, ltb,
  leb, ◌==◌, u8, length, get_or, drop,
}
use iot_zephyr_app.Zephyr.ByteOrder.{ByteOrder}
use iot_zephyr_app.ModbusRegs.{
  Regs, get_holding_reg, update_holding_reg, slave_id, rs485_baudrate, ip_octet1, ip_octet2,
  ip_octet3, ip_octet4,
}
use iot_zephyr_app.ModbusRegs.Settings.{ip_addr_valid}

-- The registers and the two static variables.
pub record UdpApp : Type 0 where
  pub regs : Regs
  pub factory_reset_pending_ms : ℕ
  pub factory_reset_confirmed : Bool

pub data Effect : Type 0 where
  reply : ℕ → List ℕ → Effect
  holding_reg_save : Effect
  set_timestamp : ℕ → Effect
  settings_factory_reset : Effect
  history_sync : Effect
  log_process : Effect
  reboot : Effect

-- The uptime, whether the time was set, and the error number of the factory reset (0 for none).
pub record Answers : Type 0 where
  pub now : ℕ
  pub time_set : Bool
  pub reset_rc : ℕ

abbrev pub Outcome : Type 0
Outcome = UdpApp × List Effect

-- `update_holding_reg`, whose error is not looked at.
pub put_reg : Regs → ℕ → ℕ → Regs
put_reg s addr v = elim (update_holding_reg s addr v) [ none ↦ s | some s' ↦ s' ]

module _ (bo : ByteOrder) (a : Answers) where
  pub cmd_set_ip : UdpApp → ℕ → List ℕ → Outcome
  unfolding put_reg
  cmd_set_ip s cmd bytes =
      let octet = λ (i : ℕ). get_or bytes i 0 in
      let r1 = put_reg s.regs ip_octet1 (octet 0) in
      let r2 = put_reg r1 ip_octet2 (octet 1) in
      let r3 = put_reg r2 ip_octet3 (octet 2) in
      let r4 = put_reg r3 ip_octet4 (octet 3) in
      if leb 4 (length bytes) && ip_addr_valid (octet 0) (octet 1) (octet 2) (octet 3)
      then (record s { regs = r4 }, holding_reg_save ∷ reply cmd (1 ∷ []) ∷ [])
      else (s, reply cmd (0 ∷ []) ∷ [])

  pub cmd_get_ip : UdpApp → ℕ → Outcome
  cmd_get_ip s cmd =
      let octet = λ (addr : ℕ). u8 (get_holding_reg s.regs addr) in
      (
        s,
        reply cmd (octet ip_octet1 ∷ octet ip_octet2 ∷ octet ip_octet3 ∷ octet ip_octet4 ∷ []) ∷ [],
      )

  pub cmd_set_modbus : UdpApp → ℕ → List ℕ → Outcome
  unfolding put_reg
  cmd_set_modbus s cmd bytes =
      let r1 = put_reg s.regs slave_id (get_or bytes 0 0) in
      let r2 = put_reg r1 rs485_baudrate (bo.get_be16 (drop 1 bytes)) in
      if leb 3 (length bytes)
      then (record s { regs = r2 }, holding_reg_save ∷ reply cmd (1 ∷ []) ∷ [])
      else (s, reply cmd (0 ∷ []) ∷ [])

  pub cmd_get_modbus : UdpApp → ℕ → Outcome
  cmd_get_modbus s cmd = (
    s,
    reply cmd (
          u8 (get_holding_reg s.regs slave_id)
          ∷ bo.put_be16 (get_holding_reg s.regs rs485_baudrate))
        ∷ [],
  )

  pub cmd_set_time : UdpApp → ℕ → List ℕ → Outcome
  cmd_set_time s cmd bytes =
      if leb 4 (length bytes)
      then (
        s,
        set_timestamp (bo.get_be32 bytes) ∷ reply cmd ((if a.time_set then 1 else 0) ∷ []) ∷ [],
      )
      else (s, reply cmd (0 ∷ []) ∷ [])

  -- What follows if the command is confirmed; a reboot does not return.
  pub execute_reset : ℕ → List Effect
  execute_reset cmd =
      if a.reset_rc == 0
      then settings_factory_reset ∷ reply cmd (1 ∷ []) ∷ history_sync ∷ log_process ∷ reboot ∷ []
      else settings_factory_reset ∷ reply cmd (0 ∷ []) ∷ []

  pub cmd_factory_reset : UdpApp → ℕ → Outcome
  unfolding execute_reset
  cmd_factory_reset s cmd =
      if not s.factory_reset_confirmed && ltb (s.factory_reset_pending_ms + 5000) a.now
      then (
        record s { factory_reset_pending_ms = a.now; factory_reset_confirmed = false },
        reply cmd (0 ∷ []) ∷ [],
      )
      else (record s { factory_reset_confirmed = false }, execute_reset cmd)

  -- The `switch`, by the codes of udp.h; `none` is its `default`.
  pub app_cmd_handler : UdpApp → ℕ → List ℕ → Option Outcome
  app_cmd_handler s cmd bytes =
      if cmd == 0x10
      then some (cmd_set_ip s cmd bytes)
      else if cmd == 0x11
      then some (cmd_get_ip s cmd)
      else if cmd == 0x12
      then some (cmd_set_modbus s cmd bytes)
      else if cmd == 0x13
      then some (cmd_get_modbus s cmd)
      else if cmd == 0x14
      then some (cmd_set_time s cmd bytes)
      else if cmd == 0x19
      then some (cmd_factory_reset s cmd)
      else none
