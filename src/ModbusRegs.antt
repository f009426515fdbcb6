-- ===== src/ModbusRegs.antt =====
-- applications/io-edge-hub/src/modbus/function.c: the register arrays, the callbacks of the Modbus
-- server and the writes that they share with the web interface.
-- A callback that fails with -ENOTSUP returns `none`. Each operation is one step, by the lock, but for
-- io_write_holding, which takes none: store_holding and after_write are its two halves, between
-- which other threads can run, and Overlap has such runs.
pub mod Settings
pub mod Outputs
pub mod Overlap
pub mod Writes
mod Tests
use iot_zephyr_app.Base.{
  ℕ, ◌+◌, ◌-◌, ◌*◌, ◌/◌, ◌^◌, Bool, true, false, not, ◌&&◌, ◌||◌, Option, none, some, List, [], ◌∷◌,
  ◌++◌, bit_and, bit_or, if◌then◌else◌, ltb, leb, ◌==◌, u16, u32, length, get_or, set,
}

-- `enum holding_reg_idx` of include/init.h.
abbrev pub do_reg : ℕ
do_reg = 0

abbrev pub di_enable : ℕ
di_enable = 1

abbrev pub ai_enable : ℕ
ai_enable = 2

abbrev pub di_sample_ms : ℕ
di_sample_ms = 3

abbrev pub ai_sample_ms : ℕ
ai_sample_ms = 4

abbrev pub history_enable : ℕ
history_enable = 5

abbrev pub can_id : ℕ
can_id = 6

abbrev pub can_baudrate : ℕ
can_baudrate = 7

abbrev pub rs485_baudrate : ℕ
rs485_baudrate = 8

abbrev pub slave_id : ℕ
slave_id = 9

abbrev pub ip_octet1 : ℕ
ip_octet1 = 10

abbrev pub ip_octet2 : ℕ
ip_octet2 = 11

abbrev pub ip_octet3 : ℕ
ip_octet3 = 12

abbrev pub ip_octet4 : ℕ
ip_octet4 = 13

abbrev pub timestamp_hi : ℕ
timestamp_hi = 14

abbrev pub timestamp_lo : ℕ
timestamp_lo = 15

abbrev pub config_save : ℕ
config_save = 16

abbrev pub reboot_reg : ℕ
reboot_reg = 17

abbrev pub input_di : ℕ
input_di = 5

abbrev pub do_num : ℕ
do_num = 8

abbrev pub di_num : ℕ
di_num = 16

-- `holding_reg` and `input_reg`.
pub record Regs : Type 0 where
  pub holding : List ℕ
  pub input : List ℕ

-- What a write does beside storing the value.
pub data Effect : Type 0 where
  set_do : ℕ → Effect
  history_enable_write : Bool → Effect
  set_timestamp : ℕ → Effect
  settings_save : Effect
  set_reboot_status : Bool → Effect

unfoldable pub get_holding_reg : Regs → ℕ → ℕ
get_holding_reg s addr = if leb (length s.holding) addr then 0 else get_or s.holding addr 0

-- `now` is what `time` returns, in 32 bits.
pub io_read_holding : ℕ → Regs → ℕ → ℕ
unfolding get_holding_reg
io_read_holding now s addr =
    if addr == timestamp_hi
    then u32 now / 2 ^ 16
    else if addr == timestamp_lo
    then u16 now
    else get_holding_reg s addr

unfoldable pub update_holding_reg : Regs → ℕ → ℕ → Option Regs
update_holding_reg s addr reg =
    if leb (length s.holding) addr
    then none
    else some (record s { holding = set s.holding addr reg })

unfoldable pub get_input_reg : Regs → ℕ → ℕ
get_input_reg s addr = if leb (length s.input) addr then 0 else get_or s.input addr 0

unfoldable pub update_input_reg : Regs → ℕ → ℕ → Option Regs
update_input_reg s addr reg =
    if leb (length s.input) addr then none else some (record s { input = set s.input addr reg })

pub holding_reg_rd_cb : ℕ → Regs → ℕ → Option ℕ
holding_reg_rd_cb now s addr =
    if leb (length s.holding) addr
    then none
    else if addr == timestamp_hi
    then some (u32 now / 2 ^ 16)
    else if addr == timestamp_lo
    then some (u16 now)
    else some (get_or s.holding addr 0)

-- The `switch`, after the value has been stored.
pub after_write : Regs → ℕ → ℕ → Regs × List Effect
after_write s addr reg =
    let cleared = record s { holding = set s.holding addr 0 } in
    if addr == do_reg
    then (s, set_do (bit_and reg 0xFF) ∷ [])
    else if addr == history_enable
    then (s, history_enable_write (not (reg == 0)) ∷ [])
    else if addr == timestamp_lo
    then (s, set_timestamp (bit_or (u32 (get_or s.holding timestamp_hi 0 * 2 ^ 16)) reg) ∷ [])
    else if addr == config_save
    then (cleared, settings_save ∷ [])
    else if addr == reboot_reg
    then (cleared, if reg == 0 then [] else set_reboot_status true ∷ [])
    else (s, [])

-- io_write_holding up to its store: the registers, and whether it goes on.
pub store_holding : Regs → ℕ → ℕ → Regs × Bool
store_holding s addr reg =
    if leb (length s.holding) addr
    then (s, false)
    else if get_or s.holding addr 0 == reg
    then (s, false)
    else (record s { holding = set s.holding addr reg }, true)

pub io_write_holding : Regs → ℕ → ℕ → Option (Regs × List Effect)
unfolding after_write
io_write_holding s addr reg =
    if leb (length s.holding) addr
    then none
    else if get_or s.holding addr 0 == reg
    then some (s, [])
    else some (after_write (record s { holding = set s.holding addr reg }) addr reg)

pub input_reg_rd_cb : Regs → ℕ → Option ℕ
input_reg_rd_cb s addr = if leb (length s.input) addr then none else some (get_or s.input addr 0)

pub coil_rd_cb : Regs → ℕ → Option Bool
coil_rd_cb s addr =
    if leb do_num addr
    then none
    else some (not (bit_and (get_or s.holding do_reg 0) (2 ^ addr) == 0))

-- WRITE_BIT: `65535 - 2 ^ bit` is `~BIT(bit)`, in 16 bits.
abbrev pub write_bit : ℕ → ℕ → Bool → ℕ
write_bit val bit true = bit_or val (2 ^ bit)
write_bit val bit false = bit_and val (65535 - 2 ^ bit)

pub io_write_do_bit : Regs → ℕ → Bool → Option (Regs × List Effect)
io_write_do_bit s bit state =
    let val : ℕ = write_bit (get_or s.holding do_reg 0) bit state in
    if leb do_num bit
    then none
    else some (
      record s { holding = set s.holding do_reg (bit_and val 0xFF) },
      set_do (bit_and val 0xFF) ∷ [],
    )

pub discrete_input_rd_cb : Regs → ℕ → Option Bool
discrete_input_rd_cb s addr =
    if leb di_num addr
    then none
    else some (not (bit_and (get_or s.input input_di 0) (2 ^ addr) == 0))

-- The error numbers of opening and erasing the storage partition; 0 is success.
pub settings_factory_reset : ℕ → ℕ → ℕ
settings_factory_reset open_rc erase_rc = if open_rc == 0 then erase_rc else open_rc
