-- ===== src/ModbusRegs/Settings.antt =====
-- The settings of function.c: what is saved of the registers, and how it is read back.
-- A name is the list of its characters' codes.
pub mod Roundtrip
use iot_zephyr_app.Base.{
  ℕ, ◌+◌, ◌*◌, Bool, true, false, not, ◌&&◌, ◌||◌, Option, none, some, List, [], ◌∷◌, ◌++◌,
  if◌then◌else◌, ltb, leb, ◌==◌, u8, length, get_or, set,
}
use iot_zephyr_app.UdpUpgrade.Commands.{bytes_eq}
use iot_zephyr_app.ModbusRegs.{
  Regs, di_enable, ai_enable, di_sample_ms, ai_sample_ms, history_enable, can_id, can_baudrate,
  rs485_baudrate, slave_id, ip_octet1, ip_octet2, ip_octet3, ip_octet4,
}

-- "di_en"
abbrev pub name_di_en : List ℕ
name_di_en = 100 ∷ 105 ∷ 95 ∷ 101 ∷ 110 ∷ []

-- "ai_en"
abbrev pub name_ai_en : List ℕ
name_ai_en = 97 ∷ 105 ∷ 95 ∷ 101 ∷ 110 ∷ []

-- "di_si"
abbrev pub name_di_si : List ℕ
name_di_si = 100 ∷ 105 ∷ 95 ∷ 115 ∷ 105 ∷ []

-- "ai_si"
abbrev pub name_ai_si : List ℕ
name_ai_si = 97 ∷ 105 ∷ 95 ∷ 115 ∷ 105 ∷ []

-- "his"
abbrev pub name_his : List ℕ
name_his = 104 ∷ 105 ∷ 115 ∷ []

-- "can_id"
abbrev pub name_can_id : List ℕ
name_can_id = 99 ∷ 97 ∷ 110 ∷ 95 ∷ 105 ∷ 100 ∷ []

-- "can_bps"
abbrev pub name_can_bps : List ℕ
name_can_bps = 99 ∷ 97 ∷ 110 ∷ 95 ∷ 98 ∷ 112 ∷ 115 ∷ []

-- "rs485_bps"
abbrev pub name_rs485_bps : List ℕ
name_rs485_bps = 114 ∷ 115 ∷ 52 ∷ 56 ∷ 53 ∷ 95 ∷ 98 ∷ 112 ∷ 115 ∷ []

-- "slave_id"
abbrev pub name_slave_id : List ℕ
name_slave_id = 115 ∷ 108 ∷ 97 ∷ 118 ∷ 101 ∷ 95 ∷ 105 ∷ 100 ∷ []

-- "ip"
abbrev pub name_ip : List ℕ
name_ip = 105 ∷ 112 ∷ []

-- A stored value: its size in bytes, and the 16-bit words that `read_cb` gives if it is asked for
-- so many bytes and returns as many.
pub record Stored : Type 0 where
  pub len : ℕ
  pub read : ℕ → Option (List ℕ)

pub mb_set_one : Regs → Stored → ℕ → Regs
mb_set_one s v addr =
    let stored : Regs = elim (v.read 2) [
      | none ↦ s
      | some words ↦ record s { holding = set s.holding addr (get_or words 0 0) }
    ] in
    if v.len == 2 then stored else s

abbrev set_octets : List ℕ → List ℕ → List ℕ
set_octets regs ip =
    set
      (set (set (set regs ip_octet1 (get_or ip 0 0)) ip_octet2 (get_or ip 1 0)) ip_octet3
        (get_or ip 2 0))
      ip_octet4 (get_or ip 3 0)

pub mb_set_ip : Regs → Stored → Regs
mb_set_ip s v =
    let stored : Regs = elim (v.read 8) [
      | none ↦ s
      | some ip ↦ record s { holding = set_octets s.holding ip }
    ] in
    if v.len == 8 then stored else s

-- `name` is the first segment that settings_name_next finds, `next` tells whether there is another;
-- `none` is -ENOENT.
pub mb_handle_set : Regs → List ℕ → Bool → Stored → Option Regs
unfolding mb_set_one mb_set_ip
mb_handle_set s name next v =
    if not next && bytes_eq name name_ip
    then some (mb_set_ip s v)
    else if next
    then none
    else if bytes_eq name name_di_en
    then some (mb_set_one s v di_enable)
    else if bytes_eq name name_ai_en
    then some (mb_set_one s v ai_enable)
    else if bytes_eq name name_di_si
    then some (mb_set_one s v di_sample_ms)
    else if bytes_eq name name_ai_si
    then some (mb_set_one s v ai_sample_ms)
    else if bytes_eq name name_his
    then some (mb_set_one s v history_enable)
    else if bytes_eq name name_can_id
    then some (mb_set_one s v can_id)
    else if bytes_eq name name_can_bps
    then some (mb_set_one s v can_baudrate)
    else if bytes_eq name name_rs485_bps
    then some (mb_set_one s v rs485_baudrate)
    else if bytes_eq name name_slave_id
    then some (mb_set_one s v slave_id)
    else none

pub ip_addr_valid : ℕ → ℕ → ℕ → ℕ → Bool
ip_addr_valid a b c d =
    if d == 0 || d == 0xFF then false else if a == 0 || (a == 127 || leb 224 a) then false else true

pub ip_is_valid_for_export : Regs → Bool
unfolding ip_addr_valid
ip_is_valid_for_export s =
    ip_addr_valid (u8 (get_or s.holding ip_octet1 0)) (u8 (get_or s.holding ip_octet2 0))
      (u8 (get_or s.holding ip_octet3 0)) (u8 (get_or s.holding ip_octet4 0))

-- The names, below "modbus/", and the words of what is saved, in order.
pub mb_handle_export : Regs → List (List ℕ × List ℕ)
unfolding ip_is_valid_for_export
mb_handle_export s =
    let one = λ (addr : ℕ). get_or s.holding addr 0 ∷ [] in
    let ip =
      get_or s.holding ip_octet1 0
      ∷ get_or s.holding ip_octet2 0
      ∷ get_or s.holding ip_octet3 0
      ∷ get_or s.holding ip_octet4 0
      ∷ [] in
    (name_di_en, one di_enable)
    ∷ (name_ai_en, one ai_enable)
    ∷ (name_di_si, one di_sample_ms)
    ∷ (name_ai_si, one ai_sample_ms)
    ∷ (name_his, one history_enable)
    ∷ (name_can_id, one can_id)
    ∷ (name_can_bps, one can_baudrate)
    ∷ (name_rs485_bps, one rs485_baudrate)
    ∷ (name_slave_id, one slave_id)
    ∷ (if ip_is_valid_for_export s then (name_ip, ip) ∷ [] else [])
