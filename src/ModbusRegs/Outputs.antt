-- ===== src/ModbusRegs/Outputs.antt =====
-- The digital outputs of io-edge-hub: one coil at a time, and the register that stands for them all.
use iot_zephyr_app.Base.{
  ℕ, ◌-◌, ◌%◌, ◌^◌, ◌<◌, ◌≡◌, ◌≢◌, refl, ap, ◌∙◌, Bool, true, false, ◌&&◌, none, some, List, [],
  ◌∷◌, bit_and, if◌then◌else◌, leb, ◌==◌, length, length-set, get_or, set, get_or-set_self,
  get_or-set_ne, Bool-cases, inl, inr, test_bit, test_bit-or, test_bit-and, test_bit-complement,
  test_bit-u8, bit_and-pow, bit_and_low, ==_no, arith,
}
use iot_zephyr_app.ModbusRegs.{
  Regs, Effect, set_do, set_reboot_status, do_reg, history_enable, timestamp_lo, config_save,
  reboot_reg, write_bit, after_write, io_write_do_bit, coil_rd_cb,
}

write_bit_lem :
    (val bit c : ℕ) (state : Bool)
    → bit < 8
    → c < 8
    → test_bit c (write_bit val bit state) ≡ (if bit == c then state else test_bit c val)
write_bit_lem val bit c true p q = test_bit-or c bit val ∙ ground arith
write_bit_lem val bit c false p q =
    test_bit-and c val (65535 - 2 ^ bit)
    ∙ (ap (◌&&◌ (test_bit c val)) (test_bit-complement bit c p q) ∙ ground arith)

coil_lem :
    (s : Regs) (c : ℕ) → c < 8 → coil_rd_cb s c ≡ some (test_bit c (get_or s.holding do_reg 0))
unfolding coil_rd_cb
coil_lem s c p = ground (arith, bit_and-pow c (get_or s.holding do_reg 0))

-- Writing one of the eight coils sets it, leaves the other seven as they are, and drives the pins
-- with the value that the register has then.
pub io_write_do_bit_lem :
    (s : Regs) (bit : ℕ) (state : Bool)
    → bit < 8
    → 0 < length s.holding
    → (s' : Regs) × (val : ℕ) × (io_write_do_bit s bit state ≡ some (s', set_do val ∷ []))
      × (get_or s'.holding do_reg 0 ≡ val)
      × ((c : ℕ) → c < 8 → coil_rd_cb s' c ≡ (if bit == c then some state else coil_rd_cb s c))
unfolding io_write_do_bit
io_write_do_bit_lem s bit state p room = (
  record s { holding = set s.holding do_reg (bit_and val 0xFF) },
  bit_and val 0xFF,
  ground arith,
  here,
  λ c q.
      coil_lem (record s { holding = set s.holding do_reg (bit_and val 0xFF) }) c q
      ∙ (ap some (kept c q) ∙ ground (arith, coil_lem s c q)),
)
  where
    val : ℕ
    val = write_bit (get_or s.holding do_reg 0) bit state

    here : get_or (set s.holding do_reg (bit_and val 0xFF)) do_reg 0 ≡ bit_and val 0xFF
    here = get_or-set_self s.holding 0 (bit_and val 0xFF) 0 room

    kept :
        (c : ℕ)
        → c < 8
        → test_bit c (get_or (set s.holding do_reg (bit_and val 0xFF)) do_reg 0)
          ≡ (if bit == c then state else test_bit c (get_or s.holding do_reg 0))
    kept c q =
        ap (test_bit c) (here ∙ bit_and_low 8 val)
        ∙ (test_bit-u8 c val q ∙ write_bit_lem (get_or s.holding do_reg 0) bit c state p q)

-- A write of a coil that is refused does nothing.
unfoldable pub write_coil : Regs → ℕ → Bool → Regs × List Effect
write_coil s bit state = elim (io_write_do_bit s bit state) [ none ↦ (s, []) | some out ↦ out ]

-- The value on the pins after some calls, if it was `pins` before.
abbrev pub driven : ℕ → List Effect → ℕ
driven pins [] = pins
driven pins (set_do v ∷ es) = driven v es
driven pins (e ∷ es) = driven pins es

-- The pins are the low byte of the register.
abbrev pub Follows : Regs → ℕ → Type 0
Follows s pins = (pins ≡ get_or s.holding do_reg 0 % 256) × (0 < length s.holding)

-- A register other than that of the outputs leaves both alone.
pub after_write_other :
    (s : Regs) (addr reg pins : ℕ)
    → addr ≢ do_reg
    → let (s', es) = after_write s addr reg in
      (driven pins es ≡ pins)
      × (get_or s'.holding do_reg 0 ≡ get_or s.holding do_reg 0)
      × (length s'.holding ≡ length s.holding)
unfolding after_write
after_write_other s addr reg pins other = elim (Bool-cases (addr == history_enable)) [
  | inl his ↦ simp (none_of, his, after_write) (refl, refl, refl)
  | inr no_his ↦ elim (Bool-cases (addr == timestamp_lo)) [
    | inl time ↦ simp (none_of, no_his, time, after_write) (refl, refl, refl)
    | inr no_time ↦ elim (Bool-cases (addr == config_save)) [
      | inl save ↦
          simp (none_of, no_his, no_time, save, after_write)
            (refl, untouched, length-set s.holding addr 0)
      | inr no_save ↦ elim (Bool-cases (addr == reboot_reg)) [
        | inl boot ↦
            simp (none_of, no_his, no_time, no_save, boot, after_write)
              (quiet (reg == 0), untouched, length-set s.holding addr 0)
        | inr none_left ↦
            simp (none_of, no_his, no_time, no_save, none_left, after_write) (refl, refl, refl)
      ]
    ]
  ]
]
  where
    none_of : (addr == do_reg) ≡ false
    none_of = ==_no addr do_reg other

    untouched : get_or (set s.holding addr 0) do_reg 0 ≡ get_or s.holding do_reg 0
    untouched = get_or-set_ne s.holding addr do_reg 0 0 other

    quiet :
        (zero_written : Bool)
        → driven pins (if zero_written then [] else set_reboot_status true ∷ []) ≡ pins
    quiet true = refl
    quiet false = refl

pub coil-Follows :
    (s : Regs) (bit pins : ℕ) (state : Bool)
    → Follows s pins
    → let (s', es) = write_coil s bit state in Follows s' (driven pins es)
unfolding write_coil io_write_do_bit
coil-Follows s bit pins state f = elim (Bool-cases (leb 8 bit)) [
  | inl beyond ↦ simp (beyond, write_coil, io_write_do_bit) f
  | inr within ↦
      simp (within, write_coil, io_write_do_bit)
        (
          rw (get_or-set_self s.holding 0 (bit_and val 0xFF) 0 f.1, bit_and_low 8 val)
              (omega arith),
          omega (arith, f.1, length-set s.holding 0 (bit_and val 0xFF)),
        )
]
  where
    val : ℕ
    val = write_bit (get_or s.holding do_reg 0) bit state
