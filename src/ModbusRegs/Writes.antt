-- ===== src/ModbusRegs/Writes.antt =====
-- Writes to the registers of io-edge-hub that act: the two halves of the clock, and the triggers.
use iot_zephyr_app.Base.{
  subst, set-set, set_self, ◌⊎◌, ℕ, ◌+◌, ◌*◌, ◌^◌, ◌<◌, ◌≡◌, ◌≢◌, sym, ap, ◌∙◌, true, false, Option,
  none, some, List, [], ◌∷◌, bit_or, bit_or_add, if◌then◌else◌, leb, ◌==◌, ==_no, u32, length,
  length-set, get_or, set, get_or-set_ne, Bool-cases, inl, inr, ℕ_discrete, arith,
}
use iot_zephyr_app.ModbusRegs.{
  Regs, Effect, set_timestamp, settings_save, set_reboot_status, timestamp_hi, timestamp_lo,
  config_save, reboot_reg, after_write, io_write_holding,
}

-- Let the low half of the clock be written, in 18 registers, with halves of 16 bits. The clock is
-- set to what the two halves make up, unless the register holds that low half already: then nothing
-- is done, whatever the high half has become.
pub io_write_holding-clock :
    (s : Regs) (lo : ℕ)
    → length s.holding ≡ 18
    → lo < 2 ^ 16
    → get_or s.holding timestamp_hi 0 < 2 ^ 16
    → io_write_holding s timestamp_lo lo
      ≡ some (
          if get_or s.holding timestamp_lo 0 == lo then (s, []) else (
            record s { holding = set s.holding timestamp_lo lo },
            set_timestamp (get_or s.holding timestamp_hi 0 * 2 ^ 16 + lo) ∷ [],
          ))
unfolding io_write_holding after_write
io_write_holding-clock s lo size p q = elim (Bool-cases (get_or s.holding timestamp_lo 0 == lo)) [
  | inl same ↦ simp (same, size, io_write_holding)
  | inr new ↦
      simp (new, size, io_write_holding, after_write)
        (ap (λ t. some (record s { holding = set s.holding timestamp_lo lo }, set_timestamp t ∷ []))
          joined)
]
  where
    joined :
        bit_or (u32 (get_or (set s.holding timestamp_lo lo) timestamp_hi 0 * 65536)) lo
        ≡ get_or s.holding timestamp_hi 0 * 65536 + lo
    joined =
        ap (λ h. bit_or h lo)
          (ap (λ h. u32 (h * 65536))
              (get_or-set_ne s.holding timestamp_lo timestamp_hi lo 0 (omega arith))
            ∙ omega arith)
        ∙ bit_or_add 16 (get_or s.holding timestamp_hi 0) lo p

-- A register that is a trigger stays 0: whatever is written, to it or elsewhere.
abbrev pub Armed : Regs → Type 0
Armed s =
    (get_or s.holding config_save 0 ≡ 0)
    × (get_or s.holding reboot_reg 0 ≡ 0)
    × (length s.holding ≡ 18)

-- What a write leaves, if it is not refused.
KeepsArmed : Option (Regs × List Effect) → Type 0
KeepsArmed none = Unit
KeepsArmed (some out) = Armed out.0

after_write_plain :
    (s : Regs) (addr reg : ℕ)
    → addr ≢ config_save
    → addr ≢ reboot_reg
    → (after_write s addr reg).0 ≡ s
unfolding after_write
after_write_plain s addr reg p q = ground (arith, p, q)

after_write_trigger :
    (s : Regs) (addr reg : ℕ)
    → (addr ≡ config_save) ⊎ (addr ≡ reboot_reg)
    → (after_write s addr reg).0 ≡ record s { holding = set s.holding addr 0 }
unfolding after_write
after_write_trigger s addr reg (inl p) = rw p
after_write_trigger s addr reg (inr p) = rw p

put_back :
    (regs : List ℕ) (addr reg : ℕ) → get_or regs addr 0 ≡ 0 → set (set regs addr reg) addr 0 ≡ regs
put_back regs addr reg e =
    set-set regs addr reg 0 ∙ (ap (set regs addr) (sym e) ∙ set_self regs addr 0)

set-Armed :
    (s : Regs) (addr reg : ℕ)
    → Armed s
    → Armed (after_write (record s { holding = set s.holding addr reg }) addr reg).0
set-Armed s addr reg v = elim (ℕ_discrete addr config_save) [
  | yes p ↦ subst Armed (sym (back addr (inl p) (ap (λ a. get_or s.holding a 0) p ∙ v.0))) v
  | no p ↦ elim (ℕ_discrete addr reboot_reg) [
    | yes q ↦ subst Armed (sym (back addr (inr q) (ap (λ a. get_or s.holding a 0) q ∙ v.1))) v
    | no q ↦
        subst Armed
          (sym (after_write_plain (record s { holding = set s.holding addr reg }) addr reg p q))
          (
            get_or-set_ne s.holding addr config_save reg 0 p ∙ v.0,
            get_or-set_ne s.holding addr reboot_reg reg 0 q ∙ v.1,
            length-set s.holding addr reg ∙ v.2,
          )
  ]
]
  where
    back :
        (addr : ℕ)
        → (addr ≡ config_save) ⊎ (addr ≡ reboot_reg)
        → get_or s.holding addr 0 ≡ 0
        → (after_write (record s { holding = set s.holding addr reg }) addr reg).0 ≡ s
    back addr t e =
        after_write_trigger (record s { holding = set s.holding addr reg }) addr reg t
        ∙ ap (λ h. record s { holding = h }) (put_back s.holding addr reg e)

io_write_holding-KeepsArmed :
    (s : Regs) (addr reg : ℕ) → Armed s → KeepsArmed (io_write_holding s addr reg)
unfolding io_write_holding KeepsArmed
io_write_holding-KeepsArmed s addr reg v = elim (Bool-cases (leb (length s.holding) addr)) [
  | inl beyond ↦ rw (beyond, io_write_holding) tt
  | inr within ↦ elim (Bool-cases (get_or s.holding addr 0 == reg)) [
    | inl same ↦ rw (within, io_write_holding, same) v
    | inr new ↦ rw (within, io_write_holding, new) (set-Armed s addr reg v)
  ]
]

-- Let both triggers read 0, in 18 registers. They do so after any write that is not refused.
pub io_write_holding-Armed :
    (s s' : Regs) (es : List Effect) (addr reg : ℕ)
    → Armed s
    → io_write_holding s addr reg ≡ some (s', es)
    → Armed s'
unfolding KeepsArmed
io_write_holding-Armed s s' es addr reg v e =
    subst KeepsArmed e (io_write_holding-KeepsArmed s addr reg v)

-- While both triggers read 0, a write of another value to one acts: it saves the settings, or asks
-- for a reboot, and leaves the registers as they were.
pub io_write_holding-triggers :
    (s : Regs) (reg : ℕ)
    → Armed s
    → reg ≢ 0
    → (io_write_holding s config_save reg ≡ some (s, settings_save ∷ []))
      × (io_write_holding s reboot_reg reg ≡ some (s, set_reboot_status true ∷ []))
unfolding io_write_holding after_write
io_write_holding-triggers s reg v p = (
  rw (v.2, io_write_holding, v.0, fresh)
      (ap (λ h. some (record s { holding = h }, settings_save ∷ []))
        (put_back s.holding config_save reg v.0)),
  rw (v.2, io_write_holding, v.1, fresh, nonzero)
      (ap (λ h. some (record s { holding = h }, set_reboot_status true ∷ []))
        (put_back s.holding reboot_reg reg v.1)),
)
  where
    fresh : (0 == reg) ≡ false
    fresh = ground (arith, p)

    nonzero : (reg == 0) ≡ false
    nonzero = ==_no reg 0 p
