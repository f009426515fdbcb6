-- ===== src/ModbusRegs/Overlap.antt =====
-- Writes to the registers of io-edge-hub that overlap: io_write_holding takes no lock, so that other
-- threads can write between its store and what follows it.
use iot_zephyr_app.Base.{
  ℕ, zero, suc, ◌%◌, ◌<◌, ◌≡◌, ◌≢◌, refl, ap, ◌∙◌, test_bit, test_bit-u8, Bool, true, false, not,
  ◌&&◌, ◌||◌, none, some, List, [], ◌∷◌, bit_and, if◌then◌else◌, leb, ◌==◌, ==_no, ==_self, length,
  length-set, get_or, get_elem?, set, All, Bool-cases, inl, inr, bit_and_low, arith,
}
use iot_zephyr_app.ModbusRegs.{
  Regs, Effect, io_write_do_bit, do_reg, coil_rd_cb, store_holding, after_write, io_write_holding,
}
use iot_zephyr_app.ModbusRegs.Outputs.{driven, write_coil, io_write_do_bit_lem}

-- The registers, the pins, and the writes that have stored their value and not ended yet.
pub record Flight : Type 0 where
  pub regs : Regs
  pub pins : ℕ
  pub open_writes : List (ℕ × ℕ)

-- A Modbus master or the web page begins a write of a register, one of the writes that have begun
-- ends, or a coil is written, which is one step.
pub data Event : Type 0 where
  begins : ℕ → ℕ → Event
  ends : ℕ → Event
  coil : ℕ → Bool → Event

abbrev remove {ℓ} : {A : Type ℓ} → List A → ℕ → List A
remove [] i = []
remove (x ∷ xs) zero = xs
remove (x ∷ xs) (suc i) = x ∷ remove xs i

unfoldable pub finish : ℕ × ℕ → List (ℕ × ℕ) → Flight → Flight
finish (addr, reg) others s =
    let (regs, es) = after_write s.regs addr reg in
    record { regs = regs; pins = driven s.pins es; open_writes = others }

unfoldable pub step : Event → Flight → Flight
unfolding finish
step (begins addr reg) s =
    let (regs, on) = store_holding s.regs addr reg in
    if on then record s { regs = regs; open_writes = (addr, reg) ∷ s.open_writes } else s
step (ends i) s = elim (get_elem? s.open_writes i) [
  | none ↦ s
  | some write ↦ finish write (remove s.open_writes i) s
]
step (coil bit state) s =
    let (regs, es) = write_coil s.regs bit state in
    record s { regs = regs; pins = driven s.pins es }

unfoldable pub run : List Event → Flight → Flight
unfolding step
run [] s = s
run (e ∷ es) s = run es (step e s)

-- Whether a write of the output register has begun and not ended.
abbrev pub writes_outputs : List (ℕ × ℕ) → Bool
writes_outputs [] = false
writes_outputs ((addr, reg) ∷ ws) = addr == do_reg || writes_outputs ws

-- No write of the output register or of a coil begins while one of the output register goes on.
abbrev pub waits : Event → Flight → Bool
waits (begins addr reg) s = not (addr == do_reg && writes_outputs s.open_writes)
waits (ends i) s = true
waits (coil bit state) s = not (writes_outputs s.open_writes)

unfoldable pub all_wait : List Event → Flight → Bool
unfolding step
all_wait [] s = true
all_wait (e ∷ es) s = waits e s && all_wait es (step e s)

-- What is written to the output register is what it has.
abbrev IsOf : Regs → ℕ × ℕ → Type 0
IsOf s (addr, reg) = addr ≡ do_reg → reg ≡ get_or s.holding do_reg 0

record IsTracked (s : Flight) : Type 0 where
  some_room : 0 < length s.regs.holding
  follows : writes_outputs s.open_writes ≡ false → s.pins ≡ get_or s.regs.holding do_reg 0 % 256
  written : All (IsOf s.regs) s.open_writes

-- A whole write is its two halves.
io_write_holding_halves :
    (s : Regs) (addr reg : ℕ)
    → io_write_holding s addr reg ≡ (
        let (s', on) = store_holding s addr reg in
        if leb (length s.holding) addr
        then none
        else if on
        then some (after_write s' addr reg)
        else some (s', []))
unfolding io_write_holding store_holding
io_write_holding_halves s addr reg = elim (Bool-cases (leb (length s.holding) addr)) [
  | inl beyond ↦ rw (beyond, io_write_holding, store_holding) refl
  | inr within ↦ elim (Bool-cases (get_or s.holding addr 0 == reg)) [
    | inl same ↦ rw (within, same, io_write_holding, store_holding) refl
    | inr new ↦ rw (within, new, io_write_holding, store_holding) refl
  ]
]

outputs_end :
    (s : Regs) (reg pins : ℕ)
    → let (s', es) = after_write s do_reg reg in (s' ≡ s) × (driven pins es ≡ bit_and reg 0xFF)
unfolding after_write
outputs_end s reg pins = (refl, refl)

new_value :
    (s : Regs) (addr reg : ℕ)
    → addr < length s.holding
    → get_or s.holding addr 0 ≢ reg
    → store_holding s addr reg ≡ (record s { holding = set s.holding addr reg }, true)
unfolding store_holding
new_value s addr reg room new =
    let within : leb (length s.holding) addr ≡ false = ground arith in
    rw (within, ==_no (get_or s.holding addr 0) reg new, store_holding) refl

coil_writes :
    (s s' : Regs) (bit : ℕ) (state : Bool) (es : List Effect)
    → io_write_do_bit s bit state ≡ some (s', es)
    → write_coil s bit state ≡ (s', es)
unfolding write_coil
coil_writes s s' bit state es e = rw (e, write_coil) refl

-- If a write of the output register stores its value, then a coil is written so that its bit
-- changes, and then the first write ends, the pin of that coil is not as the coil reads.
coil_lost :
    (s : Regs) (pins bit reg : ℕ)
    → bit < 8
    → 0 < length s.holding
    → get_or s.holding do_reg 0 ≢ reg
    → let state = not (test_bit bit reg) in
      let s' =
        run
          (begins do_reg reg ∷ coil bit state ∷ ends 0 ∷ [])
          (record { regs = s; pins = pins; open_writes = [] }) in
      (coil_rd_cb s'.regs bit ≡ some state) × (test_bit bit s'.pins ≡ not state)
unfolding run step finish
coil_lost s pins bit reg small room new =
    let stored = record s { holding = set s.holding do_reg reg } in
    let state = not (test_bit bit reg) in
    let (s', val, wrote, _, reads) =
      io_write_do_bit_lem stored bit state small
        (omega (arith, room, length-set s.holding do_reg reg)) in
    let (same, drives) = outputs_end s' reg val in
    rw (new_value s do_reg reg room new, coil_writes stored s' bit state _ wrote, same, drives)
      (
        reads bit small ∙ ap (λ b. if b then some state else coil_rd_cb stored bit) (==_self bit),
        ap (test_bit bit) (bit_and_low 8 reg)
            ∙ (test_bit-u8 bit reg small ∙ twice (test_bit bit reg)),
      )
  where
    twice : (b : Bool) → b ≡ not (not b)
    twice true = refl
    twice false = refl
