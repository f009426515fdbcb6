-- ===== src/J1939/Ids.antt =====
-- The fields of a J1939 identifier.
use iot_zephyr_app.Base.{
  ℕ, ◌+◌, ◌*◌, ◌/◌, ◌%◌, ◌^◌, ◌<◌, ◌≡◌, refl, ap, ap₂, sym, ◌∙◌, subst, true, false, inl, inr,
  Bool-cases, if◌then◌else◌, leb, bit_and, bit_or, bit_and_low, bit_and_field, bit_or_add,
  bit_or_high, arith, u8,
}
use iot_zephyr_app.J1939.{pgn_is_pdu2, make_id, id_to_priority, id_to_sa, id_to_da, id_to_pgn}

-- The fields as digits of the number.
pub id_to_priority_lem : (id : ℕ) → id_to_priority id ≡ id / 2 ^ 26 % 8
unfolding id_to_priority
id_to_priority_lem id = ap u8 (bit_and_low 3 (id / 2 ^ 26)) ∙ omega arith

pub id_to_sa_lem : (id : ℕ) → id_to_sa id ≡ id % 256
unfolding id_to_sa
id_to_sa_lem id = ap u8 (bit_and_low 8 id) ∙ omega arith

pub id_to_da_lem : (id : ℕ) → id_to_da id ≡ id / 2 ^ 8 % 256
unfolding id_to_da
id_to_da_lem id = ap u8 (bit_and_low 8 (id / 2 ^ 8)) ∙ omega arith

id_to_pgn_lem :
    (id : ℕ)
    → id_to_pgn id
      ≡ (if leb 240 (id / 2 ^ 16 % 256) then id / 2 ^ 8 % 2 ^ 18 else id / 2 ^ 16 % 2 ^ 10 * 2 ^ 8)
unfolding id_to_pgn
id_to_pgn_lem id =
    ap (λ pf. if leb 240 pf then bit_and (id / 2 ^ 8) 0x3FFFF else bit_and (id / 2 ^ 8) 0x3FF00)
      (ap u8 (bit_and_low 8 (id / 2 ^ 16)) ∙ mod_twice (id / 2 ^ 16))
    ∙ ap₂ (λ a b. if leb 240 (id / 2 ^ 16 % 256) then a else b) (bit_and_low 18 (id / 2 ^ 8))
        (bit_and_field 8 10 (id / 2 ^ 8) ∙ ap (λ n. n % 2 ^ 10 * 2 ^ 8) (div_twice id))
  where
    mod_twice : (n : ℕ) → u8 (n % 2 ^ 8) ≡ n % 256
    mod_twice n = omega arith

    div_twice : (n : ℕ) → n / 2 ^ 8 / 2 ^ 8 ≡ n / 2 ^ 16
    div_twice n = omega arith

pgn_is_pdu2_lem : (pgn : ℕ) → pgn_is_pdu2 pgn ≡ leb 240 (pgn / 2 ^ 8 % 256)
pgn_is_pdu2_lem pgn = ap (leb 240) (bit_and_low 8 (pgn / 2 ^ 8))

-- Before the destination is put in.
base_id :
    (prio pgn sa : ℕ)
    → prio < 8
    → pgn < 2 ^ 18
    → sa < 256
    → bit_or (bit_or (bit_and prio 0x07 * 2 ^ 26) (bit_and pgn 0x3FFFF * 2 ^ 8)) sa
      ≡ (prio * 2 ^ 18 + pgn) * 2 ^ 8 + sa
base_id prio pgn sa p g s =
    ap₂ (λ a b. bit_or (bit_or (a * 2 ^ 26) (b * 2 ^ 8)) sa) (bit_and_low 3 prio ∙ omega (arith, p))
      (bit_and_low 18 pgn ∙ omega (arith, g))
    ∙ ap (λ a. bit_or a sa) (bit_or_add 26 prio (pgn * 2 ^ 8) (omega (arith, g)) ∙ omega arith)
    ∙ bit_or_add 8 (prio * 2 ^ 18 + pgn) sa (omega (arith, s))

make_id-pdu2 :
    (prio pgn sa da : ℕ)
    → prio < 8
    → pgn < 2 ^ 18
    → sa < 256
    → pgn_is_pdu2 pgn ≡ true
    → make_id prio pgn sa da ≡ (prio * 2 ^ 18 + pgn) * 2 ^ 8 + sa
unfolding make_id
make_id-pdu2 prio pgn sa da p g s e = rw e (base_id prio pgn sa p g s)

make_id-pdu1 :
    (prio h sa da : ℕ)
    → prio < 8
    → h < 2 ^ 10
    → sa < 256
    → da < 256
    → pgn_is_pdu2 (h * 2 ^ 8) ≡ false
    → make_id prio (h * 2 ^ 8) sa da ≡ ((prio * 2 ^ 10 + h) * 2 ^ 8 + da) * 2 ^ 8 + sa
unfolding make_id
make_id-pdu1 prio h sa da p g s d e = rw e (
    ap (λ a. bit_or a (da * 2 ^ 8)) (base_id prio (h * 2 ^ 8) sa p (omega (arith, g)) s)
    ∙ bit_or_high 8 (prio * 2 ^ 18 + h * 2 ^ 8) da sa (omega (arith, s))
    ∙ ap (λ a. a * 2 ^ 8 + sa)
        (ap (λ a. bit_or a da) (shift prio h)
          ∙ bit_or_add 8 (prio * 2 ^ 10 + h) da (omega (arith, d))))
  where
    shift : (p h : ℕ) → p * 2 ^ 18 + h * 2 ^ 8 ≡ (p * 2 ^ 10 + h) * 2 ^ 8
    shift p h = omega arith

id_to_pgn-pdu2 : (id : ℕ) → leb 240 (id / 2 ^ 16 % 256) ≡ true → id_to_pgn id ≡ id / 2 ^ 8 % 2 ^ 18
id_to_pgn-pdu2 id e = id_to_pgn_lem id ∙ rw e refl

id_to_pgn-pdu1 :
    (id : ℕ) → leb 240 (id / 2 ^ 16 % 256) ≡ false → id_to_pgn id ≡ id / 2 ^ 16 % 2 ^ 10 * 2 ^ 8
id_to_pgn-pdu1 id e = id_to_pgn_lem id ∙ rw e refl

-- The test reads the same byte of an identifier and of its group.
same_byte : (id : ℕ) → id / 2 ^ 8 % 2 ^ 18 / 2 ^ 8 % 256 ≡ id / 2 ^ 16 % 256
same_byte id = omega arith

same_byte_high : (id : ℕ) → id / 2 ^ 16 % 2 ^ 10 * 2 ^ 8 / 2 ^ 8 % 256 ≡ id / 2 ^ 16 % 256
same_byte_high id = omega arith

-- An identifier that the functions take apart and put together again is the same one, whatever its
-- 29 bits are.
pub make_id-fields :
    (id : ℕ)
    → id < 2 ^ 29
    → make_id (id_to_priority id) (id_to_pgn id) (id_to_sa id) (id_to_da id) ≡ id
make_id-fields id h = elim (Bool-cases (leb 240 (id / 2 ^ 16 % 256))) [
  | inl e ↦
      rw (id_to_priority_lem id, id_to_pgn-pdu2 id e, id_to_sa_lem id, id_to_da_lem id)
        (make_id-pdu2 (id / 2 ^ 26 % 8) (id / 2 ^ 8 % 2 ^ 18) (id % 256) (id / 2 ^ 8 % 256)
            (omega arith) (omega arith) (omega arith)
            (pgn_is_pdu2_lem (id / 2 ^ 8 % 2 ^ 18) ∙ ap (leb 240) (same_byte id) ∙ e)
          ∙ omega (arith, h))
  | inr e ↦
      rw (id_to_priority_lem id, id_to_pgn-pdu1 id e, id_to_sa_lem id, id_to_da_lem id)
        (make_id-pdu1 (id / 2 ^ 26 % 8) (id / 2 ^ 16 % 2 ^ 10) (id % 256) (id / 2 ^ 8 % 256)
            (omega arith) (omega arith) (omega arith) (omega arith)
            (pgn_is_pdu2_lem (id / 2 ^ 16 % 2 ^ 10 * 2 ^ 8) ∙ ap (leb 240) (same_byte_high id) ∙ e)
          ∙ omega (arith, h))
]

-- What the functions read of an identifier that make_id has made.
pub record Reads (id prio pgn sa : ℕ) : Type 0 where
  pub reads_priority : id_to_priority id ≡ prio
  pub reads_pgn : id_to_pgn id ≡ pgn
  pub reads_sa : id_to_sa id ≡ sa

-- The fields that are put into a broadcast identifier are read again, whatever the destination is.
pub make_id-broadcast :
    (prio pgn sa da : ℕ)
    → prio < 8
    → pgn < 2 ^ 18
    → sa < 256
    → pgn_is_pdu2 pgn ≡ true
    → Reads (make_id prio pgn sa da) prio pgn sa
make_id-broadcast prio pgn sa da p g s e = rw (make_id-pdu2 prio pgn sa da p g s e) record {
  reads_priority = id_to_priority_lem id ∙ omega (arith, g, s, p);
  reads_pgn =
      id_to_pgn-pdu2 id (ap (leb 240) (omega (arith, s)) ∙ sym (pgn_is_pdu2_lem pgn) ∙ e)
      ∙ omega (arith, g, s);
  reads_sa = id_to_sa_lem id ∙ omega (arith, s);
}
  where
    id : ℕ
    id = (prio * 2 ^ 18 + pgn) * 2 ^ 8 + sa

directed_at :
    (prio h sa da : ℕ)
    → prio < 8
    → h < 2 ^ 10
    → sa < 256
    → da < 256
    → pgn_is_pdu2 (h * 2 ^ 8) ≡ false
    → let id = make_id prio (h * 2 ^ 8) sa da in Reads id prio (h * 2 ^ 8) sa × (id_to_da id ≡ da)
directed_at prio h sa da p g s d e = rw (make_id-pdu1 prio h sa da p g s d e) (
  record {
    reads_priority = id_to_priority_lem id ∙ omega (arith, g, s, p, d);
    reads_pgn =
        id_to_pgn-pdu1 id
          (ap (leb 240) (omega (arith, s, d)) ∙ sym (pgn_is_pdu2_lem (h * 2 ^ 8)) ∙ e)
        ∙ omega (arith, g, s, d);
    reads_sa = id_to_sa_lem id ∙ omega (arith, s);
  },
  id_to_da_lem id ∙ omega (arith, s, d),
)
  where
    id : ℕ
    id = ((prio * 2 ^ 10 + h) * 2 ^ 8 + da) * 2 ^ 8 + sa

-- The fields that are put into an identifier to one node are read again, the destination too, if
-- the group's low byte is 0.
pub make_id-directed :
    (prio pgn sa da : ℕ)
    → prio < 8
    → pgn < 2 ^ 18
    → pgn % 256 ≡ 0
    → sa < 256
    → da < 256
    → pgn_is_pdu2 pgn ≡ false
    → Reads (make_id prio pgn sa da) prio pgn sa × (id_to_da (make_id prio pgn sa da) ≡ da)
make_id-directed prio pgn sa da p g z s d e =
    subst (λ n. Reads (make_id prio n sa da) prio n sa × (id_to_da (make_id prio n sa da) ≡ da))
      same (directed_at prio (pgn / 256) sa da p (omega (arith, g)) s d (ap pgn_is_pdu2 same ∙ e))
  where
    same : pgn / 256 * 2 ^ 8 ≡ pgn
    same = omega (arith, z)
