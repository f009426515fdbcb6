-- ===== src/J1939/Names.antt =====
-- The fields of a J1939 NAME.
use iot_zephyr_app.Base.{
  ℕ, ◌+◌, ◌-◌, ◌*◌, ◌/◌, ◌%◌, ◌^◌, ◌<◌, ◌≡◌, refl, ap, ◌∙◌, bit_and, bit_and_low, bit_or_below,
  arith,
}
use native.Mathlib.Nat.{mod-eq_of_lt}
use iot_zephyr_app.J1939.{Name, name_pack}

-- Every field is in the range that its bits allow.
pub record IsName (n : Name) : Type 0 where
  pub ecu : n.ecu_instance < 2 ^ 3
  pub fun_instance : n.function_instance < 2 ^ 5
  pub fun : n.function < 2 ^ 8
  pub system : n.vehicle_system < 2 ^ 7
  pub system_instance : n.vehicle_system_instance < 2 ^ 4
  pub group : n.industry_group < 2 ^ 3
  pub manufacturer : n.manufacturer_code < 2 ^ 11
  pub identity : n.identity_number < 2 ^ 21

fits : (k a : ℕ) → a < 2 ^ k → bit_and a (2 ^ k - 1) ≡ a
fits k a h = bit_and_low k a ∙ mod-eq_of_lt h

abbrev low1 : Name → ℕ
low1 n = n.function_instance * 2 ^ 3 + n.ecu_instance

abbrev low2 : Name → ℕ
low2 n = n.function * 2 ^ 8 + low1 n

abbrev low3 : Name → ℕ
low3 n = n.vehicle_system * 2 ^ 17 + low2 n

abbrev low4 : Name → ℕ
low4 n = n.vehicle_system_instance * 2 ^ 24 + low3 n

abbrev low5 : Name → ℕ
low5 n = n.industry_group * 2 ^ 28 + low4 n

abbrev low6 : Name → ℕ
low6 n = n.identity_number * 2 ^ 32 + low5 n

name_pack_lem : (n : Name) → IsName n → name_pack n ≡ n.manufacturer_code * 2 ^ 53 + low6 n
unfolding name_pack
name_pack_lem n v =
    rw
      (
        fits 3 n.ecu_instance v.ecu,
        fits 5 n.function_instance v.fun_instance,
        fits 7 n.vehicle_system v.system,
        fits 4 n.vehicle_system_instance v.system_instance,
        fits 3 n.industry_group v.group,
        fits 21 n.identity_number v.identity,
        fits 11 n.manufacturer_code v.manufacturer,
        bit_or_below 3 n.function_instance n.ecu_instance v.ecu,
        bit_or_below 8 n.function (low1 n) (omega (arith, v.ecu, v.fun_instance)),
        bit_or_below 17 n.vehicle_system (low2 n) (omega (arith, v.ecu, v.fun_instance, v.fun)),
        bit_or_below 24 n.vehicle_system_instance (low3 n)
            (omega (arith, v.ecu, v.fun_instance, v.fun, v.system)),
        bit_or_below 28 n.industry_group (low4 n)
            (omega (arith, v.ecu, v.fun_instance, v.fun, v.system, v.system_instance)),
        bit_or_below 32 n.identity_number (low5 n)
            (omega (arith, v.ecu, v.fun_instance, v.fun, v.system, v.system_instance, v.group)),
        bit_or_below 53 n.manufacturer_code (low6 n) (
            omega (
              arith, v.ecu, v.fun_instance, v.fun, v.system, v.system_instance, v.group, v.identity,
            )),
      )
      refl

-- The fields that the bits of a NAME stand for.
abbrev pub unpack : ℕ → Name
unpack x = record {
  ecu_instance = x % 2 ^ 3;
  function_instance = x / 2 ^ 3 % 2 ^ 5;
  function = x / 2 ^ 8 % 2 ^ 8;
  vehicle_system = x / 2 ^ 17 % 2 ^ 7;
  vehicle_system_instance = x / 2 ^ 24 % 2 ^ 4;
  industry_group = x / 2 ^ 28 % 2 ^ 3;
  manufacturer_code = x / 2 ^ 53 % 2 ^ 11;
  identity_number = x / 2 ^ 32 % 2 ^ 21;
}

ecu_instance_digits :
    (n : Name)
    → IsName n
    → (unpack (n.manufacturer_code * 2 ^ 53 + low6 n)).ecu_instance ≡ n.ecu_instance
ecu_instance_digits n v = omega (
  arith, v.ecu, v.fun_instance, v.fun, v.system, v.system_instance, v.group, v.manufacturer,
  v.identity,
)

function_instance_digits :
    (n : Name)
    → IsName n
    → (unpack (n.manufacturer_code * 2 ^ 53 + low6 n)).function_instance ≡ n.function_instance
function_instance_digits n v = omega (
  arith, v.ecu, v.fun_instance, v.fun, v.system, v.system_instance, v.group, v.manufacturer,
  v.identity,
)

function_digits :
    (n : Name) → IsName n → (unpack (n.manufacturer_code * 2 ^ 53 + low6 n)).function ≡ n.function
function_digits n v = omega (
  arith, v.ecu, v.fun_instance, v.fun, v.system, v.system_instance, v.group, v.manufacturer,
  v.identity,
)

vehicle_system_digits :
    (n : Name)
    → IsName n
    → (unpack (n.manufacturer_code * 2 ^ 53 + low6 n)).vehicle_system ≡ n.vehicle_system
vehicle_system_digits n v = omega (
  arith, v.ecu, v.fun_instance, v.fun, v.system, v.system_instance, v.group, v.manufacturer,
  v.identity,
)

vehicle_system_instance_digits :
    (n : Name)
    → IsName n
    → (unpack (n.manufacturer_code * 2 ^ 53 + low6 n)).vehicle_system_instance
      ≡ n.vehicle_system_instance
vehicle_system_instance_digits n v = omega (
  arith, v.ecu, v.fun_instance, v.fun, v.system, v.system_instance, v.group, v.manufacturer,
  v.identity,
)

industry_group_digits :
    (n : Name)
    → IsName n
    → (unpack (n.manufacturer_code * 2 ^ 53 + low6 n)).industry_group ≡ n.industry_group
industry_group_digits n v = omega (
  arith, v.ecu, v.fun_instance, v.fun, v.system, v.system_instance, v.group, v.manufacturer,
  v.identity,
)

manufacturer_code_digits :
    (n : Name)
    → IsName n
    → (unpack (n.manufacturer_code * 2 ^ 53 + low6 n)).manufacturer_code ≡ n.manufacturer_code
manufacturer_code_digits n v = omega (
  arith, v.ecu, v.fun_instance, v.fun, v.system, v.system_instance, v.group, v.manufacturer,
  v.identity,
)

identity_number_digits :
    (n : Name)
    → IsName n
    → (unpack (n.manufacturer_code * 2 ^ 53 + low6 n)).identity_number ≡ n.identity_number
identity_number_digits n v = omega (
  arith, v.ecu, v.fun_instance, v.fun, v.system, v.system_instance, v.group, v.manufacturer,
  v.identity,
)

-- Every field of a NAME can be read again from the packed number, at the bits that J1939/81 gives
-- it, if each is in its range; so different NAMEs are packed into different numbers.
pub unpack-name_pack : (n : Name) → IsName n → unpack (name_pack n) ≡ n
unpack-name_pack n v = ap unpack (name_pack_lem n v) ∙ (λ i. record {
  ecu_instance = ecu_instance_digits n v i;
  function_instance = function_instance_digits n v i;
  function = function_digits n v i;
  vehicle_system = vehicle_system_digits n v i;
  vehicle_system_instance = vehicle_system_instance_digits n v i;
  industry_group = industry_group_digits n v i;
  manufacturer_code = manufacturer_code_digits n v i;
  identity_number = identity_number_digits n v i;
})
