-- ===== src/ModbusRegs/Settings/Roundtrip.antt =====
-- Saving the settings of io-edge-hub and loading them again gives the parameters back.
use iot_zephyr_app.Base.{
  ℕ, ◌*◌, ◌<◌, ◌≡◌, refl, ap, ◌∙◌, Bool, true, false, ◌&&◌, ◌||◌, none, some, List, [], ◌∷◌, ◌++◌,
  if◌then◌else◌, ◌==◌, length, length-set, get_or, set, get_or-set_self, get_or-set_ne, Bool-cases,
  inl, inr, ℕ_discrete, arith,
}
use iot_zephyr_app.UdpUpgrade.Commands.{bytes_eq}
use iot_zephyr_app.ModbusRegs.{Regs}
use iot_zephyr_app.ModbusRegs.Settings.{
  Stored, mb_set_one, mb_set_ip, mb_handle_set, mb_handle_export, ip_is_valid_for_export,
}

-- A value in storage, read whole or not at all.
abbrev pub stored : List ℕ → Stored
stored words = record {
  len = 2 * length words;
  read = λ n. if n == 2 * length words then some words else none;
}

-- What the settings subsystem does at start: each saved value is handed to the handler; one that it
-- refuses is skipped.
pub load : Regs → List (List ℕ × List ℕ) → Regs
load s [] = s
load s ((name, words) ∷ items) = elim (mb_handle_set s name false (stored words)) [
  | none ↦ load s items
  | some s' ↦ load s' items
]

-- The values at some addresses, taken over.
copy : List ℕ → List ℕ → List ℕ → List ℕ
copy old new [] = old
copy old new (a ∷ addrs) = copy (set old a (get_or new a 0)) new addrs

abbrev pub member : ℕ → List ℕ → Bool
member a [] = false
member a (b ∷ bs) = b == a || member a bs

length-copy : (addrs old new : List ℕ) → length (copy old new addrs) ≡ length old
unfolding copy
length-copy [] old new = refl
length-copy (a ∷ addrs) old new =
    length-copy addrs (set old a (get_or new a 0)) new ∙ length-set old a (get_or new a 0)

get_or-copy :
    (addrs old new : List ℕ) (j : ℕ)
    → j < length old
    → get_or (copy old new addrs) j 0 ≡ (if member j addrs then get_or new j 0 else get_or old j 0)
unfolding copy
get_or-copy [] old new j p = refl
get_or-copy (a ∷ addrs) old new j p =
    get_or-copy addrs (set old a (get_or new a 0)) new j
      (omega (arith, length-set old a (get_or new a 0)))
    ∙ elim (ℕ_discrete a j) [
      | yes e ↦
          let here : get_or (set old a (get_or new a 0)) j 0 ≡ get_or new j 0 =
            rw e (get_or-set_self old j (get_or new j 0) 0 p) in
          ground (arith, e, here)
      | no e ↦ let there = get_or-set_ne old a j (get_or new a 0) 0 e in ground (arith, e, there)
    ]

abbrev pub saved : List ℕ
saved = 1 ∷ 2 ∷ 3 ∷ 4 ∷ 5 ∷ 6 ∷ 7 ∷ 8 ∷ 9 ∷ []

abbrev pub octets : List ℕ
octets = 10 ∷ 11 ∷ 12 ∷ 13 ∷ []

load_export :
    (s t : Regs)
    → load t (mb_handle_export s) ≡ record t {
      holding =
          copy t.holding s.holding (if ip_is_valid_for_export s then saved ++ octets else saved);
    }
unfolding load copy mb_handle_export mb_handle_set bytes_eq mb_set_one mb_set_ip
load_export s t = elim (Bool-cases (ip_is_valid_for_export s)) [
  | inl valid ↦ rw (valid, mb_handle_export)
  | inr other ↦ rw (other, mb_handle_export)
]

member-append : (xs ys : List ℕ) (j : ℕ) → member j (xs ++ ys) ≡ (member j xs || member j ys)
member-append [] ys j = refl
member-append (x ∷ xs) ys j = ground (arith, member-append xs ys j)

member-saved :
    (j : ℕ) (valid : Bool)
    → member j (if valid then saved ++ octets else saved)
      ≡ (member j saved || (member j octets && valid))
member-saved j true =
    member-append saved octets j ∙ ap (◌||◌ (member j saved)) (and_true (member j octets))
  where
    and_true : (x : Bool) → x ≡ (x && true)
    and_true true = refl
    and_true false = refl
member-saved j false = or_and (member j saved) (member j octets)
  where
    or_and : (x y : Bool) → x ≡ (x || (y && false))
    or_and true y = refl
    or_and false true = refl
    or_and false false = refl

-- Let the settings be saved from one state of the registers and loaded into another. Registers 1 to
-- 9 then have the values saved, and so have 10 to 13, the address, if it is a valid one; all other
-- registers keep what they had, and so does the address if the one to save was not valid.
pub load-mb_handle_export :
    (s t : Regs) (j : ℕ)
    → j < length t.holding
    → get_or (load t (mb_handle_export s)).holding j 0 ≡ (
        if member j saved || (member j octets && ip_is_valid_for_export s)
        then get_or s.holding j 0
        else get_or t.holding j 0)
load-mb_handle_export s t j p =
    ap (λ r. get_or r.holding j 0) (load_export s t)
    ∙ (get_or-copy (if ip_is_valid_for_export s then saved ++ octets else saved) t.holding s.holding
          j p
        ∙ ap (λ m. if m then get_or s.holding j 0 else get_or t.holding j 0)
            (member-saved j (ip_is_valid_for_export s)))
