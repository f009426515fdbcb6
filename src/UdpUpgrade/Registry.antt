-- ===== src/UdpUpgrade/Registry.antt =====
-- The registries of udp_fw_upgrade.c: handler slots as the bag of handlers that they hold, and the
-- list of broadcast commands as a set of bounded size.
use iot_zephyr_app.Base.{
  subst, ==_no, ==_self, ℕ_discrete, ℕ, suc, ◌≡◌, refl, ap, true, ◌&&◌, ◌||◌, Option, none, some,
  List, [], ◌∷◌, ◌++◌, inl, inr, Bool-cases, ltb, ◌==◌, length, arith,
}
use mathlib.Core.List.Perm
use mathlib.Core.List.{Perm}
use iot_zephyr_app.UdpUpgrade.{
  Build, UdpFw, put_handler, drop_handler, bcast_cmd_allowed, allow_broadcast_cmd,
}

abbrev pub Slots : Type 0
Slots = List (Option (ℕ × ℕ))

-- The handlers in the slots, in their order.
abbrev pub registered : Slots → List (ℕ × ℕ)
registered [] = []
registered (none ∷ slots) = registered slots
registered (some h ∷ slots) = h ∷ registered slots

-- What `put_handler` promises of its result.
Held : Slots → ℕ × ℕ → Option Slots → Type 0
Held slots h none = Unit
Held slots h (some slots') =
    Perm (registered slots') (h ∷ registered slots) × (length slots' ≡ length slots)

Held-behind :
    (g h : ℕ × ℕ) (slots : Slots) (out : Option Slots)
    → Held slots h out
    → Held (some g ∷ slots) h (elim out [ none ↦ none | some slots' ↦ some (some g ∷ slots') ])
unfolding Held
Held-behind g h slots none v = tt
Held-behind g h slots (some slots') v =
    (Perm.trans (Perm.cons g v.0) (Perm.swap h g (registered slots)), ap suc v.1)

put_handler-Held : (slots : Slots) (h : ℕ × ℕ) → Held slots h (put_handler slots h)
unfolding put_handler Held
put_handler-Held [] h = tt
put_handler-Held (none ∷ slots) h = (Perm.rfl, refl)
put_handler-Held (some g ∷ slots) h =
    Held-behind g h slots (put_handler slots h) (put_handler-Held slots h)

-- A handler that finds a slot is added to those that are there, each of which stays, and the number
-- of slots does not change.
pub put_handler-perm :
    (slots slots' : Slots) (h : ℕ × ℕ)
    → put_handler slots h ≡ some slots'
    → Perm (registered slots') (h ∷ registered slots) × (length slots' ≡ length slots)
unfolding Held
put_handler-perm slots slots' h e = subst (Held slots h) e (put_handler-Held slots h)

-- What `drop_handler` promises of its result.
Dropped : Slots → ℕ → Option Slots → Type 0
Dropped slots cb none = Unit
Dropped slots cb (some slots') =
    (u : ℕ) × Perm (registered slots) ((cb, u) ∷ registered slots') × (length slots' ≡ length slots)

Dropped-behind_gap :
    (cb : ℕ) (slots : Slots) (out : Option Slots)
    → Dropped slots cb out
    → Dropped (none ∷ slots) cb (elim out [ none ↦ none | some slots' ↦ some (none ∷ slots') ])
unfolding Dropped
Dropped-behind_gap cb slots none v = tt
Dropped-behind_gap cb slots (some slots') v = (v.0, v.1, ap suc v.2)

Dropped-behind :
    (g : ℕ × ℕ) (cb : ℕ) (slots : Slots) (out : Option Slots)
    → Dropped slots cb out
    → Dropped (some g ∷ slots) cb (elim out [ none ↦ none | some slots' ↦ some (some g ∷ slots') ])
unfolding Dropped
Dropped-behind g cb slots none v = tt
Dropped-behind g cb slots (some slots') v =
    (v.0, Perm.trans (Perm.cons g v.1) (Perm.swap (cb, v.0) g (registered slots')), ap suc v.2)

drop_handler-Dropped : (slots : Slots) (cb : ℕ) → Dropped slots cb (drop_handler slots cb)
unfolding drop_handler Dropped
drop_handler-Dropped [] cb = tt
drop_handler-Dropped (none ∷ slots) cb =
    Dropped-behind_gap cb slots (drop_handler slots cb) (drop_handler-Dropped slots cb)
drop_handler-Dropped (some (g, u) ∷ slots) cb =
    let ih = drop_handler-Dropped slots cb in
    elim (ℕ_discrete g cb) [
      | yes p ↦ rw (p, ==_self cb) (u, Perm.rfl, refl)
      | no p ↦ rw (==_no g cb p) (Dropped-behind (g, u) cb slots (drop_handler slots cb) ih)
    ]

-- Removing a handler that is there takes one of that callback away; the others, and the number of
-- slots, stay.
pub drop_handler-perm :
    (slots slots' : Slots) (cb : ℕ)
    → drop_handler slots cb ≡ some slots'
    → (u : ℕ) × Perm (registered slots) ((cb, u) ∷ registered slots')
      × (length slots' ≡ length slots)
unfolding Dropped
drop_handler-perm slots slots' cb e = subst (Dropped slots cb) e (drop_handler-Dropped slots cb)

module _ (b : Build) (s : UdpFw) (cmd : ℕ) where
  allowed-append :
      (cs : List ℕ) (c : ℕ)
      → bcast_cmd_allowed (cs ++ cmd ∷ []) c ≡ (bcast_cmd_allowed cs c || cmd == c)
  unfolding bcast_cmd_allowed
  allowed-append [] c = ground arith
  allowed-append (x ∷ cs) c = ground (arith, allowed-append cs c)

  known_already :
      (c : ℕ)
      → bcast_cmd_allowed s.bcast_allowed_cmds cmd ≡ true
      → bcast_cmd_allowed s.bcast_allowed_cmds c ≡ (
          bcast_cmd_allowed s.bcast_allowed_cmds c
          || (cmd == c && ltb (length s.bcast_allowed_cmds) b.max_bcast_cmds))
  known_already c known = elim (ℕ_discrete cmd c) [
    | yes p ↦ rw (subst (λ x. bcast_cmd_allowed s.bcast_allowed_cmds x ≡ true) p known)
    | no p ↦ ground arith
  ]

  -- A command is allowed afterwards exactly if it was, or if it is the new one and broadcasts are
  -- restricted and the list had room.
  pub allow_broadcast_cmd_lem :
      (c : ℕ)
      → bcast_cmd_allowed (allow_broadcast_cmd b s cmd).bcast_allowed_cmds c ≡ (
          bcast_cmd_allowed s.bcast_allowed_cmds c
          || (cmd == c && (b.restrict && ltb (length s.bcast_allowed_cmds) b.max_bcast_cmds)))
  unfolding allow_broadcast_cmd
  allow_broadcast_cmd_lem c = elim (Bool-cases b.restrict) [
    | inr off ↦ simp (off, allow_broadcast_cmd) (ground arith)
    | inl on ↦ elim (Bool-cases (bcast_cmd_allowed s.bcast_allowed_cmds cmd)) [
      | inl known ↦ simp (on, known, allow_broadcast_cmd) (known_already c known)
      | inr new ↦ elim (Bool-cases (ltb (length s.bcast_allowed_cmds) b.max_bcast_cmds)) [
        | inl room ↦ simp (on, new, room, allow_broadcast_cmd, allowed-append) (ground arith)
        | inr full ↦ simp (on, new, full, allow_broadcast_cmd) (ground arith)
      ]
    ]
  ]
