-- ===== src/CanUpgrade/Boot/Ends.antt =====
-- The waiting in can_fw_boot.c ends: at its deadline, on time across a wrap of the clock, and never
-- while the receive thread is busy with a command of less than 30 s.
use iot_zephyr_app.Base.{
  ℕ, ◌+◌, ◌^◌, ◌≤◌, ◌<◌, ◌≡◌, ◌↔◌, refl, Bool, true, false, not, ◌&&◌, Option, none, some, List, [],
  ◌∷◌, if◌then◌else◌, u32, All, Bool-cases, inl, inr, ◌⊎◌, arith,
}
use iot_zephyr_app.CanUpgrade.Boot.{Probe, Watch, probe_interval_ms, since, probe_loop, wait_loop}

-- With both times in milliseconds since boot, not reduced, the comparison of their low 32 bits is
-- that of the times, if they are less than 2 ^ 31 apart.
pub since_lem :
    (now then_ms ms : ℕ)
    → now < then_ms + 2 ^ 31
    → then_ms < now + 2 ^ 31
    → ms < 2 ^ 31
    → (since (u32 now) (u32 then_ms) ms ≡ true) ↔ (then_ms + ms ≤ now)
since_lem now then_ms ms p q r = ground arith

-- A pass at a time, and what the clock shows of it.
abbrev pub clock : List (ℕ × Bool) → List Probe
clock [] = []
clock ((t, taken) ∷ ps) = record { now = u32 t; taken = taken } ∷ clock ps

-- The passes come to a time.
abbrev pub Reaches : ℕ → List (ℕ × Bool) → Type 0
Reaches t [] = ⊥
Reaches t (p ∷ ps) = (t ≤ p.0) ⊎ Reaches t ps

-- The times lie less than 2 ^ 31 from the deadline.
abbrev pub Near : ℕ → List (ℕ × Bool) → Type 0
Near t = All (λ p. (p.0 < t + 2 ^ 31) × (t < p.0 + 2 ^ 31))

pub probe_loop-ends :
    (passes : List (ℕ × Bool)) (deadline next_probe : ℕ)
    → Near deadline passes
    → Reaches deadline passes
    → (acked : Bool) × ((probe_loop (clock passes) (u32 deadline) next_probe).0 ≡ some acked)
unfolding probe_loop
probe_loop-ends [] deadline next_probe near r = absurd r
probe_loop-ends ((t, taken) ∷ ps) deadline next_probe near r =
    elim (Bool-cases (since (u32 t) (u32 deadline) 0)) [
      | inl over ↦ (false, rw over)
      | inr early ↦ elim (Bool-cases taken) [
        | inl ack ↦ (true, rw (early, ack))
        | inr quiet ↦
            let (acked, e) =
              probe_loop-ends ps deadline
                (if since (u32 t) next_probe 0 then u32 (u32 t + probe_interval_ms) else next_probe)
                near.1 (later r early) in
            (acked, rw (early, quiet) e)
      ]
    ]
  where
    later :
        (deadline ≤ t) ⊎ Reaches deadline ps
        → since (u32 t) (u32 deadline) 0 ≡ false
        → Reaches deadline ps
    later (inl over) early =
        absurd (ground (arith, since_lem t deadline 0 near.0.0 near.0.1 (omega arith)))
    later (inr rest) early = rest

-- What a pass of the second loop reads if no variable changes during it: the flag, the time, the
-- time of the last activity, and whether the thread is busy.
abbrev pub Sight : Type 0
Sight = Bool × ℕ × ℕ × Bool

abbrev pub watch : Sight → Watch
watch v = record {
  confirmed = v.0;
  now = u32 v.1;
  last = u32 v.2;
  busy = v.3;
  busy_again = v.3;
  last_again = u32 v.2;
}

abbrev pub watches : List Sight → List Watch
watches [] = []
watches (v ∷ vs) = watch v ∷ watches vs

abbrev pub IsNear : Sight → Type 0
IsNear v = (v.1 < v.2 + 2 ^ 31) × (v.2 < v.1 + 2 ^ 31)

-- Some pass sees no activity for both limits.
abbrev pub FallsSilent : ℕ → List Sight → Type 0
FallsSilent idle_ms [] = ⊥
FallsSilent idle_ms (v ∷ vs) =
    ((v.2 + idle_ms ≤ v.1) × (v.2 + 30000 ≤ v.1)) ⊎ FallsSilent idle_ms vs

abbrev pub Active : ℕ → Sight → Type 0
Active idle_ms v = (v.0 ≡ false) × (v.1 < v.2 + 30000) × ((v.3 ≡ true) ⊎ (v.1 < v.2 + idle_ms))

module _ (idle_ms : ℕ) (small : idle_ms < 2 ^ 31) where
  quiet : (v : Sight) → v.2 + idle_ms ≤ v.1 → IsNear v → since (u32 v.1) (u32 v.2) idle_ms ≡ true
  quiet v p near = (since_lem v.1 v.2 idle_ms near.0 near.1 small).1 p

  too_long : (v : Sight) → v.2 + 30000 ≤ v.1 → IsNear v → since (u32 v.1) (u32 v.2) 30000 ≡ true
  too_long v p near = (since_lem v.1 v.2 30000 near.0 near.1 (omega arith)).1 p

  either :
      (busy : Bool) (rest : Option Bool)
      → (if true && not busy then some false else (if busy && true then some false else rest))
        ≡ some false
  either true rest = refl
  either false rest = refl

  not_stuck :
      (v : Sight) → Active idle_ms v → IsNear v → (v.3 && since (u32 v.1) (u32 v.2) 30000) ≡ false
  not_stuck v active near =
      ground (arith, since_lem v.1 v.2 30000 near.0 near.1 (omega arith), active)

  not_idle :
      (v : Sight)
      → Active idle_ms v
      → IsNear v
      → (since (u32 v.1) (u32 v.2) idle_ms && not v.3) ≡ false
  not_idle v active near = ground (arith, since_lem v.1 v.2 idle_ms near.0 near.1 small, active)

  -- The wait ends once a pass sees that there was no activity for the idle time and for 30 s.
  pub wait_loop-ends :
      (sights : List Sight)
      → All IsNear sights
      → FallsSilent idle_ms sights
      → (left : Bool) × (wait_loop idle_ms (watches sights) ≡ some left)
  unfolding wait_loop
  wait_loop-ends [] near f = absurd f
  wait_loop-ends (v ∷ vs) near f = elim (Bool-cases v.0) [
    | inl set ↦ (true, rw set)
    | inr unset ↦ elim f [
      | inl silent ↦ (
        false,
        rw (unset, quiet v silent.0 near.0, too_long v silent.1 near.0)
            (either v.3 (wait_loop idle_ms (watches vs))),
      )
      | inr rest ↦
          let (left, e) = wait_loop-ends vs near.1 rest in
          elim (Bool-cases (since (u32 v.1) (u32 v.2) idle_ms && not v.3)) [
            | inl idle ↦ (false, rw (unset, idle))
            | inr awake ↦ elim (Bool-cases (v.3 && since (u32 v.1) (u32 v.2) 30000)) [
              | inl stuck ↦ (false, rw (unset, awake, stuck))
              | inr fine ↦ (left, rw (unset, awake, fine) e)
            ]
          ]
    ]
  ]

  -- The wait goes on as long as, at each pass, no update is confirmed and the last activity is less
  -- than 30 s old, and the thread is busy or the idle time is not over.
  pub wait_loop-waits :
      (sights : List Sight)
      → All IsNear sights
      → All (Active idle_ms) sights
      → wait_loop idle_ms (watches sights) ≡ none
  unfolding wait_loop
  wait_loop-waits [] near active = refl
  wait_loop-waits (v ∷ vs) near active =
      rw (active.0.0, not_idle v active.0 near.0, not_stuck v active.0 near.0)
        (wait_loop-waits vs near.1 active.1)
