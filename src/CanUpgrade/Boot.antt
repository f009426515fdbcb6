-- ===== src/CanUpgrade/Boot.antt =====
-- libs/can_fw_upgrade/can_fw_boot.c: the hook that waits for an update before the boot loader goes on.
-- The hook and the receive thread run side by side. What the hook reads in a pass of a loop is a
-- `Probe` or a `Watch`, in the order in which it reads it; the list of them is what the clock and
-- the thread do meanwhile.
pub mod Ends
use iot_zephyr_app.Base.{
  ℕ, ◌+◌, Bool, true, false, not, ◌&&◌, Option, none, some, List, [], ◌∷◌, ◌++◌, if◌then◌else◌, ltb,
  leb, u32, sub_u32,
}

-- `now`, and whether the semaphore was taken in the wait that followed.
pub record Probe : Type 0 where
  pub now : ℕ
  pub taken : Bool

-- The flag of the loop, the uptime, and the two reads of each shared variable.
pub record Watch : Type 0 where
  pub confirmed : Bool
  pub now : ℕ
  pub last : ℕ
  pub busy : Bool
  pub busy_again : Bool
  pub last_again : ℕ

pub data Effect : Type 0 where
  send_boot_trace : ℕ → Effect
  drain_acks : Effect
  send_boot_probe : ℕ → Effect
  drain_frames : Effect
  clear_confirmed : Effect
  set_last_activity : ℕ → Effect
  can_stop : Effect

abbrev pub probe_interval_ms : ℕ
probe_interval_ms = 200

-- `(int32_t)(now - then) >= ms`, for an `ms` that is not negative.
abbrev pub since : ℕ → ℕ → ℕ → Bool
since now then_ms ms = let d = sub_u32 now then_ms in ltb d 2147483648 && leb ms d

-- The first loop: `none` if the passes end and it does not, else whether it was acknowledged.
pub probe_loop : List Probe → ℕ → ℕ → Option Bool × List Effect
probe_loop [] deadline next_probe = (none, [])
probe_loop (p ∷ ps) deadline next_probe =
    let due = since p.now next_probe 0 in
    let sent = if due then send_boot_probe p.now ∷ [] else [] in
    let next : ℕ = if due then u32 (p.now + probe_interval_ms) else next_probe in
    let (result, effects) = probe_loop ps deadline next in
    if since p.now deadline 0
    then (some false, [])
    else if p.taken
    then (some true, sent)
    else (result, sent ++ effects)

-- The second loop, for a CONFIG_CAN_FW_UPGRADE_IDLE_TIMEOUT_MS: `none` if the passes end and it
-- does not, else whether it left because the flag was set.
pub wait_loop : ℕ → List Watch → Option Bool
wait_loop idle_ms [] = none
wait_loop idle_ms (w ∷ ws) =
    let rest = wait_loop idle_ms ws in
    if w.confirmed
    then some true
    else if since w.now w.last idle_ms && not w.busy
    then some false
    else if w.busy_again && since w.now w.last_again 30000
    then some false
    else rest

-- From the acknowledgement on; `acked_at` is the uptime that becomes the last activity, and
-- `confirmed` the flag that is read after the loop.
pub host_found : ℕ → ℕ → List Watch → Bool → Option (List Effect)
unfolding wait_loop
host_found idle_ms acked_at watches confirmed = elim (wait_loop idle_ms watches) [
  | none ↦ none
  | some left ↦ some (
      send_boot_trace 3
      ∷ drain_frames
      ∷ clear_confirmed
      ∷ set_last_activity acked_at
      ∷ (if confirmed then send_boot_trace 4 ∷ [] else []))
]

-- The hook: `none` if it does not return within these passes. `start` is the uptime at its
-- beginning.
pub boot_go_hook : ℕ → ℕ → Bool → ℕ → List Probe → ℕ → List Watch → Bool → Option (List Effect)
unfolding probe_loop host_found
boot_go_hook probe_ms idle_ms ready start probes acked_at watches confirmed =
    let (result, sent) = probe_loop probes (u32 (start + probe_ms)) 0 in
    let head = send_boot_trace 2 ∷ drain_acks ∷ sent in
    let tail = send_boot_trace 5 ∷ can_stop ∷ [] in
    if not ready then some [] else elim result [
      | none ↦ none
      | some false ↦ some (head ++ tail)
      | some true ↦ elim (host_found idle_ms acked_at watches confirmed) [
        | none ↦ none
        | some found ↦ some (head ++ (found ++ tail))
      ]
    ]
