-- ===== src/J1939/Claim.antt =====
-- j1939_claim_address of examples/j1939-demo/src/j1939.c, with the claims that the receive thread
-- hands over while the function sleeps.
pub mod Choice
pub mod Arbitration
use iot_zephyr_app.Base.{
  ℕ, zero, suc, Bool, true, false, not, ◌&&◌, Option, none, some, List, [], ◌∷◌, ◌++◌,
  if◌then◌else◌, ltb,
}
use iot_zephyr_app.Zephyr.ByteOrder.{ByteOrder}
use iot_zephyr_app.J1939.{
  J1939, Frame, send_raw, handle_address_claimed, pgn_request, pgn_address_claimed, sa_null,
  sa_global,
}

-- A claim as the receive thread sees it: the source address and the bytes.
pub record Heard : Type 0 where
  pub sa : ℕ
  pub bytes : List ℕ

pub data Result : Type 0 where
  invalid : Result
  claimed : Result
  unavailable : Result

-- The three bytes of the request.
abbrev pub claim_request : List ℕ
claim_request = 0x00 ∷ 0xEE ∷ 0x00 ∷ []

module _ (order : ByteOrder) where
  pub listen : List Heard → J1939 → J1939
  unfolding handle_address_claimed
  listen [] s = s
  listen (h ∷ hs) s = listen hs (handle_address_claimed order s h.sa h.bytes)

  -- The two frames of a round.
  pub claim_frames : J1939 → ℕ → List (Option Frame)
  unfolding send_raw
  claim_frames s sa =
      send_raw 6 pgn_request sa sa claim_request
      ∷ send_raw 6 pgn_address_claimed sa sa_global (order.put_le64 s.self_name)
      ∷ []

  -- One round for an address, with what is heard meanwhile: whether it is lost, and the state.
  pub claim_round : J1939 → ℕ → List Heard → Bool × J1939
  unfolding listen
  claim_round s sa heard =
      let s' = listen heard (record s { claim_candidate_sa = sa; peer_seen = false }) in
      let lose = s'.peer_seen && ltb s'.peer_name s'.self_name in
      (
        lose,
        if lose
            then record s' { claim_candidate_sa = sa_null }
            else record s' { claim_candidate_sa = sa_null; self_sa = sa; addr_valid = true },
      )

  -- After a round that is lost the loop goes on, otherwise it ends.
  pub go_on :
      Bool
      → J1939
      → List (Option Frame)
      → Bool × J1939 × List (Option Frame)
      → Bool × J1939 × List (Option Frame)
  go_on true s frames (won, s', later) = (won, s', frames ++ later)
  go_on false s frames later = (true, s, frames)

  -- The loop from an address downwards: whether one was claimed, the state, and what was sent.
  pub claim_loop : ℕ → (ℕ → List Heard) → J1939 → Bool × J1939 × List (Option Frame)
  unfolding claim_round claim_frames go_on
  claim_loop zero heard s =
      let (lose, s') = claim_round s 0 (heard 0) in (not lose, s', claim_frames s 0)
  claim_loop (suc sa) heard s =
      let (lose, s') = claim_round s (suc sa) (heard (suc sa)) in
      go_on lose s' (claim_frames s (suc sa)) (claim_loop sa heard s')

  -- After the loop: without an address, a frame tells that none was claimed.
  pub conclude :
      Option Frame → Bool × J1939 × List (Option Frame) → Result × J1939 × List (Option Frame)
  conclude none_claimed (true, s, frames) = (claimed, s, frames)
  conclude none_claimed (false, s, frames) = (unavailable, s, frames ++ (none_claimed ∷ []))

  unfoldable pub claim_address : ℕ → (ℕ → List Heard) → J1939 → Result × J1939 × List (Option Frame)
  unfolding claim_loop conclude
  claim_address preferred_sa heard s =
      if ltb 253 preferred_sa
      then (invalid, s, [])
      else conclude (send_raw 6 pgn_address_claimed sa_null sa_global (order.put_le64 s.self_name))
          (claim_loop preferred_sa heard s)
