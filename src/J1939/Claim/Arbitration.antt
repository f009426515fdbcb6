-- ===== src/J1939/Claim/Arbitration.antt =====
-- Two nodes of examples/j1939-demo on one bus: the claim of one, as the other receives it.
use iot_zephyr_app.Base.{
  ℕ, ◌^◌, ◌<◌, ◌≡◌, ◌≢◌, refl, ap, ap₂, sym, ◌∙◌, subst, Bool, true, false, not, ◌&&◌, some, [],
  ◌∷◌, if◌then◌else◌, ltb, lt→ltb, le→ltb_false, ◌==◌, ==_self, ==_no, arith,
}
use iot_zephyr_app.Zephyr.ByteOrder.{ByteOrder}
use iot_zephyr_app.J1939.{
  J1939, Frame, sent, send_raw, rx_frame, make_id, handle_address_claimed, handle_request,
  pgn_request, pgn_address_claimed, sa_global,
}
use iot_zephyr_app.J1939.Ids.{make_id-directed}
use iot_zephyr_app.J1939.Claim.Choice.{is_taken_one, claim_round-lose}
use iot_zephyr_app.J1939.Claim.{claim_request, claim_round}

module _ (order : ByteOrder) where
  -- The frame in which a node claims its address.
  abbrev pub claim_of : J1939 → Frame
  claim_of s = record {
    id = make_id 6 pgn_address_claimed s.self_sa sa_global;
    bytes = order.put_le64 s.self_name;
  }

  -- It is what the code sends.
  claim_of-sent :
      (s : J1939)
      → send_raw 6 pgn_address_claimed s.self_sa sa_global (order.put_le64 s.self_name)
        ≡ some (claim_of s)
  unfolding send_raw
  claim_of-sent s = rw (order.length-put_le64 s.self_name) refl

  rx_frame-claim :
      (s t : J1939)
      → t.self_sa < 256
      → rx_frame order s (claim_of t)
        ≡ (handle_address_claimed order s t.self_sa (order.put_le64 t.self_name), [])
  unfolding rx_frame
  rx_frame-claim s t h =
      let (reads, da) =
        make_id-directed 6 pgn_address_claimed t.self_sa sa_global (omega arith) (omega arith) refl
          h (omega arith) refl in
      rw (reads.reads_pgn, reads.reads_sa) refl

  -- A claim of another NAME for the address that a node holds.
  handle-held :
      (s : J1939) (n name : ℕ)
      → s.addr_valid ≡ true
      → n ≡ s.self_sa
      → name < 2 ^ 64
      → name ≢ s.self_name
      → handle_address_claimed order s n (order.put_le64 name)
        ≡ (if ltb name s.self_name then record s { addr_valid = false } else s)
  unfolding handle_address_claimed
  handle-held s n name v same fits other =
      let bytes = order.put_le64 name in
      let told : J1939 =
        if n == s.claim_candidate_sa && not s.addr_valid
        then record s { peer_seen = true; peer_name = order.get_le64 bytes }
        else s in
      let after : Bool → Bool → ℕ → J1939 = λ short own m.
        if short
        then s
        else if own
        then (if ltb m s.self_name then record s { addr_valid = false } else s)
        else told in
      ap
        (λ b.
          after b (n == s.self_sa && (s.addr_valid && not (order.get_le64 bytes == s.self_name)))
            (order.get_le64 bytes))
        (ap (λ l. ltb l 8) (order.length-put_le64 name))
      ∙ ap₂ (after false) own (order.get-put_le64 name fits)
    where
      own :
          (n == s.self_sa
            && (s.addr_valid && not (order.get_le64 (order.put_le64 name) == s.self_name)))
          ≡ true
      own =
          rw
            (same, ==_self s.self_sa, order.get-put_le64 name fits, ==_no name s.self_name other, v)
            refl

  -- Of two nodes that hold the same address, the one with the smaller NAME keeps it when the claim
  -- of the other comes, and the other one gives it up, so that exactly one has it.
  pub rx_frame-arbitration :
      (s t : J1939)
      → s.addr_valid ≡ true
      → t.addr_valid ≡ true
      → s.self_sa ≡ t.self_sa
      → s.self_sa < 256
      → t.self_name < 2 ^ 64
      → s.self_name < t.self_name
      → (rx_frame order s (claim_of t) ≡ (s, []))
        × (rx_frame order t (claim_of s) ≡ (record t { addr_valid = false }, []))
  rx_frame-arbitration s t u v same a b less = (
    rx_frame-claim s t (subst (λ n. n < 256) same a)
        ∙ ap (λ r. (r, []))
            (handle-held s t.self_sa t.self_name u (sym same) b (λ e. omega (arith, e, less))
              ∙ ap (λ c. if c then record s { addr_valid = false } else s)
                  (le→ltb_false t.self_name s.self_name (omega (arith, less)))),
    rx_frame-claim t s a
        ∙ ap (λ r. (r, []))
            (handle-held t s.self_sa s.self_name v same (omega (arith, b, less))
                (λ e. omega (arith, e, less))
              ∙ ap (λ c. if c then record t { addr_valid = false } else t)
                  (lt→ltb s.self_name t.self_name less)),
  )

  asked :
      (owner : J1939)
      → owner.addr_valid ≡ true
      → handle_request order owner owner.self_sa owner.self_sa claim_request
        ≡ sent (some (claim_of owner)) ∷ []
  unfolding handle_request
  asked owner v = rw (==_self owner.self_sa, v) (ap (λ f. sent f ∷ []) (claim_of-sent owner))

  answered :
      (owner : J1939)
      → owner.addr_valid ≡ true
      → owner.self_sa < 254
      → rx_frame order owner
          record { id = make_id 6 pgn_request owner.self_sa owner.self_sa; bytes = claim_request }
        ≡ (owner, sent (some (claim_of owner)) ∷ [])
  unfolding rx_frame handle_request
  answered owner v a =
      let (reads, da) =
        make_id-directed 6 pgn_request owner.self_sa owner.self_sa (omega arith) (omega arith) refl
          (omega (arith, a)) (omega (arith, a)) refl in
      rw (reads.reads_pgn, da) (ap (λ es. (owner, es)) (asked owner v))

  -- If a node holds an address and its NAME is smaller than that of a node without one that tries
  -- this address, its answer to the request that the other sends is a claim that makes it lose
  -- that round.
  pub claim_round-defended :
      (owner s : J1939)
      → owner.addr_valid ≡ true
      → owner.self_sa < 254
      → s.addr_valid ≡ false
      → owner.self_name < s.self_name
      → s.self_name < 2 ^ 64
      → let sa = owner.self_sa in
        let request : Frame = record { id = make_id 6 pgn_request sa sa; bytes = claim_request } in
        (rx_frame order owner request ≡ (owner, sent (some (claim_of owner)) ∷ []))
        × ((claim_round order s sa (record { sa = sa; bytes = (claim_of owner).bytes } ∷ [])).0
            ≡ true)
  claim_round-defended owner s v a u less fits = (
    answered owner v a,
    claim_round-lose order s owner.self_sa
          (record { sa = owner.self_sa; bytes = (claim_of owner).bytes } ∷ []) u
        ∙ is_taken_one order s.self_name owner.self_sa (order.put_le64 owner.self_name)
            owner.self_name (order.length-put_le64 owner.self_name)
            (order.get-put_le64 owner.self_name (omega (arith, less, fits)))
        ∙ lt→ltb owner.self_name s.self_name less,
  )
