-- ===== src/J1939/Claim/Choice.antt =====
-- Which address j1939_claim_address takes.
use iot_zephyr_app.Base.{
  ℕ, zero, suc, ◌≤◌, ◌≡◌, refl, ap, ap₂, sym, ◌∙◌, subst, inl, inr, Bool, true, false, not, ◌&&◌,
  Bool-cases, Option, none, some, List, [], ◌∷◌, if◌then◌else◌, ltb, le→ltb_false, ◌==◌, ==_self,
  length,
}
use mathlib.Core.Bool.{true≢false}
use iot_zephyr_app.Zephyr.ByteOrder.{ByteOrder}
use iot_zephyr_app.J1939.{
  send_raw, pgn_address_claimed, sa_null, sa_global, Frame, J1939, handle_address_claimed,
}
use iot_zephyr_app.J1939.Claim.{
  Heard, Result, claimed, unavailable, listen, go_on, claim_frames, claim_round, claim_loop,
  claim_address, conclude,
}

-- What the state has seen of a peer.
abbrev seen : J1939 → Option ℕ
seen s = if s.peer_seen then some s.peer_name else none

and_no : (b : Bool) → (b && false) ≡ false
and_no true = refl
and_no false = refl

and_yes : (b : Bool) → (b && true) ≡ b
and_yes true = refl
and_yes false = refl

module _ (order : ByteOrder) where
  -- The NAME of the last whole claim of this address, or else the one given.
  abbrev pub last_name : ℕ → List Heard → Option ℕ → Option ℕ
  last_name sa [] before = before
  last_name sa (h ∷ hs) before = last_name sa hs (
      if ltb (length h.bytes) 8
      then before
      else if h.sa == sa
      then some (order.get_le64 h.bytes)
      else before)

  -- The last claim of the address has a smaller NAME.
  abbrev pub is_taken : ℕ → ℕ → List Heard → Bool
  is_taken self_name sa heard = elim (last_name sa heard none) [
    | none ↦ false
    | some name ↦ ltb name self_name
  ]

  pub is_taken_one :
      (self_name sa : ℕ) (bytes : List ℕ) (name : ℕ)
      → length bytes ≡ 8
      → order.get_le64 bytes ≡ name
      → is_taken self_name sa (record { sa = sa; bytes = bytes } ∷ []) ≡ ltb name self_name
  is_taken_one self_name sa bytes name e g = rw (is_taken, e, ==_self sa, g) refl

  -- The highest address, from this one down, that is not taken while it is tried.
  abbrev pub first_free : ℕ → (ℕ → List Heard) → ℕ → Option ℕ
  first_free self_name heard zero = if is_taken self_name 0 (heard 0) then none else some 0
  first_free self_name heard (suc sa) =
      if is_taken self_name (suc sa) (heard (suc sa))
      then first_free self_name heard sa
      else some (suc sa)

  -- What listening leaves of a node without an address that tries `sa`.
  record Listened (self_name sa : ℕ) (peer : Option ℕ) (s : J1939) : Type 0 where
    unclaimed : s.addr_valid ≡ false
    same_name : s.self_name ≡ self_name
    same_sa : s.claim_candidate_sa ≡ sa
    peer_is : seen s ≡ peer

  -- A node without an address notes a whole claim of the address that it tries.
  noted : J1939 → ℕ → List ℕ → J1939
  noted s n bytes =
      if ltb (length bytes) 8
      then s
      else if n == s.claim_candidate_sa
      then record s { peer_seen = true; peer_name = order.get_le64 bytes }
      else s

  handle-noted :
      (s : J1939) (n : ℕ) (bytes : List ℕ)
      → s.addr_valid ≡ false
      → handle_address_claimed order s n bytes ≡ noted s n bytes
  unfolding handle_address_claimed noted
  handle-noted s n bytes v =
      let name = order.get_le64 bytes in
      let kept : J1939 = if ltb name s.self_name then record s { addr_valid = false } else s in
      let told : J1939 = record s { peer_seen = true; peer_name = name } in
      let after : Bool → Bool → J1939 = λ own other.
        if ltb (length bytes) 8 then s else if own then kept else if other then told else s in
      ap
        (λ v.
          after (n == s.self_sa && (v && not (name == s.self_name)))
            (n == s.claim_candidate_sa && not v))
        v
      ∙ ap₂ after (and_no (n == s.self_sa)) (and_yes (n == s.claim_candidate_sa))

  noted-Listened :
      (self_name sa : ℕ) (peer : Option ℕ) (s : J1939) (h : Heard)
      → Listened self_name sa peer s
      → Listened self_name sa (last_name sa (h ∷ []) peer) (noted s h.sa h.bytes)
  unfolding noted
  noted-Listened self_name sa peer s h l = elim (Bool-cases (ltb (length h.bytes) 8)) [
    | inl e ↦ rw e l
    | inr e ↦ elim (Bool-cases (h.sa == sa)) [
      | inl q ↦
          rw (e, ap (λ c. h.sa == c) l.same_sa, q)
            record {
              unclaimed = l.unclaimed;
              same_name = l.same_name;
              same_sa = l.same_sa;
              peer_is = refl;
            }
      | inr q ↦ rw (e, ap (λ c. h.sa == c) l.same_sa, q) l
    ]
  ]

  handle-Listened :
      (self_name sa : ℕ) (peer : Option ℕ) (s : J1939) (h : Heard)
      → Listened self_name sa peer s
      → Listened self_name sa
          (last_name sa (h ∷ []) peer)
          (handle_address_claimed order s h.sa h.bytes)
  handle-Listened self_name sa peer s h l =
      subst (Listened self_name sa (last_name sa (h ∷ []) peer))
        (sym (handle-noted s h.sa h.bytes l.unclaimed)) (noted-Listened self_name sa peer s h l)

  listen-Listened :
      (self_name sa : ℕ) (peer : Option ℕ) (s : J1939) (heard : List Heard)
      → Listened self_name sa peer s
      → Listened self_name sa (last_name sa heard peer) (listen order heard s)
  unfolding listen
  listen-Listened self_name sa peer s [] l = l
  listen-Listened self_name sa peer s (h ∷ hs) l =
      listen-Listened self_name sa (last_name sa (h ∷ []) peer)
        (handle_address_claimed order s h.sa h.bytes) hs (handle-Listened self_name sa peer s h l)

  lose_of :
      (b : Bool) (p n : ℕ)
      → (b && ltb p n) ≡ elim (if b then some p else none) [ none ↦ false | some m ↦ ltb m n ]
  lose_of true p n = refl
  lose_of false p n = refl

  -- What a round does to a node without an address.
  record Round (s : J1939) (sa : ℕ) (heard : List Heard) (lose : Bool) (s' : J1939) : Type 0 where
    decided : lose ≡ is_taken s.self_name sa heard
    name_kept : s'.self_name ≡ s.self_name
    on_loss : lose ≡ true → s'.addr_valid ≡ false
    on_win : lose ≡ false → (s'.addr_valid ≡ true) × (s'.self_sa ≡ sa)

  claim_round-Round :
      (s : J1939) (sa : ℕ) (heard : List Heard)
      → s.addr_valid ≡ false
      → let (lose, s') = claim_round order s sa heard in Round s sa heard lose s'
  unfolding claim_round
  claim_round-Round s sa heard v =
      let start : J1939 = record s { claim_candidate_sa = sa; peer_seen = false } in
      let s' = listen order heard start in
      let l : Listened s.self_name sa (last_name sa heard none) s' =
        listen-Listened s.self_name sa none start heard
          record { unclaimed = v; same_name = refl; same_sa = refl; peer_is = refl } in
      let lose = s'.peer_seen && ltb s'.peer_name s'.self_name in
      record {
        decided =
            lose_of s'.peer_seen s'.peer_name s'.self_name
            ∙ ap₂ (λ (o : Option ℕ) n. elim o [ none ↦ false | some m ↦ ltb m n ]) l.peer_is
                l.same_name;
        name_kept = elim (Bool-cases lose) [ inl e ↦ rw e l.same_name | inr e ↦ rw e l.same_name ];
        on_loss = λ e. rw e l.unclaimed;
        on_win = λ e. rw e (refl, refl);
      }

  pub claim_round-lose :
      (s : J1939) (sa : ℕ) (heard : List Heard)
      → s.addr_valid ≡ false
      → (claim_round order s sa heard).0 ≡ is_taken s.self_name sa heard
  claim_round-lose s sa heard v = (claim_round-Round s sa heard v).decided

  -- How the loop ends, if this is the first free address.
  Ends : Option ℕ → Bool → J1939 → Type 0
  Ends none won s = (won ≡ false) × (s.addr_valid ≡ false)
  Ends (some sa) won s = (won ≡ true) × (s.addr_valid ≡ true) × (s.self_sa ≡ sa)

  last-Ends :
      (lose : Bool) (s : J1939)
      → (lose ≡ true → s.addr_valid ≡ false)
      → (lose ≡ false → (s.addr_valid ≡ true) × (s.self_sa ≡ 0))
      → Ends (if lose then none else some 0) (not lose) s
  unfolding Ends
  last-Ends true s l w = (refl, l refl)
  last-Ends false s l w = (refl, (w refl).0, (w refl).1)

  go_on-Ends :
      (lose : Bool) (s : J1939) (frames : List (Option Frame)) (sa : ℕ) (o : Option ℕ)
      → (later : Bool × J1939 × List (Option Frame))
      → (lose ≡ false → (s.addr_valid ≡ true) × (s.self_sa ≡ sa))
      → (lose ≡ true → Ends o later.0 later.1)
      → let (won, s', sent) = go_on order lose s frames later in
        Ends (if lose then o else some sa) won s'
  unfolding go_on Ends
  go_on-Ends true s frames sa o (won, s', later) w l = l refl
  go_on-Ends false s frames sa o later w l = (refl, (w refl).0, (w refl).1)

  -- A node without an address that tries those from `sa` down ends with the first free one, or
  -- with none.
  claim_loop-Ends :
      (sa : ℕ) (heard : ℕ → List Heard) (s : J1939)
      → s.addr_valid ≡ false
      → let (won, s', frames) = claim_loop order sa heard s in
        Ends (first_free s.self_name heard sa) won s'
  unfolding claim_loop
  claim_loop-Ends zero heard s v =
      let (lose, s') = claim_round order s 0 (heard 0) in
      let r = claim_round-Round s 0 (heard 0) v in
      subst (λ b. Ends (if b then none else some 0) (not lose) s') r.decided
        (last-Ends lose s' r.on_loss r.on_win)
  claim_loop-Ends (suc sa) heard s v =
      let (lose, s') = claim_round order s (suc sa) (heard (suc sa)) in
      let r = claim_round-Round s (suc sa) (heard (suc sa)) v in
      let later = claim_loop order sa heard s' in
      let frames = claim_frames order s (suc sa) in
      let o = first_free s.self_name heard sa in
      let (won, s'', sent) = go_on order lose s' frames later in
      subst (λ b. Ends (if b then o else some (suc sa)) won s'') r.decided
        (go_on-Ends lose s' frames (suc sa) o later r.on_win (λ e.
          subst (λ n. Ends (first_free n heard sa) later.0 later.1) r.name_kept
            (claim_loop-Ends sa heard s' (r.on_loss e))))

  -- The result and the address for the first free address, if there is one.
  pub Chosen : Option ℕ → Result × J1939 × List (Option Frame) → Type 0
  Chosen none (result, s, frames) = (result ≡ unavailable) × (s.addr_valid ≡ false)
  Chosen (some sa) (result, s, frames) =
      (result ≡ claimed) × (s.addr_valid ≡ true) × (s.self_sa ≡ sa)

  conclude-Chosen :
      (frame : Option Frame) (o : Option ℕ) (r : Bool × J1939 × List (Option Frame))
      → Ends o r.0 r.1
      → Chosen o (conclude order frame r)
  unfolding conclude Ends Chosen
  conclude-Chosen frame none (true, s, frames) e = absurd (true≢false e.0)
  conclude-Chosen frame none (false, s, frames) e = (refl, e.1)
  conclude-Chosen frame (some sa) (true, s, frames) e = (refl, e.1, e.2)
  conclude-Chosen frame (some sa) (false, s, frames) e = absurd (true≢false (sym e.0))

  -- A node without an address that may try addresses up to 253 claims the highest one, from the one
  -- it prefers downwards, whose last whole claim, while it is tried, has no smaller NAME than its
  -- own; if there is none, it ends without an address and says so.
  pub claim_address-Chosen :
      (preferred_sa : ℕ) (heard : ℕ → List Heard) (s : J1939)
      → preferred_sa ≤ 253
      → s.addr_valid ≡ false
      → Chosen
          (first_free s.self_name heard preferred_sa)
          (claim_address order preferred_sa heard s)
  unfolding claim_address
  claim_address-Chosen preferred_sa heard s h v = rw (le→ltb_false 253 preferred_sa h) (
      conclude-Chosen
        (send_raw 6 pgn_address_claimed sa_null sa_global (order.put_le64 s.self_name))
        (first_free s.self_name heard preferred_sa) (claim_loop order preferred_sa heard s)
        (claim_loop-Ends preferred_sa heard s v))
