-- ===== src/ModbusTcp/Replies.antt =====
-- What a client of modbus/tcp.c is answered: whose transaction and unit a reply names, broadcasts,
-- the wait for the server among late answers, and the reply to a request that was not answered.
use iot_zephyr_app.Base.{
  ◌∙◌, ℕ, ◌≡◌, ◌≢◌, refl, ap, true, false, List, [], ◌∷◌, ◌++◌, map, inl, inr, Bool-cases,
  if◌then◌else◌, ltb, ◌==◌, ◌≤◌, ==_iff, ==_self, ==_no, le→ltb_false, All, arith,
}
use iot_zephyr_app.ModbusTcp.{
  readdress, Adu, Net, Server, ok, eio, Outcome, returns, reply, Frame, unread, bad, whole,
  fc_supported, deliver, wait_response, server_raw_cb, answer, read_adu, serve, respond, request,
}

-- A reply names the transaction and the unit of this request.
pub Echoes : Adu → Outcome → Type 0
Echoes req (returns rc) = Unit
Echoes req (reply adu) = (adu.trans_id ≡ req.trans_id) × (adu.unit_id ≡ req.unit_id)

-- The same for what was read; what could not be read is not answered.
pub EchoesFrame : Frame → Outcome → Type 0
unfolding Echoes
EchoesFrame (unread rc) outcome = outcome ≡ returns rc
EchoesFrame (bad req) outcome = Echoes req outcome
EchoesFrame (whole req) outcome = Echoes req outcome

readdress_broadcast : (n : ℕ) (req : Adu) → req.unit_id ≡ 0 → readdress n req ≡ req
readdress_broadcast n req z = ap (λ u. record req { unit_id = u }) (ground arith)

wait_response_end :
    (n : ℕ) (s : Server) → (wait_response [] n (record s { g_resp_sem = false })).g_resp ≡ s.g_resp
unfolding wait_response
wait_response_end n s = refl

-- One answer to another transaction is passed over, one to this transaction ends the wait.
wait_response_stale :
    (stale : List Adu) (adu : Adu) (rest : List (List Adu)) (n : ℕ) (s : Server)
    → All (λ a. a.trans_id ≢ n) stale
    → adu.trans_id ≡ n
    → (wait_response (map (λ a. a ∷ []) stale ++ ((adu ∷ []) ∷ rest)) n s).g_resp ≡ adu
unfolding wait_response deliver server_raw_cb
wait_response_stale [] adu rest n s other own = rw (own, ==_self n) refl
wait_response_stale (a ∷ stale) adu rest n s other own =
    rw (==_no a.trans_id n other.0) (
      wait_response_stale stale adu rest n (record s { g_resp = a; g_resp_sem = false }) other.1
        own)

module _ {W : Type 0} (net : Net W) where
  -- What the code relies on of modbus_raw_set_server_failure.
  abbrev pub KeepsHeader : Type 0
  KeepsHeader =
      (adu : Adu)
      → ((net.set_server_failure adu).trans_id ≡ adu.trans_id)
        × ((net.set_server_failure adu).unit_id ≡ adu.unit_id)

  answer-Echoes :
      KeepsHeader
      → (req req' : Adu) (s : Server) → req'.trans_id ≡ req.trans_id
      → Echoes req (answer net req' req.unit_id s).0
  unfolding answer Echoes
  answer-Echoes keeps req req' s e = elim (Bool-cases (s.g_resp.trans_id == req'.trans_id)) [
    | inl t ↦ rw t (ground (arith, ==_iff s.g_resp.trans_id req'.trans_id, e), refl)
    | inr t ↦ rw t (ground (arith, (keeps req').0, e), refl)
  ]

  -- The server once the wait for its answer has ended.
  abbrev pub awaited : W → Server → Adu → Server
  awaited w s req =
      let (accepted, w') = net.submit_rx w (readdress s.srv_unit_id req) in
      wait_response (net.arrivals w').0 req.trans_id (record s { g_resp_sem = false })

  answer_own :
      (req : Adu) (orig_unit_id : ℕ) (s : Server)
      → s.g_resp.trans_id ≡ req.trans_id
      → (answer net req orig_unit_id s).0 ≡ reply (record s.g_resp { unit_id = orig_unit_id })
  unfolding answer
  answer_own req orig_unit_id s e = rw (e, ==_self req.trans_id) refl

  -- A request that is submitted and is no broadcast.
  serve-awaited :
      (w : W) (s : Server) (req : Adu)
      → fc_supported req.fc ≡ true
      → ltb req.len 2 ≡ false
      → (net.submit_rx w (readdress s.srv_unit_id req)).0 ≡ true
      → (req.unit_id == 0) ≡ false
      → (serve net w s req).0
        ≡ answer net (readdress s.srv_unit_id req) req.unit_id (awaited w s req)
  unfolding serve
  serve-awaited w s req f l a z = rw (f, l, a, z) refl

  serve-Echoes : KeepsHeader → (w : W) (s : Server) (req : Adu) → Echoes req (serve net w s req).0.0
  unfolding serve Echoes
  serve-Echoes keeps w s req = elim (Bool-cases (fc_supported req.fc)) [
    | inr f ↦ rw f (refl, refl)
    | inl f ↦ elim (Bool-cases (ltb req.len 2)) [
      | inl l ↦ rw (f, l) tt
      | inr l ↦ elim (Bool-cases (net.submit_rx w (readdress s.srv_unit_id req)).0) [
        | inr a ↦ rw (f, l, a) tt
        | inl a ↦ elim (Bool-cases (req.unit_id == 0)) [
          | inl z ↦ rw (f, l, a, z) tt
          | inr z ↦
              rw (serve-awaited w s req f l a z)
                (answer-Echoes keeps req (readdress s.srv_unit_id req) (awaited w s req) refl)
        ]
      ]
    ]
  ]

  read-Echoes :
      KeepsHeader
      → (frame : Frame) (w : W) (s : Server) → EchoesFrame frame (respond net frame w s).0.0
  unfolding respond EchoesFrame Echoes
  read-Echoes keeps (unread rc) w s = refl
  read-Echoes keeps (bad req) w s = keeps req
  read-Echoes keeps (whole req) w s = serve-Echoes keeps w s req

  -- If modbus_raw_set_server_failure keeps the transaction and the unit, every reply to a request
  -- names the transaction and the unit of that request, in whatever state the last request has left
  -- the server and whatever answers arrive; what could not be read is not answered.
  pub request-Echoes :
      KeepsHeader
      → (w : W) (s : Server) (client : ℕ)
      → EchoesFrame (read_adu net w client).0 (request net w s client).0.0
  unfolding request
  request-Echoes keeps w s client =
      read-Echoes keeps (read_adu net w client).0 (read_adu net w client).1 s

  -- A broadcast of a supported function with at least two bytes is submitted, with the unit 0, and
  -- never answered; the code fails only if it is not accepted.
  pub serve_broadcast :
      (w : W) (s : Server) (req : Adu)
      → req.unit_id ≡ 0
      → fc_supported req.fc ≡ true
      → 2 ≤ req.len
      → let (accepted, w') = net.submit_rx w req in
        serve net w s req
        ≡ ((returns (if accepted then ok else eio), record s { g_resp_sem = false }), w')
  unfolding serve
  serve_broadcast w s req z f l = elim (Bool-cases (net.submit_rx w req).0) [
    | inl a ↦ rw (readdress_broadcast s.srv_unit_id req z, f, le→ltb_false req.len 2 l, a, z) refl
    | inr a ↦ rw (readdress_broadcast s.srv_unit_id req z, f, le→ltb_false req.len 2 l, a) refl
  ]

  -- A request is answered with what the server makes of it, under the unit that the client has
  -- named, if the server accepts it and hands over that answer, in a wait of its own, after any
  -- number of answers to other transactions.
  pub serve_answered :
      (w : W) (s : Server) (req adu : Adu) (stale : List Adu) (rest : List (List Adu))
      → fc_supported req.fc ≡ true
      → 2 ≤ req.len
      → req.unit_id ≢ 0
      → let (accepted, w') = net.submit_rx w (readdress s.srv_unit_id req) in
        accepted ≡ true
        → (net.arrivals w').0 ≡ map (λ a. a ∷ []) stale ++ ((adu ∷ []) ∷ rest)
        → All (λ a. a.trans_id ≢ req.trans_id) stale
        → adu.trans_id ≡ req.trans_id
        → (serve net w s req).0.0 ≡ reply (record adu { unit_id = req.unit_id })
  serve_answered w s req adu stale rest f l z a arrive other own =
      ap (λ r. r.0) (serve-awaited w s req f (le→ltb_false req.len 2 l) a (==_no req.unit_id 0 z))
      ∙ answer_own (readdress s.srv_unit_id req) req.unit_id (awaited w s req)
          (ap (λ g. g.trans_id) now ∙ own)
      ∙ ap (λ g. reply (record g { unit_id = req.unit_id })) now
    where
      now : (awaited w s req).g_resp ≡ adu
      now =
          ap
            (λ rounds. (wait_response rounds req.trans_id (record s { g_resp_sem = false })).g_resp)
            arrive
          ∙ wait_response_stale stale adu rest req.trans_id (record s { g_resp_sem = false }) other
              own

  -- A request that the server accepts and does not answer is answered with whatever is left of an
  -- earlier transaction, if that had the same identifier.
  pub serve_stale :
      (w : W) (s : Server) (req : Adu)
      → fc_supported req.fc ≡ true
      → 2 ≤ req.len
      → req.unit_id ≢ 0
      → let (accepted, w') = net.submit_rx w (readdress s.srv_unit_id req) in
        accepted ≡ true
        → (net.arrivals w').0 ≡ []
        → s.g_resp.trans_id ≡ req.trans_id
        → (serve net w s req).0.0 ≡ reply (record s.g_resp { unit_id = req.unit_id })
  serve_stale w s req f l z a silent same =
      ap (λ r. r.0) (serve-awaited w s req f (le→ltb_false req.len 2 l) a (==_no req.unit_id 0 z))
      ∙ answer_own (readdress s.srv_unit_id req) req.unit_id (awaited w s req)
          (ap (λ g. g.trans_id) now ∙ same)
      ∙ ap (λ g. reply (record g { unit_id = req.unit_id })) now
    where
      now : (awaited w s req).g_resp ≡ s.g_resp
      now =
          ap
            (λ rounds. (wait_response rounds req.trans_id (record s { g_resp_sem = false })).g_resp)
            silent
          ∙ wait_response_end req.trans_id s
