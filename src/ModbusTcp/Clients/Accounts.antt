-- ===== src/ModbusTcp/Clients/Accounts.antt =====
-- The sockets of modbus/tcp.c: each one that is accepted is either a client's or closed, once.
use iot_zephyr_app.Base.{
  append_assoc, ℕ, suc, ◌-◌, ◌≡◌, refl, ap, sym, inl, inr, Bool-cases, Option-cases, Bool, true,
  false, ◌&&◌, Option, none, some, List, [], ◌∷◌, ◌++◌, if◌then◌else◌, ltb, ◌==◌, ==_iff, length,
  subst, arith,
}
use mathlib.Core.List.Perm
use mathlib.Core.List.{Perm, perm_middle}
use iot_zephyr_app.ModbusTcp.{
  Net, Rc, ok, enodev, enotconn, eio, send_error, init_error, handle_client,
}
use iot_zephyr_app.ModbusTcp.Clients.{
  Client, Clients, Select, Thread, fds, unlink, client_remove, client_add, touch, accept_client,
  expire, settle, serve_client, serve_ready, on_ready, round, run,
}

-- The sockets of the clients and those that were closed.
abbrev pub sockets : Clients → List ℕ
sockets s = fds s.client_list ++ s.closed

-- The counter is the number of nodes.
abbrev pub IsCounted : Clients → Type 0
IsCounted s = s.client_count ≡ length s.client_list

-- What a change of the clients keeps, if `opened` were accepted meanwhile.
Kept : List ℕ → Clients → Clients → Type 0
Kept opened s s' = Perm (sockets s') (opened ++ sockets s) × (IsCounted s → IsCounted s')

Kept-trans :
    (opened : List ℕ) (s s' s'' : Clients) → Kept opened s s' → Kept [] s' s'' → Kept opened s s''
unfolding Kept
Kept-trans opened s s' s'' k l = (Perm.trans l.0 k.0, λ c. l.1 (k.1 c))

-- Two changes, of which the second takes `more`.
Kept-after :
    (opened more : List ℕ) (s s' s'' : Clients)
    → Kept opened s s'
    → Kept more s' s''
    → Kept (more ++ opened) s s''
unfolding Kept
Kept-after opened more s s' s'' k l = (
  Perm.trans l.0 (
      subst (Perm (more ++ sockets s')) (sym (append_assoc more opened (sockets s)))
        (Perm.append_left more k.0)),
  λ c. l.1 (k.1 c),
)

Kept-refl : (s : Clients) → Kept [] s s
unfolding Kept
Kept-refl s = (Perm.rfl, λ c. c)

Unlinked : ℕ → List Client → Option (List Client) → Type 0
Unlinked fd cs none = Unit
Unlinked fd cs (some cs') = Perm (fds cs) (fd ∷ fds cs') × (length cs ≡ suc (length cs'))

Unlinked-behind :
    (fd : ℕ) (c : Client) (cs : List Client) (out : Option (List Client))
    → Unlinked fd cs out
    → Unlinked fd (c ∷ cs) (elim out [ none ↦ none | some cs' ↦ some (c ∷ cs') ])
unfolding Unlinked
Unlinked-behind fd c cs none u = tt
Unlinked-behind fd c cs (some cs') u =
    (Perm.trans (Perm.cons c.fd u.0) (Perm.swap fd c.fd (fds cs')), ap suc u.1)

unlink-Unlinked : (fd : ℕ) (cs : List Client) → Unlinked fd cs (unlink fd cs)
unfolding unlink Unlinked
unlink-Unlinked fd [] = tt
unlink-Unlinked fd (c ∷ cs) = elim (Bool-cases (c.fd == fd)) [
  | inl e ↦
      rw e (subst (λ n. Perm (c.fd ∷ fds cs) (n ∷ fds cs)) ((==_iff c.fd fd).0 e) Perm.rfl, refl)
  | inr e ↦ rw e (Unlinked-behind fd c cs (unlink fd cs) (unlink-Unlinked fd cs))
]

unlinked : (fd : ℕ) (cs cs' : List Client) → unlink fd cs ≡ some cs' → Unlinked fd cs (some cs')
unlinked fd cs cs' e = subst (Unlinked fd cs) e (unlink-Unlinked fd cs)

client_remove-Kept : (fd : ℕ) (s : Clients) → Kept [] s (client_remove fd s)
unfolding client_remove Kept Unlinked
client_remove-Kept fd s = elim (Option-cases (unlink fd s.client_list)) [
  | inl e ↦ rw (e, client_remove) (Kept-refl s)
  | inr (cs, e) ↦
      rw (e, client_remove)
        (
          Perm.trans (perm_middle (fds cs) s.closed)
              (Perm.symm (Perm.append_right s.closed ((unlinked fd s.client_list cs e).0))),
          λ c. omega (arith, c, (unlinked fd s.client_list cs e).1),
        )
]

client_add-Kept :
    (fd : ℕ) (allocated : Bool) (now : ℕ) (s : Clients)
    → Kept (fd ∷ []) s (client_add fd allocated now s)
unfolding client_add Kept
client_add-Kept fd true now s = (Perm.rfl, λ c. omega (arith, c))
client_add-Kept fd false now s = (perm_middle (fds s.client_list) s.closed, λ c. c)

touch-fds :
    (fd now : ℕ) (cs : List Client)
    → (fds (touch fd now cs) ≡ fds cs) × (length (touch fd now cs) ≡ length cs)
unfolding touch
touch-fds fd now [] = (refl, refl)
touch-fds fd now (c ∷ cs) = elim (Bool-cases (c.fd == fd)) [
  | inl e ↦ rw e (refl, refl)
  | inr e ↦ rw e (ap (◌∷◌ c.fd) (touch-fds fd now cs).0, ap suc (touch-fds fd now cs).1)
]

settle-Kept : (rc : Rc) (fd now : ℕ) (s : Clients) → Kept [] s (settle rc fd now s)
unfolding settle Kept
settle-Kept ok fd now s = (
  subst (λ l. Perm (l ++ s.closed) (sockets s)) (sym (touch-fds fd now s.client_list).0) Perm.rfl,
  λ c. omega (arith, c, (touch-fds fd now s.client_list).1),
)
settle-Kept enodev fd now s = client_remove-Kept fd s
settle-Kept enotconn fd now s = client_remove-Kept fd s
settle-Kept eio fd now s = client_remove-Kept fd s
settle-Kept send_error fd now s = client_remove-Kept fd s
settle-Kept init_error fd now s = client_remove-Kept fd s

Kept-if :
    (opened : List ℕ) (s a b : Clients) (test : Bool)
    → Kept opened s a
    → Kept opened s b
    → Kept opened s (if test then a else b)
Kept-if opened s a b true k l = k
Kept-if opened s a b false k l = l

expire-Kept : (now : ℕ) (cs : List Client) (s : Clients) → Kept [] s (expire now cs s)
unfolding expire
expire-Kept now [] s = Kept-refl s
expire-Kept now (c ∷ cs) s =
    let old = ltb 60000 (now - c.last_act) in
    let s' = if old then client_remove c.fd s else s in
    Kept-trans [] s s' (expire now cs s')
      (Kept-if [] s (client_remove c.fd s) s old (client_remove-Kept c.fd s) (Kept-refl s))
      (expire-Kept now cs s')

-- The socket that the accept of a pass gives, if it is called.
abbrev pub accepted : Select → List ℕ
accepted i =
    if i.connecting && i.link_up then elim i.accepted [ none ↦ [] | some fd ↦ fd ∷ [] ] else []

abbrev pub opened : Select → List ℕ
opened i = if i.found then accepted i else []

-- Those of many passes, the last one first.
pub opened_all : List Select → List ℕ
opened_all [] = []
opened_all (i ∷ is) = opened_all is ++ opened i

accept_client-Kept : (i : Select) (s : Clients) → Kept (accepted i) s (accept_client i s)
unfolding accept_client
accept_client-Kept i s = elim (Bool-cases (i.connecting && i.link_up)) [
  | inr e ↦ rw e (Kept-refl s)
  | inl e ↦ elim (Option-cases i.accepted) [
    | inl n ↦ rw (e, n) (Kept-refl s)
    | inr (fd, n) ↦ rw (e, n) (client_add-Kept fd i.allocated i.accepted_at s)
  ]
]

module _ {W : Type 0} (net : Net W) where
  serve_if-Kept :
      (test : Bool) (fd : ℕ) (t : Thread W)
      → Kept [] t.clients (if test then serve_client net fd t else t).clients
  unfolding serve_client
  serve_if-Kept true fd t =
      let ((rc, s), w) = handle_client net t.outside t.server fd in
      settle-Kept rc fd (net.uptime w).0 t.clients
  serve_if-Kept false fd t = Kept-refl t.clients

  serve_ready-Kept :
      (readable : ℕ → Bool) (ready : List ℕ) (t : Thread W)
      → Kept [] t.clients (serve_ready net readable ready t).clients
  unfolding serve_ready Kept
  serve_ready-Kept readable [] t = Kept-refl t.clients
  serve_ready-Kept readable (fd ∷ ready) t =
      let t' = if readable fd then serve_client net fd t else t in
      Kept-trans [] t.clients t'.clients (serve_ready net readable ready t').clients
        (serve_if-Kept (readable fd) fd t) (serve_ready-Kept readable ready t')

  on_ready-Kept :
      (i : Select) (t : Thread W)
      → Kept (opened i) t.clients (if i.found then on_ready net i t else t).clients
  unfolding on_ready
  on_ready-Kept i t = elim (Bool-cases i.found) [
    | inr e ↦ rw e (Kept-refl t.clients)
    | inl e ↦
        let joined = record t { clients = accept_client i t.clients } in
        rw e (
          Kept-trans (accepted i) t.clients joined.clients
            (serve_ready net i.readable (fds joined.clients.client_list) joined).clients
            (accept_client-Kept i t.clients)
            (serve_ready-Kept i.readable (fds joined.clients.client_list) joined))
  ]

  round-Kept :
      (session_timeout : Bool) (i : Select) (t : Thread W)
      → Kept (opened i) t.clients (round net session_timeout i t).clients
  unfolding round
  round-Kept session_timeout i t =
      let s = (if i.found then on_ready net i t else t).clients in
      let s' = expire i.ended_at s.client_list s in
      Kept-trans (opened i) t.clients s (if session_timeout then s' else s) (on_ready-Kept i t)
        (Kept-if [] s s' s session_timeout (expire-Kept i.ended_at s.client_list s) (Kept-refl s))

  run-Kept :
      (session_timeout : Bool) (is : List Select) (t : Thread W)
      → Kept (opened_all is) t.clients (run net session_timeout is t).clients
  unfolding run opened_all
  run-Kept session_timeout [] t = Kept-refl t.clients
  run-Kept session_timeout (i ∷ is) t =
      let t' = round net session_timeout i t in
      Kept-after (opened i) (opened_all is) t.clients t'.clients
        (run net session_timeout is t').clients (round-Kept session_timeout i t)
        (run-Kept session_timeout is t')

  -- After any passes, whatever clients send and however their requests end, the sockets of the
  -- clients and those that were closed are, counted with multiplicity, those there were before
  -- and those that accept has given since: none is lost, and none is closed twice.
  pub run-sockets_perm :
      (session_timeout : Bool) (is : List Select) (t : Thread W)
      → Perm (sockets (run net session_timeout is t).clients) (opened_all is ++ sockets t.clients)
  unfolding Kept
  run-sockets_perm session_timeout is t = (run-Kept session_timeout is t).0

  -- The counter of clients stays the length of their list in every pass.
  pub run-IsCounted :
      (session_timeout : Bool) (is : List Select) (t : Thread W)
      → IsCounted t.clients
      → IsCounted (run net session_timeout is t).clients
  unfolding Kept
  run-IsCounted session_timeout is t = (run-Kept session_timeout is t).1
