-- ===== src/ModbusTcp/Clients.antt =====
-- The list of clients of modbus/tcp.c, and the rounds of its thread.
pub mod Accounts
use iot_zephyr_app.Base.{
  ℕ, suc, ◌+◌, ◌-◌, Bool, true, false, ◌&&◌, Option, none, some, List, [], ◌∷◌, ◌++◌, map,
  if◌then◌else◌, ltb, ◌==◌,
}
use iot_zephyr_app.ModbusTcp.{Net, Server, Rc, ok, handle_client}

-- `struct mb_client`, whose link is the order of the list.
pub record Client : Type 0 where
  pub fd : ℕ
  pub last_act : ℕ

-- `client_list` and `client_count`, and the sockets closed so far, the last one first.
pub record Clients : Type 0 where
  pub client_list : List Client
  pub client_count : ℕ
  pub closed : List ℕ

-- The list without the first node of this socket, if there is one.
pub unlink : ℕ → List Client → Option (List Client)
unlink fd [] = none
unlink fd (c ∷ cs) =
    let rest = unlink fd cs in
    if c.fd == fd then some cs else elim rest [ none ↦ none | some cs' ↦ some (c ∷ cs') ]

-- The count is that of the list, so it is not 0 where it is decremented.
pub client_remove : ℕ → Clients → Clients
unfolding unlink
client_remove fd s = elim (unlink fd s.client_list) [
  | none ↦ s
  | some cs ↦ record s {
    client_list = cs;
    client_count = s.client_count - 1;
    closed = fd ∷ s.closed;
  }
]

-- `allocated` tells whether k_malloc succeeds, `now` is the uptime.
pub client_add : ℕ → Bool → ℕ → Clients → Clients
client_add fd allocated now s =
    if allocated
    then record s {
      client_list = record { fd = fd; last_act = now } ∷ s.client_list;
      client_count = s.client_count + 1;
    }
    else record s { closed = fd ∷ s.closed }

-- `c->last_act = now`, for the node of a socket.
pub touch : ℕ → ℕ → List Client → List Client
touch fd now [] = []
touch fd now (c ∷ cs) =
    let rest = touch fd now cs in if c.fd == fd then record c { last_act = now } ∷ cs else c ∷ rest

abbrev pub fds : List Client → List ℕ
fds = map (λ c. c.fd)

-- What the calls of one pass of the thread's loop give: whether select finds something, which
-- sockets are readable, whether the listening one is, the link, accept, k_malloc, and the uptimes.
pub record Select : Type 0 where
  pub found : Bool
  pub readable : ℕ → Bool
  pub connecting : Bool
  pub link_up : Bool
  pub accepted : Option ℕ
  pub allocated : Bool
  pub accepted_at : ℕ
  pub ended_at : ℕ

-- The state of the thread: the server, its clients, and what is outside.
pub record Thread (W : Type 0) : Type 0 where
  pub server : Server
  pub clients : Clients
  pub outside : W

pub accept_client : Select → Clients → Clients
unfolding client_add
accept_client i s =
    if i.connecting && i.link_up
    then elim i.accepted [ none ↦ s | some fd ↦ client_add fd i.allocated i.accepted_at s ]
    else s

-- The loop over the clients of the list as it is when it starts, each once.
pub expire : ℕ → List Client → Clients → Clients
unfolding client_remove
expire now [] s = s
expire now (c ∷ cs) s =
    expire now cs (if ltb 60000 (now - c.last_act) then client_remove c.fd s else s)

-- What the result of a request does to its client: a failure ends the connection.
pub settle : Rc → ℕ → ℕ → Clients → Clients
unfolding client_remove touch
settle ok fd now s = record s { client_list = touch fd now s.client_list }
settle _ fd now s = client_remove fd s

module _ {W : Type 0} (net : Net W) where
  -- The request of a readable client; the uptime is read only if it succeeds.
  pub serve_client : ℕ → Thread W → Thread W
  unfolding handle_client settle
  serve_client fd t =
      let ((rc, s), w) = handle_client net t.outside t.server fd in
      let (now, w') = net.uptime w in
      record {
        server = s;
        clients = settle rc fd now t.clients;
        outside = elim rc [ ok ↦ w' | _ ↦ w ];
      }

  pub serve_ready : (ℕ → Bool) → List ℕ → Thread W → Thread W
  unfolding serve_client
  serve_ready readable [] t = t
  serve_ready readable (fd ∷ rest) t =
      serve_ready readable rest (if readable fd then serve_client fd t else t)

  -- What follows a select that finds something.
  pub on_ready : Select → Thread W → Thread W
  unfolding accept_client serve_ready
  on_ready i t =
      let joined = record t { clients = accept_client i t.clients } in
      serve_ready i.readable (fds joined.clients.client_list) joined

  -- One pass; `session_timeout` is CONFIG_IO_MODBUS_TCP_SESSION_TIMEOUT.
  pub round : Bool → Select → Thread W → Thread W
  unfolding on_ready expire
  round session_timeout i t =
      let t' = if i.found then on_ready i t else t in
      record t' {
        clients =
            if session_timeout
            then expire i.ended_at t'.clients.client_list t'.clients
            else t'.clients;
      }

  pub run : Bool → List Select → Thread W → Thread W
  unfolding round
  run session_timeout [] t = t
  run session_timeout (i ∷ is) t = run session_timeout is (round session_timeout i t)
