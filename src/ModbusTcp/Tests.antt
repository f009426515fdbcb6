-- ===== src/ModbusTcp/Tests.antt =====
-- Concrete runs of modbus/tcp.c: sockets that give the bytes they hold, and a Modbus server whose
-- answers are given beforehand.
use iot_zephyr_app.Base.{
  ℕ, ◌+◌, ◌*◌, ◌-◌, ◌/◌, ◌%◌, ◌≤◌, ◌≡◌, refl, true, false, none, some, List, [], ◌∷◌, ◌++◌, bit_or,
  length, get_or, take, drop, length-take, ◌==◌, subst, ap, arith,
}
use mathlib.Core.List.{Perm}
use iot_zephyr_app.ModbusTcp.{fc_supported, Adu, Net, Server, read_adu, request, reply, serve}
use iot_zephyr_app.ModbusTcp.Buffers.{IsBounded}
use iot_zephyr_app.ModbusTcp.Replies.{
  EchoesFrame, KeepsHeader, request-Echoes, serve_answered, serve_stale,
}
use iot_zephyr_app.ModbusTcp.Clients.{Select, Thread, run}
use iot_zephyr_app.ModbusTcp.Clients.Accounts.{sockets, opened_all, run-sockets_perm}

record World : Type 0 where
  incoming : List ℕ
  answers : List (List Adu)

abbrev word : List ℕ → ℕ → ℕ
word bs i = get_or bs i 0 * 256 + get_or bs (i + 1) 0

abbrev parse : List ℕ → Adu
parse bs = record {
  trans_id = word bs 0;
  proto_id = word bs 2;
  len = word bs 4 - 2;
  unit_id = get_or bs 6 0;
  fc = get_or bs 7 0;
  data_bytes = [];
}

abbrev print : Adu → List ℕ
print adu =
    adu.trans_id / 256
    ∷ adu.trans_id % 256
    ∷ 0
    ∷ 0
    ∷ (adu.len + 2) / 256
    ∷ (adu.len + 2) % 256
    ∷ adu.unit_id
    ∷ adu.fc
    ∷ []

abbrev net : Net World
net = record {
  data_size = 252;
  get_header = parse;
  put_header = print;
  set_server_failure = λ adu. record adu { fc = bit_or adu.fc 0x80; data_bytes = 4 ∷ []; len = 1 };
  submit_rx = λ w adu. (true, w);
  arrivals = λ w. (w.answers, w);
  recv = λ w sock n. (some (take n w.incoming), record w { incoming = drop n w.incoming });
  send = λ w sock bytes. (true, w);
  uptime = λ w. (0, w);
}

-- Read two holding registers, transaction 7, unit 9.
abbrev frame : List ℕ
frame = 0 ∷ 7 ∷ 0 ∷ 0 ∷ 0 ∷ 6 ∷ 9 ∷ 3 ∷ 0 ∷ 0 ∷ 0 ∷ 2 ∷ []

abbrev req : Adu
req = record (parse frame) { data_bytes = 0 ∷ 0 ∷ 0 ∷ 2 ∷ [] }

-- The answer of the server, which is unit 1.
abbrev answer_7 : Adu
answer_7 = record {
  trans_id = 7;
  proto_id = 0;
  len = 5;
  unit_id = 1;
  fc = 3;
  data_bytes = 4 ∷ 0 ∷ 1 ∷ 0 ∷ 2 ∷ [];
}

abbrev answer_6 : Adu
answer_6 = record answer_7 { trans_id = 6 }

abbrev server : Server
server = record { server_iface = some 0; srv_unit_id = 1; g_resp = answer_6; g_resp_sem = false }

abbrev answering : List (List Adu) → World
answering answers = record { incoming = frame; answers = answers }

net-KeepsHeader : KeepsHeader net
net-KeepsHeader adu = (refl, refl)

some_inj : {a b : List ℕ} → some a ≡ some b → a ≡ b
some_inj e = ap (λ o. elim o [ none ↦ [] | some x ↦ x ]) e

net-IsBounded : IsBounded net
net-IsBounded w sock n bs e =
    subst (λ l. length l ≤ n) (some_inj e) (omega (arith, length-take n w.incoming))

test_request :
    (request net (answering ((answer_7 ∷ []) ∷ [])) server 5).0.0
    ≡ reply (record answer_7 { unit_id = 9 })
unfolding request
test_request = refl

test_silent :
    (request net (answering []) server 5).0.0
    ≡ reply (record req { fc = 0x83; data_bytes = 4 ∷ []; len = 1 })
unfolding request
test_silent = refl

request-Echoes_example :
    EchoesFrame
      (read_adu net (answering ((answer_6 ∷ []) ∷ (answer_7 ∷ []) ∷ [])) 5).0
      (request net (answering ((answer_6 ∷ []) ∷ (answer_7 ∷ []) ∷ [])) server 5).0.0
request-Echoes_example =
    request-Echoes net net-KeepsHeader (answering ((answer_6 ∷ []) ∷ (answer_7 ∷ []) ∷ [])) server 5

abbrev broadcast : Adu
broadcast = record req { unit_id = 0; fc = 6 }

serve_answered_example :
    (serve net (answering ((answer_6 ∷ []) ∷ (answer_7 ∷ []) ∷ [])) server req).0.0
    ≡ reply (record answer_7 { unit_id = 9 })
unfolding fc_supported
serve_answered_example =
    serve_answered net (answering ((answer_6 ∷ []) ∷ (answer_7 ∷ []) ∷ [])) server req answer_7
      (answer_6 ∷ []) [] refl (omega arith) (λ e. omega (arith, e)) refl refl
      ((λ e. omega (arith, e)), tt) refl

-- A request of transaction 6, which the answer to an earlier one still has.
abbrev req_6 : Adu
req_6 = record req { trans_id = 6 }

serve_stale_example :
    (serve net (answering []) server req_6).0.0 ≡ reply (record answer_6 { unit_id = 9 })
unfolding fc_supported
serve_stale_example =
    serve_stale net (answering []) server req_6 refl (omega arith) (λ e. omega (arith, e)) refl refl
      refl

abbrev idle : Thread World
idle = record {
  server = server;
  clients = record { client_list = []; client_count = 0; closed = [] };
  outside = answering [];
}

abbrev passes : List Select
passes =
    record {
      found = true;
      readable = λ fd. false;
      connecting = true;
      link_up = true;
      accepted = some 4;
      allocated = true;
      accepted_at = 10;
      ended_at = 11;
    }
    ∷ record {
      found = true;
      readable = λ fd. fd == 4;
      connecting = true;
      link_up = true;
      accepted = some 5;
      allocated = false;
      accepted_at = 20;
      ended_at = 21;
    }
    ∷ []

run-sockets_perm_example :
    Perm (sockets (run net false passes idle).clients) (opened_all passes ++ sockets idle.clients)
run-sockets_perm_example = run-sockets_perm net false passes idle
