-- ===== src/J1939.antt =====
-- examples/j1939-demo/src/j1939.h and j1939.c: identifiers, NAMEs, sending, and the dispatch of
-- frames. A callback is a number; `none` is an error code of a send.
pub mod Ids
pub mod Names
pub mod Claim
pub mod Transport
mod Tests
use iot_zephyr_app.Base.{
  ℕ, ◌+◌, ◌*◌, ◌/◌, ◌^◌, Bool, true, false, not, ◌&&◌, ◌||◌, Option, none, some, List, [], ◌∷◌,
  ◌++◌, bit_and, bit_or, if◌then◌else◌, ltb, leb, ◌==◌, length, get_or, u8,
}
use iot_zephyr_app.Zephyr.ByteOrder.{ByteOrder}

abbrev pub pgn_request : ℕ
pgn_request = 59904

abbrev pub pgn_tp_dt : ℕ
pgn_tp_dt = 60160

abbrev pub pgn_tp_cm : ℕ
pgn_tp_cm = 60416

abbrev pub pgn_address_claimed : ℕ
pgn_address_claimed = 60928

abbrev pub sa_null : ℕ
sa_null = 254

abbrev pub sa_global : ℕ
sa_global = 255

abbrev pub pgn_is_pdu2 : ℕ → Bool
pgn_is_pdu2 pgn = leb 0xF0 (bit_and (pgn / 2 ^ 8) 0xFF)

pub make_id : ℕ → ℕ → ℕ → ℕ → ℕ
make_id prio pgn sa da =
    let id = bit_or (bit_or (bit_and prio 0x07 * 2 ^ 26) (bit_and pgn 0x3FFFF * 2 ^ 8)) sa in
    if pgn_is_pdu2 pgn then id else bit_or id (da * 2 ^ 8)

pub id_to_priority : ℕ → ℕ
id_to_priority can_id = u8 (bit_and (can_id / 2 ^ 26) 0x07)

pub id_to_sa : ℕ → ℕ
id_to_sa can_id = u8 (bit_and can_id 0xFF)

pub id_to_da : ℕ → ℕ
id_to_da can_id = u8 (bit_and (can_id / 2 ^ 8) 0xFF)

pub id_to_pgn : ℕ → ℕ
id_to_pgn can_id =
    if leb 0xF0 (u8 (bit_and (can_id / 2 ^ 16) 0xFF))
    then bit_and (can_id / 2 ^ 8) 0x3FFFF
    else bit_and (can_id / 2 ^ 8) 0x3FF00

pub record Name : Type 0 where
  pub ecu_instance : ℕ
  pub function_instance : ℕ
  pub function : ℕ
  pub vehicle_system : ℕ
  pub vehicle_system_instance : ℕ
  pub industry_group : ℕ
  pub manufacturer_code : ℕ
  pub identity_number : ℕ

pub name_pack : Name → ℕ
name_pack n =
    bit_or
      (bit_or
        (bit_or
          (bit_or
            (bit_or
              (bit_or
                (bit_or (bit_and n.ecu_instance 0x07) (bit_and n.function_instance 0x1F * 2 ^ 3))
                (n.function * 2 ^ 8))
              (bit_and n.vehicle_system 0x7F * 2 ^ 17))
            (bit_and n.vehicle_system_instance 0x0F * 2 ^ 24))
          (bit_and n.industry_group 0x07 * 2 ^ 28))
        (bit_and n.identity_number 0x1FFFFF * 2 ^ 32))
      (bit_and n.manufacturer_code 0x7FF * 2 ^ 53)

-- `struct can_frame`: the identifier and the bytes that dlc counts.
pub record Frame : Type 0 where
  pub id : ℕ
  pub bytes : List ℕ

-- The static variables of the file.
pub record J1939 : Type 0 where
  pub self_name : ℕ
  pub self_sa : ℕ
  pub addr_valid : Bool
  pub claim_candidate_sa : ℕ
  pub peer_seen : Bool
  pub peer_name : ℕ
  pub handlers : List (Option (ℕ × ℕ))
  pub request_handler : Option ℕ

-- The frame that is sent, if it fits.
pub send_raw : ℕ → ℕ → ℕ → ℕ → List ℕ → Option Frame
unfolding make_id
send_raw prio pgn sa da data_bytes =
    if ltb 8 (length data_bytes)
    then none
    else some record { id = make_id prio pgn sa da; bytes = data_bytes }

pub send : J1939 → ℕ → ℕ → ℕ → List ℕ → Option Frame
unfolding send_raw
send s prio pgn da data_bytes =
    if s.addr_valid then send_raw prio pgn s.self_sa da data_bytes else none

-- What the receive thread does with a frame.
pub data Effect : Type 0 where
  sent : Option Frame → Effect
  requested : ℕ → ℕ → ℕ → Effect
  handled : ℕ → ℕ → ℕ → ℕ → ℕ → List ℕ → Effect

-- Whether the address is lost, and whether another owner is seen.
pub handle_address_claimed : ByteOrder → J1939 → ℕ → List ℕ → J1939
handle_address_claimed order s sa data_bytes =
    let name = order.get_le64 data_bytes in
    if ltb (length data_bytes) 8
    then s
    else if sa == s.self_sa && (s.addr_valid && not (name == s.self_name))
    then (if ltb name s.self_name then record s { addr_valid = false } else s)
    else if sa == s.claim_candidate_sa && not s.addr_valid
    then record s { peer_seen = true; peer_name = name }
    else s

pub handle_request : ByteOrder → J1939 → ℕ → ℕ → List ℕ → List Effect
unfolding send_raw
handle_request order s sa da data_bytes =
    let pgn =
      bit_or (bit_or (get_or data_bytes 0 0) (get_or data_bytes 1 0 * 2 ^ 8))
        (get_or data_bytes 2 0 * 2 ^ 16) in
    if ltb (length data_bytes) 3
    then []
    else if not (da == s.self_sa) && not (da == sa_global)
    then []
    else if pgn == pgn_address_claimed
    then (if s.addr_valid
        then sent (send_raw 6 pgn_address_claimed s.self_sa sa_global (order.put_le64 s.self_name))
          ∷ []
        else [])
    else elim s.request_handler [ none ↦ [] | some cb ↦ requested cb pgn sa ∷ [] ]

pub dispatch : List (Option (ℕ × ℕ)) → ℕ → ℕ → ℕ → ℕ → List ℕ → List Effect
dispatch [] pgn prio sa da bytes = []
dispatch (none ∷ slots) pgn prio sa da bytes = dispatch slots pgn prio sa da bytes
dispatch (some (wanted, cb) ∷ slots) pgn prio sa da bytes =
    let rest = dispatch slots pgn prio sa da bytes in
    if wanted == pgn then handled cb pgn prio sa da bytes ∷ rest else rest

pub rx_frame : ByteOrder → J1939 → Frame → J1939 × List Effect
unfolding handle_address_claimed handle_request dispatch id_to_pgn id_to_sa id_to_da id_to_priority
rx_frame order s frame =
    let pgn = id_to_pgn frame.id in
    let sa = id_to_sa frame.id in
    let da = id_to_da frame.id in
    if pgn == pgn_address_claimed
    then (handle_address_claimed order s sa frame.bytes, [])
    else if pgn == pgn_request
    then (s, handle_request order s sa da frame.bytes)
    else (s, dispatch s.handlers pgn (id_to_priority frame.id) sa da frame.bytes)

-- The first free slot, if there is one.
pub register_handler : List (Option (ℕ × ℕ)) → ℕ → ℕ → Option (List (Option (ℕ × ℕ)))
register_handler [] pgn cb = none
register_handler (none ∷ slots) pgn cb = some (some (pgn, cb) ∷ slots)
register_handler (some h ∷ slots) pgn cb = elim (register_handler slots pgn cb) [
  | none ↦ none
  | some slots' ↦ some (some h ∷ slots')
]

pub set_request_handler : J1939 → Option ℕ → J1939
set_request_handler s cb = record s { request_handler = cb }

-- `started` and `filtered` are whether can_start (or a controller that runs) and
-- can_add_rx_filter_msgq succeed.
pub j1939_init : J1939 → ℕ → Bool → Bool → J1939 × Bool
j1939_init s name started filtered =
    let s' = record s { self_name = name } in (s', started && filtered)
