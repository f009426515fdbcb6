-- ===== src/ModbusTcp.antt =====
-- applications/io-edge-hub/src/modbus/tcp.c: one request of a Modbus TCP client.
-- The sockets and Zephyr's Modbus server are a record of functions on a state `W` of their own. The
-- server's work queue calls `server_raw_cb` while the thread waits for its semaphore.
pub mod Clients
pub mod Replies
pub mod Buffers
mod Tests
use iot_zephyr_app.Base.{
  ℕ, zero, suc, ◌+◌, ◌-◌, Bool, true, false, not, ◌&&◌, ◌||◌, Option, none, some, List, [], ◌∷◌,
  ◌++◌, if◌then◌else◌, ltb, ◌==◌, bit_or, length, take, drop, u8,
}
use iot_zephyr_app.ModbusRegs.{Regs, get_holding_reg, slave_id}

-- `struct modbus_adu` of Zephyr; of `data` the bytes that have been written.
pub record Adu : Type 0 where
  pub trans_id : ℕ
  pub proto_id : ℕ
  pub len : ℕ
  pub unit_id : ℕ
  pub fc : ℕ
  pub data_bytes : List ℕ

-- What the thread uses: the size of an ADU's data, the functions modbus_raw_*, and the socket calls.
-- `recv` gives `none` if it fails, and no bytes if the peer has closed.
-- `arrivals` has, for each wait on the semaphore, the ADUs handed to `server_raw_cb` until it ends.
pub record Net (W : Type 0) : Type 0 where
  pub data_size : ℕ
  pub get_header : List ℕ → Adu
  pub put_header : Adu → List ℕ
  pub set_server_failure : Adu → Adu
  pub submit_rx : W → Adu → Bool × W
  pub arrivals : W → List (List Adu) × W
  pub recv : W → ℕ → ℕ → Option (List ℕ) × W
  pub send : W → ℕ → List ℕ → Bool × W
  pub uptime : W → ℕ × W

-- 0 and the error codes that the file returns.
pub data Rc : Type 0 where
  ok : Rc
  enodev : Rc
  enotconn : Rc
  eio : Rc
  send_error : Rc
  init_error : Rc

-- The static variables of the file; `g_resp_sem` counts up to 1.
pub record Server : Type 0 where
  pub server_iface : Option ℕ
  pub srv_unit_id : ℕ
  pub g_resp : Adu
  pub g_resp_sem : Bool

abbrev pub mbap_and_fc_length : ℕ
mbap_and_fc_length = 8

pub server_raw_cb : Adu → Server → Server
server_raw_cb adu s = record s { g_resp = adu; g_resp_sem = true }

-- `iface` is what modbus_iface_get_by_name finds, `started` whether modbus_init_server succeeds.
pub init_modbus_server : Regs → Option ℕ → Bool → Server → Rc × Server
unfolding get_holding_reg
init_modbus_server regs none started s = (enodev, record s { server_iface = none })
init_modbus_server regs (some iface) started s =
    let s' = record s {
      server_iface = some iface;
      srv_unit_id = u8 (get_holding_reg regs slave_id);
    } in
    if started then (ok, s') else (init_error, s')

pub fc_supported : ℕ → Bool
fc_supported fc =
    fc == 1
    || (fc == 2
        || (fc == 3 || (fc == 4 || (fc == 5 || (fc == 6 || (fc == 8 || (fc == 15 || fc == 16)))))))

-- One pass of the wait after its callbacks: true if the semaphore was taken.
pub deliver : List Adu → Server → Server
unfolding server_raw_cb
deliver [] s = s
deliver (adu ∷ adus) s = deliver adus (server_raw_cb adu s)

-- The wait for the answer to `trans_id`. When nothing more arrives, a semaphore that was given is
-- taken and the next wait runs into its timeout.
pub wait_response : List (List Adu) → ℕ → Server → Server
unfolding deliver
wait_response [] trans_id s = record s { g_resp_sem = false }
wait_response (adus ∷ rounds) trans_id s =
    let s' = deliver adus s in
    let taken = record s' { g_resp_sem = false } in
    let rest = wait_response rounds trans_id taken in
    if s'.g_resp_sem then (if s'.g_resp.trans_id == trans_id then taken else rest) else s'

-- What a read of bytes gives: all of them, or the error code.
pub data Received : Type 0 where
  full : List ℕ → Received
  lost : Rc → Received

-- What the client has sent: a request, or one whose header is refused.
pub data Frame : Type 0 where
  unread : Rc → Frame
  bad : Adu → Frame
  whole : Adu → Frame

-- How a request ends: without an answer, or with one.
pub data Outcome : Type 0 where
  returns : Rc → Outcome
  reply : Adu → Outcome

-- The exception reply to an unknown function code.
abbrev pub illegal_function : Adu → Adu
illegal_function req = record req {
  fc = bit_or req.fc 0x80;
  data_bytes = 0x01 ∷ drop 1 req.data_bytes;
  len = 1;
}

-- The unit of every request but a broadcast becomes the server's.
abbrev pub readdress : ℕ → Adu → Adu
readdress srv_unit_id req = record req {
  unit_id = if req.unit_id == 0 then req.unit_id else srv_unit_id;
}

module _ {W : Type 0} (net : Net W) where
  -- The loop, with `buf` read and `missing` bytes to come; a pass reads at least one byte.
  pub recv_loop : ℕ → W → ℕ → ℕ → List ℕ → Received × W
  recv_loop zero w sock missing buf = (full buf, w)
  recv_loop (suc fuel) w sock missing buf =
      let (got, w') = net.recv w sock missing in
      elim (ltb 0 missing) [
        | false ↦ (full buf, w)
        | true ↦ elim got [
          | none ↦ (lost eio, w')
          | some [] ↦ (lost enotconn, w')
          | some (b ∷ bs) ↦ recv_loop fuel w' sock (missing - length (b ∷ bs)) (buf ++ (b ∷ bs))
        ]
      ]

  pub recv_full : W → ℕ → ℕ → Received × W
  unfolding recv_loop
  recv_full w sock want = recv_loop want w sock want []

  pub reply_adu : W → ℕ → Adu → Rc × W
  reply_adu w client adu =
      let (sent, w') = net.send w client (net.put_header adu ++ take adu.len adu.data_bytes) in
      if sent then (ok, w') else (send_error, w')

  -- The body of a request with this header.
  pub read_body : W → ℕ → Adu → Frame × W
  unfolding recv_full
  read_body w client req =
      if not (req.proto_id == 0) || ltb net.data_size req.len
      then (bad req, w)
      else let (got, w') = recv_full w client req.len in
        if ltb 0 req.len
        then (
          elim got [ full bs ↦ whole (record req { data_bytes = bs }) | lost rc ↦ unread rc ],
          w',
        )
        else (whole req, w)

  pub read_adu : W → ℕ → Frame × W
  unfolding recv_full read_body
  read_adu w client =
      let (got, w') = recv_full w client mbap_and_fc_length in
      elim got [
        | full header ↦ read_body w' client (net.get_header header)
        | lost rc ↦ (unread rc, w')
      ]

  -- From the answer that is in `g_resp` after the wait.
  pub answer : Adu → ℕ → Server → Outcome × Server
  answer req orig_unit_id s =
      if s.g_resp.trans_id == req.trans_id
      then (
        reply (record s.g_resp { unit_id = orig_unit_id }),
        record s { g_resp = record s.g_resp { unit_id = orig_unit_id } },
      )
      else (reply (record (net.set_server_failure req) { unit_id = orig_unit_id }), s)

  -- A request that has been read.
  pub serve : W → Server → Adu → (Outcome × Server) × W
  unfolding fc_supported wait_response answer
  serve w s req =
      let orig_unit_id = req.unit_id in
      let req' = readdress s.srv_unit_id req in
      let (accepted, w') = net.submit_rx w req' in
      let (rounds, w'') = net.arrivals w' in
      let reset = record s { g_resp_sem = false } in
      if not (fc_supported req.fc)
      then ((reply (record (illegal_function req') { unit_id = orig_unit_id }), s), w)
      else if ltb req.len 2
      then ((returns ok, s), w)
      else if not accepted
      then ((returns eio, reset), w')
      else if orig_unit_id == 0
      then ((returns ok, reset), w')
      else (answer req' orig_unit_id (wait_response rounds req.trans_id reset), w'')

  -- What becomes of what was read.
  pub respond : Frame → W → Server → (Outcome × Server) × W
  unfolding serve
  respond (unread rc) w s = ((returns rc, s), w)
  respond (bad req) w s = ((reply (net.set_server_failure req), s), w)
  respond (whole req) w s = serve w s req

  pub request : W → Server → ℕ → (Outcome × Server) × W
  unfolding read_adu respond
  request w s client = let (frame, w') = read_adu w client in respond frame w' s

  pub handle_client : W → Server → ℕ → (Rc × Server) × W
  unfolding request reply_adu
  handle_client w s client =
      let ((outcome, s'), w') = request w s client in
      elim outcome [
        | returns rc ↦ ((rc, s'), w')
        | reply adu ↦ let (rc, w'') = reply_adu w' client adu in ((rc, s'), w'')
      ]
