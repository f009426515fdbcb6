-- ===== src/GatewayRadio.antt =====
-- applications/n2e-gw/src/rf24.c: a frame that the gateway sends by radio, and one that it receives.
pub mod Transfer
mod Tests
use iot_zephyr_app.Base.{
  ℕ, zero, suc, ◌+◌, ◌-◌, Bool, true, false, not, ◌&&◌, Option, none, some, List, [], ◌∷◌, ◌++◌,
  if◌then◌else◌, ltb, ◌==◌, length, take, drop,
}
use iot_zephyr_app.Zephyr.ByteOrder.{ByteOrder}
use iot_zephyr_app.Crypt.{Crypt, seal, open_frame}

abbrev pub handler_state : ℕ
handler_state = 0x1E3

abbrev pub cobid_heatbeat : ℕ
cobid_heatbeat = 0x763

abbrev pub test_frame : ℕ
test_frame = 0x777

abbrev pub payload_max : ℕ
payload_max = 32

abbrev pub id_size : ℕ
id_size = 2

abbrev pub tx_retries : ℕ
tx_retries = 5

-- Whether the frame was sent, and the number of attempts; `air k` tells whether nrf24_send succeeds
-- at attempt `k`, and `left` retries remain.
pub send_loop : ℕ → (ℕ → Bool) → ℕ → Bool × ℕ
send_loop zero air attempt = (air attempt, attempt + 1)
send_loop (suc left) air attempt =
    let rest = send_loop left air (attempt + 1) in if air attempt then (true, attempt + 1) else rest

-- What becomes of a received frame: a test, a message for the host, or nothing.
pub data Action : Type 0 where
  ignored : Action
  tested : List ℕ → Action
  forwarded : List ℕ → Action

module _ (order : ByteOrder) (encrypted : Bool) where
  -- The buffer and length that are sent; `junk` is what the buffer holds behind them.
  pub build_frame : Crypt → ℕ → List ℕ → List ℕ → Option (Crypt × List ℕ × ℕ)
  build_frame s can_id data_bytes junk =
      let len = length data_bytes in
      let buf = order.put_be16 can_id ++ (data_bytes ++ junk) in
      let (s', frame, n) = seal order s buf (len + id_size) in
      if ltb (if encrypted then payload_max - id_size - 1 else payload_max - id_size) len
      then none
      else if not encrypted
      then some (s, buf, len + id_size)
      else if n == 0
      then none
      else some (s', frame, n)

  -- Whether the frame was sent.
  pub gw_rf24_send : Bool → (ℕ → Bool) → Crypt → ℕ → List ℕ → List ℕ → Bool × Crypt
  gw_rf24_send ready air s can_id data_bytes junk =
      if not ready then (false, s) else elim (build_frame s can_id data_bytes junk) [
        | none ↦ (false, s)
        | some (s', frame, n) ↦ ((send_loop tx_retries air 0).0, s')
      ]

  -- A plain frame of this length.
  pub route : List ℕ → ℕ → Action
  route frame len =
      let can_id = order.get_be16 frame in
      if can_id == test_frame
      then tested (take (len - id_size) (drop id_size frame))
      else if not (can_id == handler_state) && not (can_id == cobid_heatbeat)
      then ignored
      else forwarded (take len frame)

  -- A pass of the thread with a frame.
  pub rx_pass : Crypt → List ℕ → ℕ → Crypt × Action
  unfolding route
  rx_pass s frame len =
      let (s', plain, m) = open_frame order s frame len in
      if ltb len id_size
      then (s, ignored)
      else if not encrypted
      then (s, route frame len)
      else if m == 0
      then (s', ignored)
      else (s', route plain m)
