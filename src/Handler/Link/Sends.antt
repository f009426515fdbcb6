-- ===== src/Handler/Link/Sends.antt =====
-- What the handle sends by radio.
use iot_zephyr_app.Base.{ℕ, ◌≡◌, refl, ap, Bool, true, false, some, List}
use iot_zephyr_app.Zephyr.ByteOrder.{ByteOrder}
use iot_zephyr_app.Crypt.{Crypt}
use iot_zephyr_app.GatewayRadio.{handler_state, build_frame, tx_retries}
use iot_zephyr_app.GatewayRadio.Transfer.{any_of, send_loop_lem}
use iot_zephyr_app.Handler.{rf24_type}
use iot_zephyr_app.Handler.Link.{Attempt, on_radio, rf24_data_send, send_handler_state}

module _ (order : ByteOrder) (tries : ℕ → Attempt) (t t' : Crypt) (quality rssi n : ℕ)
    (data_bytes junk frame : List ℕ) where
  rf24_data_send-builds :
      (can_id : ℕ)
      → build_frame order true t can_id data_bytes junk ≡ some (t', frame, n)
      → let (sent, (c, _, _)) =
          rf24_data_send order true true tries (t, quality, rssi) can_id data_bytes junk in
        (sent ≡ any_of 6 (λ k. (tries k).ok) 0) × (c ≡ t')
  unfolding rf24_data_send
  rf24_data_send-builds can_id e = rw e ((send_loop_lem tx_retries 0 (λ k. (tries k).ok)).0, refl)

  -- A state that fits a frame is sent by radio if one of the six attempts succeeds.
  pub send_handler_state-builds :
      (can_dev : Bool)
      → build_frame order true t handler_state data_bytes junk ≡ some (t', frame, n)
      → let (sent, (c, _, _)) =
          send_handler_state order true true can_dev rf24_type tries junk false data_bytes
            (t, quality, rssi) in
        (sent ≡ on_radio (any_of 6 (λ k. (tries k).ok) 0)) × (c ≡ t')
  unfolding send_handler_state
  send_handler_state-builds can_dev e =
      let (sent, c) = rf24_data_send-builds handler_state e in (ap on_radio sent, c)
