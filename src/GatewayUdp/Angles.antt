-- ===== src/GatewayUdp/Angles.antt =====
-- The angles of the stick on their way from the handle through the gateway to the host's queue.
mod Tests
use iot_zephyr_app.Base.{
  ℕ, ◌+◌, ◌-◌, ◌^◌, ◌≤◌, ◌<◌, ◌≡◌, refl, sym, ap, ◌∙◌, Bool, true, false, inl, some, List, [], ◌∷◌,
  ◌++◌, length, length-append, drop, drop-add, drop-append_self, arith, lt→ltb,
}
use iot_zephyr_app.Zephyr.ByteOrder.{ByteOrder}
use iot_zephyr_app.Crypt.{Crypt, seal}
use iot_zephyr_app.Crypt.Link.{InStep}
use iot_zephyr_app.GatewayRadio.{handler_state, build_frame, forwarded, rx_pass}
use iot_zephyr_app.GatewayRadio.Transfer.{any_of, rx_pass-build_frame}
use iot_zephyr_app.Handler.{rf24_type}
use iot_zephyr_app.Handler.Link.{Attempt, on_radio, send_handler_state}
use iot_zephyr_app.Handler.Link.Sends.{send_handler_state-builds}
use iot_zephyr_app.Handler.Stick.{Reading, Stick, s16, adc_pass}
use iot_zephyr_app.Handler.Stick.Angles.{IsSampled, adc_pass-IsReported, length-adc_pass}
use iot_zephyr_app.GatewayUdp.{gw_udp_send}

module _ (order : ByteOrder) where
  queued :
      (queue : List (List ℕ)) (message : List ℕ)
      → 1 ≤ length message
      → length message ≤ 32
      → length queue < 8
      → gw_udp_send true queue message ≡ queue ++ message ∷ []
  unfolding gw_udp_send
  queued queue message h k room = ground arith

  -- While the handle is awake and on the radio, which is ready, a report of the stick's angles is
  -- sent if one of the six attempts succeeds. A gateway that has the handle's key, has accepted a
  -- frame before and is from 1 to 32 counters behind, the handle's counter being more than 32 below
  -- its wrap, and that gets the frame, forwards its message; while the link is up and the queue to
  -- the host has a place, the message goes to its end; and it reads as the identifier of the state
  -- and the two angles.
  pub angles_arrive :
      (t r : Crypt) (read : ℕ → Reading × Reading) (s : Stick) (tries : ℕ → Attempt)
      (can_dev : Bool) (gap now quality rssi : ℕ) (junk : List ℕ) (queue : List (List ℕ))
      → InStep gap t r
      → 1 ≤ gap
      → gap ≤ 32
      → IsSampled s
      → length queue < 8
      → t.tx_counter + 32 < 2 ^ 32
      → let (s', bytes) = adc_pass order read now s in
        let (sent, (t', _, _)) =
          send_handler_state order true true can_dev rf24_type tries junk false bytes
            (t, quality, rssi) in
        let (_, frame, n) = seal order t (order.put_be16 handler_state ++ (bytes ++ junk)) 10 in
        let (r', action) = rx_pass order true r frame n in
        let message = order.put_be16 handler_state ++ bytes in
        (sent ≡ on_radio (any_of 6 (λ k. (tries k).ok) 0))
        × (build_frame order true t handler_state bytes junk ≡ some (t', frame, n))
        × (action ≡ forwarded message)
        × (gw_udp_send true queue message ≡ queue ++ message ∷ [])
        × (order.get_be16 message ≡ handler_state)
        × (s16 (order.get_be16 (drop 2 message)) ≡ s'.x_degree)
        × (s16 (order.get_be16 (drop 4 message)) ≡ s'.y_degree)
        × InStep 1 t' r'
  angles_arrive t r read s tries can_dev gap now quality rssi junk queue v lo hi good room c =
      let (s', bytes) = adc_pass order read now s in
      let eight : length bytes ≡ 8 = length-adc_pass order read now s in
      let (_, _, _, x, y) = adc_pass-IsReported order read now s good in
      let two = order.length-put_be16 handler_state in
      let message = order.put_be16 handler_state ++ bytes in
      let ten : length message ≡ 10 =
        omega (arith, length-append (order.put_be16 handler_state) bytes, two, eight) in
      let skip_id : drop 2 message ≡ bytes =
        drop-append_self (order.put_be16 handler_state) bytes 2 (sym two) in
      let carried =
        rx_pass-build_frame order t r gap handler_state bytes junk v lo hi (inl refl)
          (omega (arith, eight)) c in
      let (built, action, in_step) = rw eight at carried in
      let (sent, same) =
        send_handler_state-builds order tries t _ quality rssi _ bytes junk _ can_dev built in
      let skip_x : drop 4 message ≡ drop 2 bytes = drop-add 2 2 message ∙ ap (drop 2) skip_id in
      rw (sent, same, skip_id, skip_x)
        (
          refl,
          built,
          action,
          queued queue message (omega (arith, ten)) (omega (arith, ten)) room,
          order.get-put_be16 handler_state bytes (omega arith),
          x,
          y,
          in_step,
        )
