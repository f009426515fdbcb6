-- ===== src/GatewayUdp/Angles/Tests.antt =====
-- The angles of the stick on their way to the host, at a concrete input.
use iot_zephyr_app.Base.{
  ℕ, ◌+◌, ◌≡◌, refl, true, false, none, some, [], ◌∷◌, ◌++◌, replicate, drop, pos, ◌==◌, arith,
}
use iot_zephyr_app.Zephyr.Model.{model_bytes}
use iot_zephyr_app.Crypt.{Crypt, seal}
use iot_zephyr_app.Crypt.Link.{InStep}
use iot_zephyr_app.GatewayRadio.{handler_state, build_frame, forwarded, rx_pass}
use iot_zephyr_app.GatewayRadio.Transfer.{any_of}
use iot_zephyr_app.Handler.{rf24_type}
use iot_zephyr_app.Handler.Link.{Attempt, on_radio, send_handler_state}
use iot_zephyr_app.Handler.Stick.{Reading, Stick, s16, adc_pass}
use iot_zephyr_app.Handler.Stick.Angles.{IsSampled}
use iot_zephyr_app.GatewayUdp.{gw_udp_send}
use iot_zephyr_app.GatewayUdp.Angles.{angles_arrive}

abbrev handle : Crypt
handle = record {
  crypt_key = 1 ∷ 2 ∷ 3 ∷ 4 ∷ [];
  tx_counter = 30;
  rx_counter = 0;
  rx_initialized = false;
}

abbrev gateway : Crypt
gateway = record {
  crypt_key = 1 ∷ 2 ∷ 3 ∷ 4 ∷ [];
  tx_counter = 0;
  rx_counter = 29;
  rx_initialized = true;
}

in_step : InStep 1 handle gateway
in_step = record { same_key = refl; started = refl; behind = refl }

abbrev stick : Stick
stick = record {
  x_samples = replicate 10 (pos 0);
  y_samples = replicate 10 (pos 0);
  x_degree = pos 0;
  y_degree = pos 0;
  h_button = 1;
  last_activity_time = 0;
}

stick-IsSampled : IsSampled stick
stick-IsSampled = record {
  ten_x = refl;
  ten_y = refl;
  reach_x = omega arith;
  reach_y = omega arith;
}

abbrev readings : ℕ → Reading × Reading
readings k = (some (pos (600 + k)), none)

-- The second attempt succeeds.
abbrev tries : ℕ → Attempt
tries k = record { ok = k == 1; acked = k == 1; retransmits = 3 }

angles_arrive_example :
    let (s', bytes) = adc_pass model_bytes readings 77 stick in
    let (sent, (t', _, _)) =
      send_handler_state model_bytes true true true rf24_type tries [] false bytes
        (handle, 30, 4) in
    let (_, frame, n) =
      seal model_bytes handle (model_bytes.put_be16 handler_state ++ (bytes ++ [])) 10 in
    let (r', action) = rx_pass model_bytes true gateway frame n in
    let message = model_bytes.put_be16 handler_state ++ bytes in
    (sent ≡ on_radio (any_of 6 (λ k. (tries k).ok) 0))
    × (build_frame model_bytes true handle handler_state bytes [] ≡ some (t', frame, n))
    × (action ≡ forwarded message)
    × (gw_udp_send true ((1 ∷ []) ∷ []) message ≡ (1 ∷ []) ∷ message ∷ [])
    × (model_bytes.get_be16 message ≡ handler_state)
    × (s16 (model_bytes.get_be16 (drop 2 message)) ≡ s'.x_degree)
    × (s16 (model_bytes.get_be16 (drop 4 message)) ≡ s'.y_degree)
    × InStep 1 t' r'
angles_arrive_example =
    angles_arrive model_bytes handle gateway readings stick tries true 1 77 30 4 [] ((1 ∷ []) ∷ [])
      in_step (omega arith) (omega arith) stick-IsSampled (omega arith) (omega arith)
