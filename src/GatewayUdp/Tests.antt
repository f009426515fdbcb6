-- ===== src/GatewayUdp/Tests.antt =====
-- Runs of n2e-gw's udp.c, and the theorems about it at concrete inputs.
use iot_zephyr_app.Base.{
  ℕ, ◌+◌, ◌-◌, ◌≤◌, ◌≡◌, refl, Bool, true, false, Option, none, some, List, [], ◌∷◌, ◌++◌, map,
  length, replicate, if◌then◌else◌, ltb, ◌==◌, arith,
}
use iot_zephyr_app.Zephyr.Model.{model_bytes}
use iot_zephyr_app.Crypt.{Crypt, seal}
use iot_zephyr_app.Crypt.Link.{InStep}
use iot_zephyr_app.GatewayRadio.{build_frame, id_size}
use iot_zephyr_app.GatewayRadio.Transfer.{any_of}
use iot_zephyr_app.Handler.Scanner.{
  ScannerData, s32, coord_xy, coord_z, parse_scanner, rx_pass, parsed, overflow,
}
use iot_zephyr_app.GatewayUdp.{
  Inet, GwParams, Answers, reply, save_network, reboot, cmd_set_ip, cmd_get_net, cmd_set_host,
  cmd_factory_reset, app_cmd_handler, gw_udp_do_send, data_rx,
}
use iot_zephyr_app.GatewayUdp.Coordinates.{rx_pass-data_rx, coordinates_arrive}
use iot_zephyr_app.GatewayUdp.Queue.{
  Moment, Event, Taken, offer, transmit, run, all_outgoing, run-fifo,
}
use iot_zephyr_app.GatewayUdp.Settings.{set_host-get_net}
use iot_zephyr_app.Base.{pos, negsuc}

-- Four bytes stand for the text of an address.
abbrev plain_pton : List ℕ → Option (List ℕ)
plain_pton text = if length text == 4 then some text else none

plain_pton-eq : (text : List ℕ) → length text ≡ 4 → plain_pton text ≡ some text
plain_pton-eq text h = rw h refl

plain_pton-length : (text addr : List ℕ) → plain_pton text ≡ some addr → length addr ≡ 4
plain_pton-length text addr h = ground arith

abbrev plain_inet : Inet
plain_inet = record {
  inet_pton = plain_pton;
  inet_ntop = λ addr. addr;
  pton-ntop = plain_pton-eq;
  pton-length = plain_pton-length;
}

abbrev params : GwParams
params = record {
  rf24_addr = 1 ∷ 2 ∷ 3 ∷ 4 ∷ 5 ∷ [];
  ip_addr = 192 ∷ 168 ∷ 11 ∷ 100 ∷ [];
  data_port = 9600;
  use_dhcp = false;
  host_ip = 192 ∷ 168 ∷ 11 ∷ 150 ∷ [];
  host_port = 9602;
}

abbrev answers : Answers
answers = record { live = none; area_open = true; area_erase = true; config_port = 8600 }

test_loopback :
    (app_cmd_handler model_bytes plain_inet answers params cmd_set_ip (127 ∷ 0 ∷ 0 ∷ 1 ∷ [])).2
    ≡ reply (0 ∷ []) ∷ []
unfolding app_cmd_handler model_bytes
test_loopback = refl

test_reset :
    (app_cmd_handler model_bytes plain_inet answers params cmd_factory_reset []).2
    ≡ reply (1 ∷ []) ∷ reboot ∷ []
unfolding app_cmd_handler
test_reset = refl

abbrev other_host : List ℕ
other_host = 10 ∷ 0 ∷ 0 ∷ 7 ∷ []

set_host-get_net_example :
    let bytes = other_host ++ (model_bytes.put_be16 5000 ++ []) in
    let (known, p', calls) =
      app_cmd_handler model_bytes plain_inet answers params cmd_set_host bytes in
    let (_, _, calls') = app_cmd_handler model_bytes plain_inet answers p' cmd_get_net [] in
    (known ≡ true)
    × (calls ≡ save_network ∷ reply (other_host ++ model_bytes.put_be16 5000) ∷ [])
    × (calls' ≡ reply (model_bytes.put_be16 9600 ++ (other_host ++ model_bytes.put_be16 5000)) ∷ [])
    × (gw_udp_do_send model_bytes plain_inet true true p' (9 ∷ [])
        ≡ some (other_host, 5000, 9 ∷ []))
set_host-get_net_example =
    set_host-get_net model_bytes plain_inet answers params other_host [] (9 ∷ []) 5000 refl
      (omega arith) (omega arith)

abbrev own_address : List ℕ
own_address = 10 ∷ 0 ∷ 0 ∷ 9 ∷ []

-- The second frame that is accepted is taken while the link is down.
abbrev moment : Bool → Moment
moment up = record { sock = true; link_up = up; params = params }

abbrev events : List Event
events =
    offer true (1 ∷ [])
    ∷ offer false (2 ∷ [])
    ∷ offer true (3 ∷ 4 ∷ [])
    ∷ transmit (moment true)
    ∷ transmit (moment false)
    ∷ offer true (5 ∷ [])
    ∷ []

run-fifo_example :
    let r = run model_bytes plain_inet events [] in
    (map (λ (t : Taken). t.0) r.taken ++ r.queue ≡ [] ++ r.accepted)
    × (r.sent ≡ all_outgoing model_bytes plain_inet r.taken)
    × (length r.queue ≤ 8)
run-fifo_example = run-fifo model_bytes plain_inet events [] tt (omega arith)

abbrev gateway : Crypt
gateway = record {
  crypt_key = 1 ∷ 2 ∷ 3 ∷ 4 ∷ [];
  tx_counter = 30;
  rx_counter = 0;
  rx_initialized = false;
}

abbrev handle : Crypt
handle = record {
  crypt_key = 1 ∷ 2 ∷ 3 ∷ 4 ∷ [];
  tx_counter = 0;
  rx_counter = 29;
  rx_initialized = true;
}

in_step : InStep 1 gateway handle
in_step = record { same_key = refl; started = refl; behind = refl }

abbrev scanned : ScannerData
scanned = record {
  overbreak_valid = negsuc 0;
  overbreak_value = pos 0;
  laser_valid = negsuc 0;
  laser_distance = pos 0;
  coord_xy_valid = negsuc 0;
  coord_x_value = pos 0;
  coord_y_value = pos 0;
  coord_z_valid = negsuc 0;
  coord_z_value = pos 0;
}

abbrev second : ℕ → Bool
second k = k == 1

-- Nine bytes of data.
abbrev long_data : List ℕ
long_data = replicate 9 1

rx_pass-data_rx_example :
    let (sent, t') =
      data_rx model_bytes true second gateway (model_bytes.put_be16 coord_z ++ long_data) [] in
    let buf = model_bytes.put_be16 coord_z ++ (long_data ++ []) in
    let (_, frame, n) = seal model_bytes gateway buf (length long_data + id_size) in
    let (r', outcome) = rx_pass model_bytes handle scanned frame n in
    let cf = long_data ++ replicate (8 - length long_data) 0 in
    (sent ≡ any_of 6 second 0)
    × (build_frame model_bytes true gateway coord_z long_data [] ≡ some (t', frame, n))
    × (outcome ≡ (
        if ltb 8 (length long_data)
        then overflow
        else parsed (parse_scanner model_bytes coord_z cf scanned).0))
    × InStep 1 t' r'
rx_pass-data_rx_example =
    rx_pass-data_rx model_bytes gateway handle scanned second 1 coord_z long_data [] in_step
      (omega arith) (omega arith) refl (omega arith) (omega arith)

coordinates_arrive_example :
    let data_bytes = model_bytes.put_be32 1000 ++ model_bytes.put_be32 4294967295 in
    let (sent, t') =
      data_rx model_bytes true second gateway (model_bytes.put_be16 coord_xy ++ data_bytes) [] in
    let buf = model_bytes.put_be16 coord_xy ++ (data_bytes ++ []) in
    let (_, frame, n) = seal model_bytes gateway buf 10 in
    let (r', outcome) = rx_pass model_bytes handle scanned frame n in
    (sent ≡ any_of 6 second 0)
    × (build_frame model_bytes true gateway coord_xy data_bytes [] ≡ some (t', frame, n))
    × (outcome
        ≡ parsed (record scanned {
          coord_x_value = s32 1000;
          coord_y_value = s32 4294967295;
          coord_xy_valid = pos 1;
        }))
    × InStep 1 t' r'
coordinates_arrive_example =
    coordinates_arrive model_bytes gateway handle scanned second 1 1000 4294967295 [] in_step
      (omega arith) (omega arith) (omega arith) (omega arith) (omega arith)
