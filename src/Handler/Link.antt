-- ===== src/Handler/Link.antt =====
-- applications/angle-handler: what is sent by CAN or radio (src/common.c, rf24_data_send in
-- src/rf24.c), and the frames that come by CAN (src/can.c).
pub mod Sends
use iot_zephyr_app.Base.{
  ℕ, ◌+◌, ◌-◌, Bool, true, false, not, Option, none, some, List, [], ◌∷◌, ◌++◌, if◌then◌else◌, ltb,
  ◌==◌, get_or,
}
use iot_zephyr_app.Zephyr.ByteOrder.{ByteOrder}
use iot_zephyr_app.Crypt.{Crypt}
use iot_zephyr_app.GatewayRadio.{handler_state, cobid_heatbeat, build_frame, tx_retries, send_loop}
use iot_zephyr_app.Handler.{can_type}
use iot_zephyr_app.Handler.Radio.{update_rssi}
use iot_zephyr_app.Handler.Scanner.{ScannerData, is_scanner, parse_scanner}

abbrev pub rf24_config_cmd : ℕ
rf24_config_cmd = 0x110

abbrev pub rf24_config_resp : ℕ
rf24_config_resp = 0x111

abbrev pub get_config : ℕ
get_config = 2

-- What nrf24_send answers: whether it returns 0, and its result.
pub record Attempt : Type 0 where
  pub ok : Bool
  pub acked : Bool
  pub retransmits : ℕ

-- What becomes of a frame: it is not sent in the sleep, there is no CAN device, it is handed to
-- can_send, or the radio sends it or fails.
pub data Sent : Type 0 where
  busy : Sent
  no_device : Sent
  on_can : ℕ → List ℕ → Sent
  on_radio : Bool → Sent

-- The encryption, and the quality with its bars.
abbrev pub Radio : Type 0
Radio = Crypt × ℕ × ℕ

pub mod_can_send : Bool → ℕ → List ℕ → Sent
mod_can_send can_dev id bytes = if not can_dev then no_device else on_can id bytes

module _ (order : ByteOrder) (encrypted ready : Bool) where
  -- `tries k` is the outcome of attempt `k`; only the last one counts for the quality.
  pub rf24_data_send : (ℕ → Attempt) → Radio → ℕ → List ℕ → List ℕ → Bool × Radio
  rf24_data_send tries (c, quality, rssi) can_id data_bytes junk =
      if not ready
      then (false, (c, quality, rssi))
      else elim (build_frame order encrypted c can_id data_bytes junk) [
        | none ↦ (false, (c, quality, rssi))
        | some (c', frame, n) ↦
            let (sent, count) = send_loop tx_retries (λ k. (tries k).ok) 0 in
            let last = tries (count - 1) in
            let (quality', rssi', _) = update_rssi last.acked last.retransmits (quality, rssi) in
            (sent, (c', quality', rssi'))
      ]

  module _ (can_dev : Bool) (connect_type : ℕ) (tries : ℕ → Attempt) (junk : List ℕ) where
    abbrev by_radio : ℕ → List ℕ → Radio → Sent × Radio
    by_radio id bytes s =
        let (sent, s') = rf24_data_send tries s id bytes junk in (on_radio sent, s')

    pub send_handler_state : Bool → List ℕ → Radio → Sent × Radio
    unfolding mod_can_send
    send_handler_state sleeping bytes s =
        if sleeping
        then (busy, s)
        else if connect_type == can_type
        then (mod_can_send can_dev handler_state bytes, s)
        else by_radio handler_state bytes s

    -- A pass of heart_thread, once a link is up.
    pub heart_pass : Bool → Radio → Sent × Radio
    unfolding mod_can_send
    heart_pass sleeping s =
        if sleeping
        then (busy, s)
        else if connect_type == can_type
        then (mod_can_send can_dev cobid_heatbeat (5 ∷ []), s)
        else by_radio cobid_heatbeat (5 ∷ []) s

-- The query of the radio's address: what is sent.
pub mod_can_rf24_config : Bool → List ℕ → ℕ → List ℕ → Option Sent
unfolding mod_can_send
mod_can_rf24_config can_dev rf24_addr dlc bytes =
    let cmd = get_or bytes 0 0 in
    if ltb dlc 1
    then none
    else if cmd == get_config
    then some (mod_can_send can_dev rf24_config_resp (cmd ∷ (rf24_addr ++ (0 ∷ 0 ∷ []))))
    else none

module _ (order : ByteOrder) where
  -- Whether the frame is one of the application's.
  pub mod_can_app_rx :
      Bool → List ℕ → ℕ → ℕ → List ℕ → ScannerData → Bool × ScannerData × Option Sent
  unfolding mod_can_rf24_config
  mod_can_app_rx can_dev rf24_addr id dlc bytes s =
      if is_scanner id
      then (true, (parse_scanner order id bytes s).0, none)
      else if id == rf24_config_cmd
      then (true, s, mod_can_rf24_config can_dev rf24_addr dlc bytes)
      else (false, s, none)
