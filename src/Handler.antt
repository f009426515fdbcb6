-- ===== src/Handler.antt =====
-- applications/angle-handler: the state that its modules share (include/common.h and the static
-- variables), and the link that it sends on (src/gpio.c and src/rf24.c: switching between CAN and radio).
pub mod Battery
pub mod Link
pub mod Power
pub mod Radio
pub mod Scanner
pub mod Stick
use iot_zephyr_app.Base.{ℕ, Bool, true, false, not, ◌&&◌, List, if◌then◌else◌, ◌==◌}
use iot_zephyr_app.Zephyr.ByteOrder.{ByteOrder}
use iot_zephyr_app.Crypt.{Crypt, set_key, rx_reset}

abbrev pub can_type : ℕ
can_type = 1

abbrev pub rf24_type : ℕ
rf24_type = 2

abbrev pub qual_init : ℕ
qual_init = 32

-- The four supplies that the handle switches: CAN, display, stick, and the radio's, which its driver
-- switches.
pub record Supplies : Type 0 where
  pub can_power : Bool
  pub dis_power : Bool
  pub handler_power : Bool
  pub rf24_power : Bool

-- What the modules of the link and the power share; `stored_type` is the connect_type in the
-- settings, and the last three tell whether `linksw_work` is scheduled, whether system_sleep is
-- between its two halves, and whether system_wake is.
pub record Handler : Type 0 where
  pub connect_type : ℕ
  pub stored_type : ℕ
  pub wake_event : Bool
  pub can_event : Bool
  pub rf24_event : Bool
  pub sleeping : Bool
  pub supplies : Supplies
  pub rf24_quality : ℕ
  pub rf24_addr : List ℕ
  pub crypt : Crypt
  pub last_activity_time : ℕ
  pub linksw_work : Bool
  pub falling : Bool
  pub waking : Bool

pub can_power_enable : Bool → Handler → Handler
can_power_enable up h = record h { supplies = record h.supplies { can_power = up } }

pub dis_power_enable : Bool → Handler → Handler
dis_power_enable up h = record h { supplies = record h.supplies { dis_power = up } }

pub handler_power_enable : Bool → Handler → Handler
handler_power_enable up h = record h { supplies = record h.supplies { handler_power = up } }

-- The radio's device is ready or not for good; `start_rx` is what nrf24_start_rx answers.
module _ (order : ByteOrder) (ready : Bool) where
  pub rf24_init : Bool → Handler → Handler
  rf24_init start_rx h =
      let up = record h.supplies { rf24_power = true } in
      let crypt = rx_reset (set_key order h.crypt h.rf24_addr) in
      let quality = if start_rx then qual_init else h.rf24_quality in
      if not ready then h else record h { supplies = up; crypt = crypt; rf24_quality = quality }

  pub rf24_deinit : Handler → Handler
  rf24_deinit h =
      if not ready then h else record h { supplies = record h.supplies { rf24_power = false } }

  pub connect_switch : Bool → Handler → Handler
  unfolding rf24_init rf24_deinit can_power_enable
  connect_switch start_rx h =
      let to_can = can_power_enable true (rf24_deinit (record h { rf24_event = false })) in
      let to_rf24 = rf24_init start_rx (can_power_enable false (record h { can_event = false })) in
      if h.connect_type == can_type
      then record to_can { can_event = true; stored_type = h.connect_type }
      else record to_rf24 { rf24_event = true; stored_type = h.connect_type }
