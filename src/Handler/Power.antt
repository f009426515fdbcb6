-- ===== src/Handler/Power.antt =====
-- applications/angle-handler/src/gpio.c: the link switch, and falling asleep and waking up.
-- system_sleep and system_wake wait in the middle, for 100 and 200 ms: each is two steps, between
-- which the other threads run.
pub mod Reach
mod Tests
use iot_zephyr_app.Base.{
  ℕ, Bool, true, false, not, ◌&&◌, ◌||◌, ◌≡◌, Option, none, some, List, if◌then◌else◌, ◌==◌, ltb,
  sub_u32,
}
use iot_zephyr_app.Zephyr.ByteOrder.{ByteOrder}
use iot_zephyr_app.Handler.{
  Handler, Supplies, can_type, rf24_type, rf24_init, rf24_deinit, can_power_enable,
  dis_power_enable, handler_power_enable, connect_switch,
}

abbrev pub activity_timeout_ms : ℕ
activity_timeout_ms = 600000

-- Whether the next idle is to enter the STOP mode.
pub pm_policy_next_state : Handler → Bool
pm_policy_next_state h = h.sleeping && not h.waking

-- The interrupt of the link switch, and of the power and stick buttons (whether the pending pin is
-- the power button's): what is scheduled.
pub linksw_irq : Handler → Handler
linksw_irq h = if h.sleeping then h else record h { linksw_work = true }

pub data Scheduled : Type 0 where
  sleep_work : Scheduled
  btn_display_work : Scheduled
  nothing : Scheduled

pub gpio_irq : Bool → Bool → Handler → Scheduled
gpio_irq power button h =
    if power
    then sleep_work
    else if button
    then if h.sleeping then nothing else btn_display_work
    else nothing

-- system_sleep up to its wait.
pub sleep_begin : Handler → Handler
sleep_begin h = record h { wake_event = false; sleeping = true; falling = true }

-- system_wake from its wait on; `now` is the uptime.
pub wake_end : ℕ → Handler → Handler
wake_end now h = record h {
  sleeping = false;
  waking = false;
  last_activity_time = now;
  wake_event = true;
}

-- A pass of main's loop: whether it begins to fall asleep.
pub main_pass : ℕ → Handler → Handler
unfolding sleep_begin
main_pass now h =
    if h.sleeping
    then h
    else if ltb activity_timeout_ms (sub_u32 now h.last_activity_time)
    then sleep_begin h
    else h

pub cmd_sleep : Handler → Handler
unfolding sleep_begin
cmd_sleep h = if h.sleeping then h else sleep_begin h

module _ (order : ByteOrder) (ready : Bool) where
  -- `level` is that of the switch's pin.
  pub linksw_work_handler : Bool → Bool → Handler → Handler
  unfolding connect_switch
  linksw_work_handler level start_rx h =
      let other = if h.connect_type == can_type then rf24_type else can_type in
      let ran = record h { linksw_work = false } in
      if not level
      then connect_switch order ready start_rx (record ran { connect_type = other })
      else ran

  -- system_wake up to its wait.
  pub wake_begin : Bool → Handler → Handler
  unfolding can_power_enable rf24_init dis_power_enable handler_power_enable
  wake_begin start_rx h =
      let up = dis_power_enable true (handler_power_enable true (record h { waking = true })) in
      if h.connect_type == can_type
      then can_power_enable true up
      else rf24_init order ready start_rx up

  -- The power button's work: whether it begins to wake the system up.
  pub sleep_work_handler : Bool → Bool → Handler → Handler
  unfolding wake_begin
  sleep_work_handler level start_rx h =
      if not level && (h.sleeping && not h.waking) then wake_begin start_rx h else h

  -- system_sleep from its wait on.
  pub sleep_end : Handler → Handler
  unfolding can_power_enable rf24_deinit dis_power_enable handler_power_enable
  sleep_end h =
      let link =
        if h.connect_type == can_type
        then can_power_enable false h
        else rf24_deinit order ready h in
      record (handler_power_enable false (dis_power_enable false link)) { falling = false }

  pub cmd_link_can : Bool → Handler → Handler
  unfolding connect_switch
  cmd_link_can start_rx h =
      connect_switch order ready start_rx (record h { connect_type = can_type })

  pub cmd_link_rf24 : Bool → Handler → Handler
  unfolding connect_switch
  cmd_link_rf24 start_rx h =
      connect_switch order ready start_rx (record h { connect_type = rf24_type })
