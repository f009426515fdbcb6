-- ===== src/Handler/Power/Tests.antt =====
-- Runs of the handle's power and link, and the theorems about them at concrete inputs.
use iot_zephyr_app.Base.{◌≡◌, refl, true, false, [], ◌∷◌}
use iot_zephyr_app.Zephyr.Model.{model_bytes}
use iot_zephyr_app.Handler.{Handler, can_type}
use iot_zephyr_app.Handler.Power.{
  sleep_begin, sleep_end, wake_end, sleep_work_handler, main_pass, cmd_sleep, linksw_irq,
  linksw_work_handler,
}
use iot_zephyr_app.Handler.Power.Reach.{
  AllCalm, Reach, here, next, link_irq, link_work, sleep, falls, IsPowered, Reach-IsPowered,
  woken_unpowered,
}

abbrev awake : Handler
awake = record {
  connect_type = can_type;
  stored_type = can_type;
  wake_event = true;
  can_event = true;
  rf24_event = false;
  sleeping = false;
  supplies = record {
    can_power = true;
    dis_power = true;
    handler_power = true;
    rf24_power = false;
  };
  rf24_quality = 32;
  rf24_addr = 1 ∷ 2 ∷ 3 ∷ 4 ∷ 5 ∷ [];
  crypt = record { crypt_key = []; tx_counter = 0; rx_counter = 0; rx_initialized = false };
  last_activity_time = 0;
  linksw_work = false;
  falling = false;
  waking = false;
}

-- The link switch moves to the radio, and the handle falls asleep after ten minutes.
test_radio :
    (linksw_work_handler model_bytes true false true (linksw_irq awake)).supplies.rf24_power ≡ true
unfolding linksw_work_handler linksw_irq
test_radio = refl

test_asleep : (sleep_end model_bytes true (main_pass 600001 awake)).supplies.can_power ≡ false
unfolding sleep_end main_pass
test_asleep = refl

awake-IsPowered : IsPowered model_bytes true awake
awake-IsPowered = record {
  can = refl;
  rf24 = refl;
  display = refl;
  stick = refl;
  can_posted = refl;
  rf24_posted = refl;
  falls_asleep = λ h. impossible h;
  wakes_up = λ h. impossible h;
  no_work = λ _. refl;
}
  where
    impossible : {A : Type 0} → false ≡ true → A
    impossible h = cc

abbrev switched : Handler
unfolding linksw_irq linksw_work_handler
switched = linksw_work_handler model_bytes true false true (linksw_irq awake)

abbrev asleep : Handler
unfolding switched cmd_sleep sleep_end
asleep = sleep_end model_bytes true (cmd_sleep switched)

abbrev falls_asleep_run : Reach model_bytes true awake asleep
unfolding asleep switched linksw_irq linksw_work_handler cmd_sleep
falls_asleep_run =
    next
      (next (next (next here (link_irq awake)) (link_work (linksw_irq awake) false true refl refl))
        (sleep switched))
      (falls (cmd_sleep switched) refl refl)

falls_asleep_calm : AllCalm model_bytes true falls_asleep_run
unfolding falls_asleep_run
falls_asleep_calm = ((((tt, tt), tt), tt), tt)

Reach-IsPowered_example : IsPowered model_bytes true asleep
Reach-IsPowered_example =
    Reach-IsPowered model_bytes true {start = awake} {h = asleep} falls_asleep_run falls_asleep_calm
      awake-IsPowered

woken_unpowered_example :
    let pressed = sleep_work_handler model_bytes true false true (sleep_begin awake) in
    let h' = wake_end 700 (sleep_end model_bytes true pressed) in
    (h'.sleeping ≡ false)
    × (h'.supplies.can_power ≡ false)
    × (h'.supplies.rf24_power ≡ false)
    × (h'.supplies.dis_power ≡ false)
    × (h'.supplies.handler_power ≡ false)
woken_unpowered_example = woken_unpowered model_bytes true awake true 700 awake-IsPowered refl
