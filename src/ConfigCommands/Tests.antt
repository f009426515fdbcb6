-- ===== src/ConfigCommands/Tests.antt =====
-- The theorems about the configuration commands at concrete inputs.
use iot_zephyr_app.Base.{ℕ, ◌+◌, ◌≡◌, refl, true, false, some, [], ◌∷◌, leb}
use iot_zephyr_app.Zephyr.Model.{model_bytes}
use iot_zephyr_app.ConfigCommands.{UdpApp, Answers, cmd_factory_reset, cmd_get_ip, app_cmd_handler}
use iot_zephyr_app.ConfigCommands.Laws.{carried_out, after, last_refused, factory_reset_run}

abbrev started : UdpApp
started = record {
  regs = record {
    holding =
        0 ∷ 0xFFFF ∷ 15 ∷ 200 ∷ 200 ∷ 0 ∷ 0x111 ∷ 250 ∷ 9600 ∷ 1 ∷ 192 ∷ 168 ∷ 12 ∷ 101 ∷ 0 ∷ 0 ∷ 0
        ∷ 0 ∷ [];
    input = 0x1000 ∷ 0 ∷ 0 ∷ 0 ∷ 0 ∷ 0 ∷ [];
  };
  factory_reset_pending_ms = 0;
  factory_reset_confirmed = false;
}

-- Three seconds after the start.
abbrev early : Answers
early = record { now = 3000; time_set = true; reset_rc = 0 }

get_ip :
    app_cmd_handler model_bytes early started 0x11 []
    ≡ some (cmd_get_ip model_bytes early started 0x11)
unfolding app_cmd_handler
get_ip = refl

-- After two commands, at 6 s and at 20 s, that are both refused, a third at 24 s is carried out.
abbrev at_time : ℕ → Answers
at_time time = record { now = time; time_set = true; reset_rc = 0 }

factory_reset_run_example :
    carried_out model_bytes 0x19
      (at_time 24000)
      (after model_bytes 0x19 (at_time 6000 ∷ at_time 20000 ∷ []) started)
    ≡ leb 24000 (last_refused model_bytes 0x19 0 (at_time 6000 ∷ at_time 20000 ∷ []) started + 5000)
factory_reset_run_example =
    factory_reset_run model_bytes 0x19 (at_time 6000 ∷ at_time 20000 ∷ []) (at_time 24000) started
      refl refl

-- A single command within the first five seconds is carried out.
test_single : carried_out model_bytes 0x19 early started ≡ true
unfolding cmd_factory_reset
test_single = refl
