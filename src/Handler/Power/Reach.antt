-- ===== src/Handler/Power/Reach.antt =====
-- The supplies of the handle in every state that its threads reach.
use iot_zephyr_app.Base.{ℕ, Bool, true, false, not, ◌&&◌, ◌||◌, ◌≡◌, ◌==◌, arith}
use iot_zephyr_app.Zephyr.ByteOrder.{ByteOrder}
use iot_zephyr_app.Handler.{Handler, can_type}
use iot_zephyr_app.Handler.Power.{
  linksw_irq, linksw_work_handler, sleep_begin, sleep_end, wake_end, sleep_work_handler, main_pass,
  cmd_sleep, cmd_link_can, cmd_link_rf24,
}

-- The peripherals are to run: unless the system sleeps and is not on its way in or out.
abbrev pub is_up : Handler → Bool
is_up h = not h.sleeping || (h.falling || h.waking)

module _ (order : ByteOrder) (ready : Bool) where
  -- What the threads do to the state. The work queue runs one work at a time, so none while
  -- system_wake waits. The wait of 100 ms in system_sleep lets a work of 20 ms that is scheduled run,
  -- and the shell does not run while the processor sleeps. `interrupted` is the power button's work
  -- during that wait.
  pub data Step : Handler → Handler → Type 0 where
    link_irq : (h : Handler) → Step h (linksw_irq h)
    link_work :
        (h : Handler) (level start_rx : Bool)
        → h.linksw_work ≡ true
        → h.waking ≡ false
        → Step h (linksw_work_handler order ready level start_rx h)
    main : (h : Handler) (now : ℕ) → Step h (main_pass now h)
    sleep : (h : Handler) → Step h (cmd_sleep h)
    falls :
        (h : Handler) → h.falling ≡ true → h.linksw_work ≡ false → Step h (sleep_end order ready h)
    power_work :
        (h : Handler) (level start_rx : Bool)
        → h.falling ≡ false
        → Step h (sleep_work_handler order ready level start_rx h)
    interrupted :
        (h : Handler) (level start_rx : Bool)
        → h.falling ≡ true
        → Step h (sleep_work_handler order ready level start_rx h)
    wakes : (h : Handler) (now : ℕ) → h.waking ≡ true → Step h (wake_end now h)
    shell_can :
        (h : Handler) (start_rx : Bool)
        → is_up h ≡ true
        → Step h (cmd_link_can order ready start_rx h)
    shell_rf24 :
        (h : Handler) (start_rx : Bool)
        → is_up h ≡ true
        → Step h (cmd_link_rf24 order ready start_rx h)

  pub data Reach (start : Handler) : Handler → Type 0 where
    here : Reach start start
    next : {h h' : Handler} → Reach start h → Step h h' → Reach start h'

  -- The power button's work does not run while system_sleep waits.
  abbrev pub IsCalm : {h h' : Handler} → Step h h' → Type 0
  IsCalm (link_irq h) = Unit {0}
  IsCalm (link_work h level start_rx due free) = Unit {0}
  IsCalm (main h now) = Unit {0}
  IsCalm (sleep h) = Unit {0}
  IsCalm (falls h on done) = Unit {0}
  IsCalm (power_work h level start_rx off) = Unit {0}
  IsCalm (interrupted h level start_rx on) = ⊥
  IsCalm (wakes h now on) = Unit {0}
  IsCalm (shell_can h start_rx awake) = Unit {0}
  IsCalm (shell_rf24 h start_rx awake) = Unit {0}

  abbrev pub AllCalm : {start h : Handler} → Reach start h → Type 0
  AllCalm here = Unit {0}
  AllCalm (next r s) = AllCalm r × IsCalm s

  abbrev pub is_can : Handler → Bool
  is_can h = h.connect_type == can_type

  -- Each supply is on just where its part is to run: that of the link which is chosen, and no other
  -- link's, and those of the display and the stick. The event of that link alone is posted.
  pub record IsPowered (h : Handler) : Type 0 where
    pub can : h.supplies.can_power ≡ (is_up h && is_can h)
    pub rf24 : h.supplies.rf24_power ≡ (ready && (is_up h && not (is_can h)))
    pub display : h.supplies.dis_power ≡ is_up h
    pub stick : h.supplies.handler_power ≡ is_up h
    pub can_posted : h.can_event ≡ is_can h
    pub rf24_posted : h.rf24_event ≡ not (is_can h)
    pub falls_asleep : h.falling ≡ true → (h.sleeping ≡ true) × (h.waking ≡ false)
    pub wakes_up : h.waking ≡ true → h.sleeping ≡ true
    pub no_work : is_up h ≡ false → h.linksw_work ≡ false

  Step-IsPowered : {h h' : Handler} (s : Step h h') → IsCalm s → IsPowered h → IsPowered h'
  unfolding linksw_irq linksw_work_handler sleep_end sleep_work_handler wake_end main_pass cmd_sleep
      cmd_link_can cmd_link_rf24
  Step-IsPowered (link_irq h) calm v = ground arith
  Step-IsPowered (link_work h level start_rx due free) calm v = ground arith
  Step-IsPowered (main h now) calm v = ground arith
  Step-IsPowered (sleep h) calm v = ground arith
  Step-IsPowered (falls h on done) calm v = ground arith
  Step-IsPowered (power_work h level start_rx off) calm v = ground arith
  Step-IsPowered (interrupted h level start_rx on) calm v = absurd calm
  Step-IsPowered (wakes h now on) calm v = ground arith
  Step-IsPowered (shell_can h start_rx awake) calm v = ground arith
  Step-IsPowered (shell_rf24 h start_rx awake) calm v = ground arith

  -- From a state that is powered as its link and its sleep ask, every state is that the threads reach
  -- by steps among which the power button's work never runs during the wait of system_sleep. A
  -- scheduled work of the link switch runs before that wait ends, no other work runs while
  -- system_wake waits, and the shell is silent while the processor sleeps.
  pub Reach-IsPowered :
      {start h : Handler} (r : Reach start h) → AllCalm r → IsPowered start → IsPowered h
  Reach-IsPowered here calm v = v
  Reach-IsPowered (next r s) calm v = Step-IsPowered s calm.1 (Reach-IsPowered r calm.0 v)

  -- If the power button is pressed while system_sleep waits, then after both have ended the handle is
  -- awake and none of its supplies is on.
  pub woken_unpowered :
      (h : Handler) (start_rx : Bool) (now : ℕ)
      → IsPowered h
      → h.sleeping ≡ false
      → let pressed = sleep_work_handler order ready false start_rx (sleep_begin h) in
        let h' = wake_end now (sleep_end order ready pressed) in
        (h'.sleeping ≡ false)
        × (h'.supplies.can_power ≡ false)
        × (h'.supplies.rf24_power ≡ false)
        × (h'.supplies.dis_power ≡ false)
        × (h'.supplies.handler_power ≡ false)
  unfolding sleep_work_handler sleep_begin sleep_end wake_end
  woken_unpowered h start_rx now v awake = ground arith
