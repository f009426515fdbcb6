-- ===== src/StatusLeds/Runs.antt =====
-- What is true of the lights of n2e-gw in every run.
use iot_zephyr_app.Base.{
  ℕ, ◌≤◌, ◌≡◌, refl, sym, ◌∙◌, inl, inr, Bool, true, false, not, ◌&&◌, ◌||◌, arith, Bool-cases,
  List, [], ◌∷◌, if◌then◌else◌, ltb, le→ltb_false, sub_u32,
}
use mathlib.Core.Bool.{true≢false}
use iot_zephyr_app.StatusLeds.{
  Leds, Event, activity, blink, selftest, sys_on, error_on, fatal, stack_chk_fail, cpu_exception,
  other_reason, step, run, gw_led_init, led_blink_work_handler, gw_led_rf24_activity,
  err_selftest_work_handler, gw_led_sys_on, gw_led_error_on, fatal_error_handler,
  activity_timeout_ms,
}

-- The blink work is scheduled as long as the light blinks, and a light that does not blink is on.
pub record IsPaced (s : Leds) : Type 0 where
  pub scheduled : s.led_blink_work ≡ s.blinking
  pub steady : s.blinking ≡ false → s.led_rf24 ≡ true

-- The self-test is over, and an error that is latched is shown.
pub record IsShown (s : Leds) : Type 0 where
  pub tested : s.err_selftest_work ≡ false
  pub lit : s.error_latched ≡ true → s.led_err ≡ true

activity-IsPaced : (now : ℕ) (s : Leds) → IsPaced s → IsPaced (gw_led_rf24_activity now s)
unfolding gw_led_rf24_activity
activity-IsPaced now s h = elim (Bool-cases s.blinking) [
  | inr b ↦ simp b record { scheduled = refl; steady = λ e. absurd (true≢false e) }
  | inl b ↦ simp b record { scheduled = h.scheduled ∙ b; steady = λ e. absurd (true≢false e) }
]

blink-IsPaced :
    (now : ℕ) (s : Leds)
    → s.led_blink_work ≡ true
    → IsPaced s
    → IsPaced (led_blink_work_handler now s)
unfolding led_blink_work_handler
blink-IsPaced now s due h =
    elim (Bool-cases (ltb (sub_u32 now s.rf24_last_activity) activity_timeout_ms)) [
      | inl e ↦ rw e record {
        scheduled = sym due ∙ h.scheduled;
        steady = λ b. absurd (true≢false (sym due ∙ h.scheduled ∙ b));
      }
      | inr e ↦ rw e record { scheduled = refl; steady = λ b. refl }
    ]

if-IsPaced :
    (s s' : Leds) (due : Bool)
    → s.led_blink_work ≡ due
    → (s.led_blink_work ≡ true → IsPaced s')
    → IsPaced s
    → IsPaced (if due then s' else s)
if-IsPaced s s' true e k h = k e
if-IsPaced s s' false e k h = h

selftest-IsPaced :
    (s : Leds) (due : Bool) → IsPaced s → IsPaced (if due then err_selftest_work_handler s else s)
unfolding err_selftest_work_handler
selftest-IsPaced s true h = record { scheduled = h.scheduled; steady = h.steady }
selftest-IsPaced s false h = h

error-IsPaced : (s : Leds) → IsPaced s → IsPaced (gw_led_error_on s)
unfolding gw_led_error_on
error-IsPaced s h = record { scheduled = h.scheduled; steady = h.steady }

step-IsPaced : (e : Event) (s : Leds) → IsPaced s → IsPaced (step e s)
unfolding step gw_led_sys_on fatal_error_handler
step-IsPaced (activity now) s h = activity-IsPaced now s h
step-IsPaced (blink now) s h =
    if-IsPaced s (led_blink_work_handler now s) s.led_blink_work refl
      (λ due. blink-IsPaced now s due h) h
step-IsPaced selftest s h = selftest-IsPaced s s.err_selftest_work h
step-IsPaced sys_on s h = record { scheduled = h.scheduled; steady = h.steady }
step-IsPaced error_on s h = error-IsPaced s h
step-IsPaced (fatal stack_chk_fail) s h = error-IsPaced s h
step-IsPaced (fatal cpu_exception) s h = error-IsPaced s h
step-IsPaced (fatal other_reason) s h = h

run-IsPaced_from : (es : List Event) (s : Leds) → IsPaced s → IsPaced (run es s)
unfolding run
run-IsPaced_from [] s h = h
run-IsPaced_from (e ∷ es) s h = run-IsPaced_from es (step e s) (step-IsPaced e s h)

-- After the set-up, in any run, the blink work is scheduled just as long as the radio light blinks,
-- so that it never stays in a dark half period, and the light is on whenever it does not blink.
pub run-IsPaced : (es : List Event) (s : Leds) → IsPaced (run es (gw_led_init s))
unfolding gw_led_init
run-IsPaced es s =
    run-IsPaced_from es (gw_led_init s) record { scheduled = refl; steady = λ e. refl }

-- A radio light that blinks is on and steady again once its work runs 400 ms or more after the last
-- activity.
pub blink_stops :
    (now : ℕ) (s : Leds)
    → s.led_blink_work ≡ true
    → activity_timeout_ms ≤ sub_u32 now s.rf24_last_activity
    → let s' = step (blink now) s in (s'.led_rf24 ≡ true) × (s'.blinking ≡ false)
unfolding step led_blink_work_handler
blink_stops now s due late =
    rw (due, le→ltb_false (sub_u32 now s.rf24_last_activity) activity_timeout_ms late) (refl, refl)

error-IsShown : (s : Leds) → IsShown s → IsShown (gw_led_error_on s)
unfolding gw_led_error_on
error-IsShown s h = record { tested = h.tested; lit = λ e. refl }

activity-IsShown :
    (now : ℕ) (s : Leds) (b : Bool)
    → IsShown s
    → IsShown (
        if b then record s { rf24_last_activity = now } else record s {
          rf24_last_activity = now;
          blinking = true;
          led_rf24 = false;
          led_blink_work = true;
        })
activity-IsShown now s true h = record { tested = h.tested; lit = h.lit }
activity-IsShown now s false h = record { tested = h.tested; lit = h.lit }

blink-IsShown :
    (now : ℕ) (s : Leds) (due : Bool)
    → IsShown s
    → IsShown (if due then led_blink_work_handler now s else s)
unfolding led_blink_work_handler
blink-IsShown now s false h = h
blink-IsShown now s true h =
    elim (Bool-cases (ltb (sub_u32 now s.rf24_last_activity) activity_timeout_ms)) [
      | inl e ↦ rw e record { tested = h.tested; lit = h.lit }
      | inr e ↦ rw e record { tested = h.tested; lit = h.lit }
    ]

step-IsShown : (e : Event) (s : Leds) → IsShown s → IsShown (step e s)
unfolding step gw_led_sys_on fatal_error_handler err_selftest_work_handler gw_led_rf24_activity
step-IsShown (activity now) s h = activity-IsShown now s s.blinking h
step-IsShown (blink now) s h = blink-IsShown now s s.led_blink_work h
step-IsShown selftest s h = simp h.tested h
step-IsShown sys_on s h = record { tested = h.tested; lit = h.lit }
step-IsShown error_on s h = error-IsShown s h
step-IsShown (fatal stack_chk_fail) s h = error-IsShown s h
step-IsShown (fatal cpu_exception) s h = error-IsShown s h
step-IsShown (fatal other_reason) s h = h

-- Once the self-test is over, an error light that shows every latched error does so in any run.
pub run-IsShown : (es : List Event) (s : Leds) → IsShown s → IsShown (run es s)
unfolding run
run-IsShown [] s h = h
run-IsShown (e ∷ es) s h = run-IsShown es (step e s) (step-IsShown e s h)

abbrev pub is_report : Event → Bool
is_report error_on = true
is_report (fatal stack_chk_fail) = true
is_report (fatal cpu_exception) = true
is_report e = false

-- Whether an error is reported, and whether the self-test ends, in a run.
abbrev pub reports : List Event → Bool
reports [] = false
reports (e ∷ es) = is_report e || reports es

abbrev is_end : Event → Bool
is_end selftest = true
is_end e = false

abbrev pub ends_selftest : List Event → Bool
ends_selftest [] = false
ends_selftest (e ∷ es) = is_end e || ends_selftest es

-- What one event does to the flag of the error, to its light and to the self-test.
step_error :
    (e : Event) (s : Leds)
    → let s' = step e s in
      (s'.error_latched ≡ (is_report e || s.error_latched))
      × (s'.err_selftest_work ≡ (not (is_end e) && s.err_selftest_work))
      × (is_report e ≡ false → s.led_err ≡ false → s'.led_err ≡ false)
unfolding step gw_led_sys_on fatal_error_handler err_selftest_work_handler gw_led_rf24_activity
    gw_led_error_on led_blink_work_handler
step_error (activity now) s = ground arith
step_error (blink now) s = ground arith
step_error selftest s = ground arith
step_error sys_on s = ground arith
step_error error_on s = ground arith
step_error (fatal stack_chk_fail) s = ground arith
step_error (fatal cpu_exception) s = ground arith
step_error (fatal other_reason) s = ground arith

run-latched :
    (es : List Event) (s : Leds) → (run es s).error_latched ≡ (reports es || s.error_latched)
unfolding run
run-latched [] s = refl
run-latched (e ∷ es) s = run-latched es (step e s) ∙ ground (arith, step_error e s)

run-testing :
    (es : List Event) (s : Leds)
    → ends_selftest es ≡ false
    → (run es s).err_selftest_work ≡ s.err_selftest_work
unfolding run
run-testing [] s h = refl
run-testing (e ∷ es) s h = run-testing es (step e s) (ground arith) ∙ ground (arith, step_error e s)

run-dark :
    (es : List Event) (s : Leds)
    → reports es ≡ false
    → s.led_err ≡ false
    → (run es s).led_err ≡ false
unfolding run
run-dark [] s h k = k
run-dark (e ∷ es) s h k = run-dark es (step e s) (ground arith) (ground (arith, step_error e s))

selftest_dark :
    (s : Leds)
    → s.err_selftest_work ≡ true
    → let s' = step selftest s in (s'.led_err ≡ false) × (s'.error_latched ≡ s.error_latched)
unfolding step err_selftest_work_handler
selftest_dark s due = rw due (refl, refl)

-- Whatever happens after the set-up and before the self-test ends, and whatever after it until
-- an error is reported anew: an error that was reported before the end is latched, and its light
-- is out.
pub selftest_hides :
    (before later : List Event) (s : Leds)
    → ends_selftest before ≡ false
    → reports before ≡ true
    → reports later ≡ false
    → let s' = run later (step selftest (run before (gw_led_init s))) in
      (s'.error_latched ≡ true) × (s'.led_err ≡ false)
unfolding gw_led_init
selftest_hides before later s testing reported silent =
    let start = gw_led_init s in
    let (out, kept) = selftest_dark (run before start) (run-testing before start testing) in
    let latched = run-latched before start in
    let ended = step selftest (run before start) in
    (run-latched later ended ∙ ground arith, run-dark later ended silent out)
