-- ===== src/Timers/Tests.antt =====
-- A controller with three timers, its runs, and the laws at this input.
use askcoin_core.Base.{ℕ, ◌≡◌, refl, Bool, true, false, List, [], ◌∷◌, arith}
use askcoin_core.Base.Dict.{contains, nat_key}
use askcoin_core.Timers.{Controller, tick_in, add_timer, del_timer, reset_timer, has_any, run}
use askcoin_core.Timers.Steps.{IsSound, resets, Call-IsSound}
use askcoin_core.Timers.Again.{run-IsSound}
use askcoin_core.Timers.Due.{due, noting, run-calls, run-del_timer}

abbrev empty : Controller
empty = record {
  timers = [];
  timer_map = [];
  object = λ i. record { tick = 0; interval_tick = 0; oneshot = true };
}

-- Timers for the ticks 15, 12 and 30, the first of them periodic.
abbrev three : Controller
three = add_timer 3 10 2000 true (add_timer 2 10 200 true (add_timer 1 10 500 false empty))

abbrev idle : ℕ → Controller → Controller
idle i c = c

three_ordered : three.timers ≡ 2 ∷ 1 ∷ 3 ∷ []
unfolding add_timer
three_ordered = refl

-- At tick 20 two are due; the periodic one is set again for tick 25.
due_calls :
    let r : (Controller × List ℕ) × Bool = run (noting idle) 20 (three, []) in
    (r.1 ≡ true)
    × (r.0.1 ≡ 2 ∷ 1 ∷ [])
    × (r.0.0.timers ≡ 1 ∷ 3 ∷ [])
    × (tick_in r.0.0.object 1 ≡ 25)
unfolding add_timer run
due_calls = (refl, refl, refl, refl)

reset_order : (reset_timer 18 2 three).timers ≡ 1 ∷ 2 ∷ 3 ∷ []
unfolding add_timer reset_timer
reset_order = refl

three-IsSound : IsSound three
unfolding add_timer
three-IsSound = record {
  ordered = ((omega arith, (omega arith, tt)), refl, ((omega arith, tt), refl, (tt, refl, tt)));
  mapped = λ j e. ground (arith, e);
}

Call-IsSound_example : IsSound (reset_timer 18 2 three)
Call-IsSound_example = Call-IsSound three (reset_timer 18 2 three) (resets 18 2) three-IsSound

run-calls_example :
    ((run (noting idle) 20 (three, [])).0.1 ≡ due (tick_in three.object) 20 three.timers)
    × ((run (noting idle) 20 (three, [])).1 ≡ has_any (due (tick_in three.object) 20 three.timers))
run-calls_example = run-calls idle 20 three three-IsSound

run-del_timer_example : contains 1 (run (noting idle) 20 (del_timer 1 three, [])).0.1 ≡ false
run-del_timer_example = run-del_timer idle 20 1 three three-IsSound

run-IsSound_example : IsSound (run (noting idle) 20 (three, [])).0.0
run-IsSound_example = run-IsSound idle 20 three (λ i d h. h) (λ i j d m o. o) three-IsSound
