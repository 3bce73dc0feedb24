-- ===== src/Timers/Due.antt =====
-- `Timer_Controller::run` calls the timers that are due.
use mathlib.Core.List.{append-nil, append_assoc}
use askcoin_core.Base.{
  ℕ, ◌≤◌, ◌<◌, ◌≡◌, refl, sym, ap, ◌∙◌, false, List, [], ◌∷◌, ◌++◌, leb, if◌then◌else◌, arith, All,
  Bool-cases, inl, inr, leb-false→lt,
}
use askcoin_core.Base.Dict.{contains, erase, nat_key}
use askcoin_core.Timers.{Controller, tick_in, del_timer, take_due, settle, call_all, has_any, run}
use askcoin_core.Timers.Order.{IsOut, IsOrdered, erased-IsOut}
use askcoin_core.Timers.Steps.{IsSound, del_timer-erase, erased-IsSound}

-- The timers of a list whose tick has come.
abbrev pub due : (ℕ → ℕ) → ℕ → List ℕ → List ℕ
due tick now_tick [] = []
due tick now_tick (x ∷ xs) =
    if leb (tick x) now_tick then x ∷ due tick now_tick xs else due tick now_tick xs

none_due :
    (tick : ℕ → ℕ) (now_tick k : ℕ) (xs : List ℕ)
    → now_tick < k
    → All (λ y. k ≤ tick y) xs
    → due tick now_tick xs ≡ []
none_due tick now_tick k [] h a = refl
none_due tick now_tick k (x ∷ xs) h a = ground (arith, a.0, none_due tick now_tick k xs h a.1)

-- In an ordered set, those up to the first that is not due are all that are due.
pub take_due-due :
    (tick : ℕ → ℕ) (now_tick : ℕ) (xs : List ℕ)
    → IsOrdered tick xs
    → take_due tick now_tick xs ≡ due tick now_tick xs
take_due-due tick now_tick [] h = refl
take_due-due tick now_tick (x ∷ xs) h = elim (Bool-cases (leb (tick x) now_tick)) [
  | inl e ↦ rw e (ap (λ ys. x ∷ ys) (take_due-due tick now_tick xs h.2))
  | inr e ↦ rw e (sym (none_due tick now_tick (tick x) xs (leb-false→lt (tick x) now_tick e) h.0))
]

-- A callback that leaves a note, and does what it likes to the controller.
abbrev pub noting : (ℕ → Controller → Controller) → ℕ → Controller × List ℕ → Controller × List ℕ
noting act i (c, log) = (act i c, log ++ i ∷ [])

call_all-notes :
    (act : ℕ → Controller → Controller) (now_tick : ℕ) (is : List ℕ) (c : Controller) (log : List ℕ)
    → (call_all (noting act) now_tick is (c, log)).1 ≡ log ++ is
unfolding call_all
call_all-notes act now_tick [] c log = sym (append-nil log)
call_all-notes act now_tick (i ∷ is) c log =
    call_all-notes act now_tick is (settle now_tick i (act i c)) (log ++ i ∷ [])
    ∙ append_assoc log (i ∷ []) is

-- `run`, on an ordered set, calls every timer whose tick has come, each once and in the order of the set, and
-- no other, whatever the callbacks do to the controller. It returns whether there was any.
pub run-calls :
    (act : ℕ → Controller → Controller) (now_tick : ℕ) (c : Controller)
    → IsSound c
    → ((run (noting act) now_tick (c, [])).0.1 ≡ due (tick_in c.object) now_tick c.timers)
      × ((run (noting act) now_tick (c, [])).1 ≡ has_any (due (tick_in c.object) now_tick c.timers))
unfolding run
run-calls act now_tick c h =
    let same = take_due-due (tick_in c.object) now_tick c.timers h.ordered in
    (
      call_all-notes act now_tick (take_due (tick_in c.object) now_tick c.timers) _ [] ∙ same,
      ap has_any same,
    )

due-IsOut :
    (tick : ℕ → ℕ) (now_tick i : ℕ) (xs : List ℕ) → IsOut i xs → IsOut i (due tick now_tick xs)
due-IsOut tick now_tick i [] h = refl
due-IsOut tick now_tick i (x ∷ xs) h = ground (arith, h, due-IsOut tick now_tick i xs)

-- A timer that is deleted is not called by the next run, whenever that is and whatever the callbacks do.
pub run-del_timer :
    (act : ℕ → Controller → Controller) (now_tick id : ℕ) (c : Controller)
    → IsSound c
    → contains id (run (noting act) now_tick (del_timer id c, [])).0.1 ≡ false
run-del_timer act now_tick id c h =
    ap (λ d. contains id (run (noting act) now_tick (d, [])).0.1) (del_timer-erase c id h)
    ∙ ap (contains id) (run-calls act now_tick _ (erased-IsSound c id h)).0
    ∙ due-IsOut (tick_in c.object) now_tick id (erase id c.timers)
        (erased-IsOut (tick_in c.object) id c.timers h.ordered)
