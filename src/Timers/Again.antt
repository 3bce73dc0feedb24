-- ===== src/Timers/Again.antt =====
-- `Timer_Controller::run` keeps the set of timers in order.
use askcoin_core.Base.{
  ℕ, ◌≡◌, refl, sym, ap, ◌∙◌, true, false, List, [], ◌∷◌, ◌++◌, leb, ◌==◌, arith, All, Bool-cases,
  inl, inr, ==_iff,
}
use askcoin_core.Base.Dict.{contains, nat_key}
use askcoin_core.Timers.{
  Timer, Controller, tick_in, write, insert_timer, take_due, drop_due, settle, call_all, run,
}
use askcoin_core.Timers.Order.{IsOut, IsOrdered, insert_timer-IsOut}
use askcoin_core.Timers.Steps.{IsSound, IsOrdered-write, contains-erase, entered-IsSound}
use askcoin_core.Timers.Due.{due, noting, take_due-due}

-- Each once.
abbrev IsDistinct : List ℕ → Type 0
IsDistinct [] = Unit
IsDistinct (x ∷ xs) = IsOut x xs × IsDistinct xs

take_due-IsOut :
    (tick : ℕ → ℕ) (now_tick j : ℕ) (xs : List ℕ) → IsOut j xs → IsOut j (take_due tick now_tick xs)
take_due-IsOut tick now_tick j [] h = refl
take_due-IsOut tick now_tick j (x ∷ xs) h = ground (arith, h, take_due-IsOut tick now_tick j xs)

drop_due-IsOut :
    (tick : ℕ → ℕ) (now_tick j : ℕ) (xs : List ℕ) → IsOut j xs → IsOut j (drop_due tick now_tick xs)
drop_due-IsOut tick now_tick j [] h = refl
drop_due-IsOut tick now_tick j (x ∷ xs) h = ground (arith, h, drop_due-IsOut tick now_tick j xs)

-- What is due leaves the set, each once, and the rest is in order.
split_due :
    (tick : ℕ → ℕ) (now_tick : ℕ) (xs : List ℕ)
    → IsOrdered tick xs
    → IsDistinct (take_due tick now_tick xs)
      × All (λ j. IsOut j (drop_due tick now_tick xs)) (take_due tick now_tick xs)
      × IsOrdered tick (drop_due tick now_tick xs)
split_due tick now_tick [] h = (tt, tt, tt)
split_due tick now_tick (x ∷ xs) h = elim (Bool-cases (leb (tick x) now_tick)) [
  | inl e ↦
      let (d, o, r) = split_due tick now_tick xs h.2 in
      rw e
        ((take_due-IsOut tick now_tick x xs h.1, d), (drop_due-IsOut tick now_tick x xs h.1, o), r)
  | inr e ↦ rw e (tt, tt, h)
]

dropped-mapped :
    (tick : ℕ → ℕ) (now_tick j : ℕ) (xs : List ℕ)
    → contains j (drop_due tick now_tick xs) ≡ true
    → contains j xs ≡ true
dropped-mapped tick now_tick j [] e = e
dropped-mapped tick now_tick j (x ∷ xs) e = ground (arith, e, dropped-mapped tick now_tick j xs)

entered-IsOut :
    (c : Controller) (id j : ℕ) (t : Timer)
    → (j == id) ≡ false
    → IsOut j c.timers
    → IsOut j (insert_timer (tick_in (write id t c.object)) id c.timers)
entered-IsOut c id j t d n = insert_timer-IsOut (tick_in (write id t c.object)) id j c.timers d n

settle-IsSound :
    (now_tick id : ℕ) (c : Controller)
    → IsSound c
    → IsOut id c.timers
    → IsSound (settle now_tick id c)
unfolding settle
settle-IsSound now_tick id c h n = elim (Bool-cases (c.object id).oneshot) [
  | inl once ↦ rw once (record {
    ordered = h.ordered;
    mapped = λ j e. elim (Bool-cases (j == id)) [
      | inl same ↦ absurd (cc (e, n, (==_iff j id).0 same))
      | inr other ↦ contains-erase id j c.timer_map other ∙ h.mapped j e
    ];
  })
  | inr periodic ↦ elim (Bool-cases (contains id c.timer_map)) [
    | inl there ↦ rw (periodic, there) (entered-IsSound c id _ h n there)
    | inr gone ↦
        rw (periodic, gone)
          (record {
            ordered = IsOrdered-write id _ c.object c.timers n h.ordered;
            mapped = h.mapped;
          })
  ]
]

settle-IsOut :
    (now_tick id j : ℕ) (c : Controller)
    → (j == id) ≡ false
    → IsOut j c.timers
    → IsOut j (settle now_tick id c).timers
unfolding settle
settle-IsOut now_tick id j c d n = elim (Bool-cases (c.object id).oneshot) [
  | inl once ↦ rw once n
  | inr periodic ↦ elim (Bool-cases (contains id c.timer_map)) [
    | inl there ↦ rw (periodic, there) (entered-IsOut c id j _ d n)
    | inr gone ↦ rw (periodic, gone) n
  ]
]

module _ (act : ℕ → Controller → Controller) (now_tick : ℕ) (all : List ℕ)
    (keeps : (i : ℕ) (d : Controller) → IsSound d → IsSound (act i d))
    (leaves : (i j : ℕ) (d : Controller)
      → contains j all ≡ true
      → IsOut j d.timers
      → IsOut j (act i d).timers) where
  still-IsOut :
      (i : ℕ) (d : Controller) (is : List ℕ)
      → IsOut i is
      → All (λ j. contains j all ≡ true) is
      → All (λ j. IsOut j d.timers) is
      → All (λ j. IsOut j (settle now_tick i (act i d)).timers) is
  still-IsOut i d [] n m h = tt
  still-IsOut i d (j ∷ is) n m h = elim (Bool-cases (i == j)) [
    | inl same ↦ absurd (cc (rw same at n))
    | inr other ↦ (
      settle-IsOut now_tick i j (act i d) (ground arith) (leaves i j d m.0 h.0),
      still-IsOut i d is (rw other at n) m.1 h.1,
    )
  ]

  call_all-IsSound :
      (is : List ℕ) (c : Controller) (log : List ℕ)
      → IsDistinct is
      → All (λ j. contains j all ≡ true) is
      → All (λ j. IsOut j c.timers) is
      → IsSound c
      → IsSound (call_all (noting act) now_tick is (c, log)).0
  unfolding call_all
  call_all-IsSound [] c log d m o h = h
  call_all-IsSound (i ∷ is) c log d m o h =
      call_all-IsSound is (settle now_tick i (act i c)) (log ++ i ∷ []) d.1 m.1
        (still-IsOut i c is d.0 m.1 o.1)
        (settle-IsSound now_tick i (act i c) (keeps i c h) (leaves i i c m.0 o.0))

contains_self :
    (xs ys : List ℕ)
    → ((j : ℕ) → contains j xs ≡ true → contains j ys ≡ true)
    → All (λ j. contains j ys ≡ true) xs
contains_self [] ys h = tt
contains_self (x ∷ xs) ys h =
    (h x (ground arith), contains_self xs ys (λ j e. h j (ground (arith, e))))

-- `run` keeps the set of timers in the order of their ticks, without repetition and within the map, if each
-- callback does so and puts no timer that is due into the set.
pub run-IsSound :
    (act : ℕ → Controller → Controller) (now_tick : ℕ) (c : Controller)
    → ((i : ℕ) (d : Controller) → IsSound d → IsSound (act i d))
    → ((i j : ℕ) (d : Controller)
        → contains j (due (tick_in c.object) now_tick c.timers) ≡ true
        → IsOut j d.timers
        → IsOut j (act i d).timers)
    → IsSound c
    → IsSound (run (noting act) now_tick (c, [])).0.0
unfolding run
run-IsSound act now_tick c keeps leaves h =
    let (d, o, r) = split_due (tick_in c.object) now_tick c.timers h.ordered in
    call_all-IsSound act now_tick (due (tick_in c.object) now_tick c.timers) keeps leaves
      (take_due (tick_in c.object) now_tick c.timers)
      (record c { timers = drop_due (tick_in c.object) now_tick c.timers }) [] d
      (contains_self _ _ (λ j e.
        ap (contains j) (sym (take_due-due (tick_in c.object) now_tick c.timers h.ordered)) ∙ e))
      o
      (record {
        ordered = r;
        mapped = λ j e. h.mapped j (dropped-mapped (tick_in c.object) now_tick j c.timers e);
      })
