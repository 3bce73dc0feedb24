-- ===== src/Timers/Steps.antt =====
-- The operations of the controller keep its set of timers in order.
use askcoin_core.Base.{
  u64_mod, ℕ, ◌+◌, ◌/◌, ◌%◌, ◌≤◌, ◌≡◌, refl, sym, ap, ◌∙◌, subst, Bool, true, false, List, [], ◌∷◌,
  ◌==◌, if◌then◌else◌, arith, All, Bool-cases, inl, inr, ==_iff,
}
use askcoin_core.Base.Dict.{contains, insert, erase, nat_key}
use askcoin_core.Timers.{
  Timer, Controller, tick_in, write, insert_timer, or_same, add_timer, del_timer, reset_timer,
}
use askcoin_core.Timers.Order.{
  IsOut, IsOrdered, apart, insert_timer-IsOrdered, erase_timer-some, erase_timer-none,
  erase-IsOrdered, erased-IsOut,
}

-- The set is in order, and each of its timers is in the map.
pub record IsSound (c : Controller) : Type 0 where
  pub ordered : IsOrdered (tick_in c.object) c.timers
  pub mapped : (j : ℕ) → contains j c.timers ≡ true → contains j c.timer_map ≡ true

-- A call of the controller. A new timer has an id that is in neither container.
pub data Call (c : Controller) : Controller → Type 0 where
  adds :
      (id now_tick interval : ℕ) (oneshot : Bool)
      → contains id c.timer_map ≡ false
      → Call c (add_timer id now_tick interval oneshot c)
  deletes : (id : ℕ) → Call c (del_timer id c)
  resets : (now_tick id : ℕ) → Call c (reset_timer now_tick id c)

write_other : (i j : ℕ) (t : Timer) (o : ℕ → Timer) → (j == i) ≡ false → write i t o j ≡ o j
write_other i j t o e = rw e refl

All-write :
    (k i : ℕ) (t : Timer) (o : ℕ → Timer) (xs : List ℕ)
    → IsOut i xs
    → All (λ y. k ≤ tick_in o y) xs
    → All (λ y. k ≤ tick_in (write i t o) y) xs
All-write k i t o [] n h = tt
All-write k i t o (x ∷ xs) n h = elim (Bool-cases (i == x)) [
  | inl same ↦ absurd (cc (rw same at n))
  | inr other ↦ (
    subst (λ u. k ≤ u.tick) (sym (write_other i x t o (apart i x other))) h.0,
    All-write k i t o xs (rw other at n) h.1,
  )
]

-- A write to a timer that is not in the set.
pub IsOrdered-write :
    (i : ℕ) (t : Timer) (o : ℕ → Timer) (xs : List ℕ)
    → IsOut i xs
    → IsOrdered (tick_in o) xs
    → IsOrdered (tick_in (write i t o)) xs
IsOrdered-write i t o [] n h = tt
IsOrdered-write i t o (x ∷ xs) n h = elim (Bool-cases (i == x)) [
  | inl same ↦ absurd (cc (rw same at n))
  | inr other ↦ (
    subst (λ u. All (λ y. u.tick ≤ tick_in (write i t o) y) xs)
        (sym (write_other i x t o (apart i x other)))
        (All-write (o x).tick i t o xs (rw other at n) h.0),
    h.1,
    IsOrdered-write i t o xs (rw other at n) h.2,
  )
]

contains-insert_timer :
    (tick : ℕ → ℕ) (i j : ℕ) (xs : List ℕ)
    → contains j (insert_timer tick i xs) ≡ (if j == i then true else contains j xs)
unfolding insert_timer
contains-insert_timer tick i j [] = refl
contains-insert_timer tick i j (x ∷ xs) = ground (arith, contains-insert_timer tick i j xs)

pub contains-erase :
    (i j : ℕ) (xs : List ℕ) → (j == i) ≡ false → contains j (erase i xs) ≡ contains j xs
contains-erase i j [] d = refl
contains-erase i j (x ∷ xs) d = ground (arith, d, contains-erase i j xs d)

contains-insert : (i j : ℕ) (xs : List ℕ) → contains j xs ≡ true → contains j (insert i xs) ≡ true
contains-insert i j xs h = ground (arith, h)

insert_self : (i : ℕ) (xs : List ℕ) → contains i (insert i xs) ≡ true
insert_self i xs = ground arith

-- Who is not in the map is not in the set.
out : (c : Controller) (i : ℕ) → IsSound c → contains i c.timer_map ≡ false → IsOut i c.timers
out c i h n = elim (Bool-cases (contains i c.timers)) [
  | inl e ↦ absurd (cc (h.mapped i e, n))
  | inr e ↦ e
]

-- The test of one id against another, before a claim on the rest.
other_in : (i j : ℕ) (b : Bool) → (j == i) ≡ false → (if j == i then true else b) ≡ true → b ≡ true
other_in i j b d e = ground (arith, d, e)

add_timer-IsSound :
    (c : Controller) (id now_tick interval : ℕ) (oneshot : Bool)
    → IsSound c
    → contains id c.timer_map ≡ false
    → IsSound (add_timer id now_tick interval oneshot c)
unfolding add_timer
add_timer-IsSound c id now_tick interval oneshot h n = record {
  ordered =
      insert_timer-IsOrdered _ id c.timers (out c id h n)
        (IsOrdered-write id t c.object c.timers (out c id h n) h.ordered);
  mapped = λ j e. elim (Bool-cases (j == id)) [
    | inl same ↦
        subst (λ k. contains k (insert id c.timer_map) ≡ true) (sym ((==_iff j id).0 same))
          (insert_self id c.timer_map)
    | inr other ↦ contains-insert id j c.timer_map (
        h.mapped j (
          other_in id j _ other
            (sym (contains-insert_timer (tick_in (write id t c.object)) id j c.timers) ∙ e)))
  ];
}
  where
    t : Timer
    t = record {
      tick = (now_tick + interval / 100) % u64_mod;
      interval_tick = interval / 100;
      oneshot = oneshot;
    }

-- The set without a timer.
pub erased-IsSound :
    (c : Controller) (id : ℕ)
    → IsSound c
    → IsSound (record c { timer_map = erase id c.timer_map; timers = erase id c.timers })
erased-IsSound c id h = record {
  ordered = erase-IsOrdered _ id c.timers h.ordered;
  mapped = λ j e. elim (Bool-cases (j == id)) [
    | inl same ↦ absurd (cc (e, erased-IsOut _ id c.timers h.ordered, (==_iff j id).0 same))
    | inr other ↦
        contains-erase id j c.timer_map other
        ∙ h.mapped j (sym (contains-erase id j c.timers other) ∙ e)
  ];
}

erase-out : (i : ℕ) (xs : List ℕ) → IsOut i xs → erase i xs ≡ xs
erase-out i [] n = refl
erase-out i (x ∷ xs) n = ground (arith, n, erase-out i xs)

-- What `del_timer` leaves.
pub del_timer-erase :
    (c : Controller) (id : ℕ)
    → IsSound c
    → del_timer id c ≡ record c { timer_map = erase id c.timer_map; timers = erase id c.timers }
unfolding del_timer
del_timer-erase c id h = elim (Bool-cases (contains id c.timer_map)) [
  | inr n ↦ rw (n, erase-out id c.timer_map n, erase-out id c.timers (out c id h n)) refl
  | inl k ↦ rw k (
      ap (λ xs. record c { timer_map = erase id c.timer_map; timers = xs })
        (elim (Bool-cases (contains id c.timers)) [
          | inl there ↦ ap (or_same c.timers) (erase_timer-some _ id c.timers h.ordered there)
          | inr gone ↦
              ap (or_same c.timers) (erase_timer-none (tick_in c.object) id c.timers gone)
              ∙ sym (erase-out id c.timers gone)
        ]))
]

-- A timer that is in the map enters the set.
pub entered-IsSound :
    (c : Controller) (id : ℕ) (t : Timer)
    → IsSound c
    → IsOut id c.timers
    → contains id c.timer_map ≡ true
    → IsSound (record c {
      object = write id t c.object;
      timers = insert_timer (tick_in (write id t c.object)) id c.timers;
    })
entered-IsSound c id t h n there = record {
  ordered =
      insert_timer-IsOrdered _ id c.timers n (IsOrdered-write id t c.object c.timers n h.ordered);
  mapped = λ j e. elim (Bool-cases (j == id)) [
    | inl same ↦ ap (λ i. contains i c.timer_map) ((==_iff j id).0 same) ∙ there
    | inr other ↦ h.mapped j (
        other_in id j _ other
          (sym (contains-insert_timer (tick_in (write id t c.object)) id j c.timers) ∙ e))
  ];
}

erase_back : (i j : ℕ) (xs : List ℕ) → contains j (erase i xs) ≡ true → contains j xs ≡ true
erase_back i j [] e = e
erase_back i j (x ∷ xs) e = ground (arith, e, erase_back i j xs)

reset_timer-IsSound :
    (c : Controller) (now_tick id : ℕ) → IsSound c → IsSound (reset_timer now_tick id c)
unfolding reset_timer
reset_timer-IsSound c now_tick id h = elim (Bool-cases (contains id c.timer_map)) [
  | inr n ↦ rw n h
  | inl k ↦ elim (Bool-cases (contains id c.timers)) [
    | inr gone ↦ rw (k, erase_timer-none (tick_in c.object) id c.timers gone) h
    | inl there ↦
        rw (k, erase_timer-some (tick_in c.object) id c.timers h.ordered there)
          (entered-IsSound (record c { timers = erase id c.timers }) id _ shorter
            (erased-IsOut _ id c.timers h.ordered) k)
  ]
]
  where
    shorter : IsSound (record c { timers = erase id c.timers })
    shorter = record {
      ordered = erase-IsOrdered _ id c.timers h.ordered;
      mapped = λ j e. h.mapped j (erase_back id j c.timers e);
    }

-- Every call of the controller, of `add_timer` with a new id, `del_timer` or `reset_timer`, keeps the set of
-- timers in the order of their ticks, without repetition and within the map.
pub Call-IsSound : (c d : Controller) → Call c d → IsSound c → IsSound d
Call-IsSound c d (adds id now_tick interval oneshot n) h =
    add_timer-IsSound c id now_tick interval oneshot h n
Call-IsSound c d (deletes id) h =
    subst IsSound (sym (del_timer-erase c id h)) (erased-IsSound c id h)
Call-IsSound c d (resets now_tick id) h = reset_timer-IsSound c now_tick id h
