-- ===== src/Timers.antt =====
-- timer.cpp and timer.hpp: the timers of the controller. A shared_ptr to a timer is its id; `object` holds
-- the timers, also those that have been deleted. The time is in ticks of 100 milliseconds.
pub mod Order
pub mod Steps
pub mod Due
pub mod Again
pub mod Tests
use askcoin_core.Base.{
  u64_mod, ℕ, ◌+◌, ◌/◌, ◌%◌, not, Bool, true, false, Option, none, some, List, [], ◌∷◌, ltb, leb,
  ◌==◌, if◌then◌else◌,
}
use askcoin_core.Base.Dict.{contains, insert, erase, nat_key}

pub record Timer : Type 0 where
  pub tick : ℕ
  pub interval_tick : ℕ
  pub oneshot : Bool

pub record Controller : Type 0 where
  pub timers : List ℕ
  pub timer_map : List ℕ
  pub object : ℕ → Timer

-- `Timer::Comp` compares by the tick.
abbrev pub tick_in : (ℕ → Timer) → ℕ → ℕ
tick_in o i = (o i).tick

-- A write through a pointer to a timer.
abbrev pub write : ℕ → Timer → (ℕ → Timer) → ℕ → Timer
write i t o j = if j == i then t else o j

-- A multiset inserts at the upper bound.
unfoldable pub insert_timer : (ℕ → ℕ) → ℕ → List ℕ → List ℕ
insert_timer tick i [] = i ∷ []
insert_timer tick i (x ∷ xs) =
    if ltb (tick i) (tick x) then i ∷ x ∷ xs else x ∷ insert_timer tick i xs

abbrev pub keep_first : ℕ → Option (List ℕ) → Option (List ℕ)
keep_first x none = none
keep_first x (some xs) = some (x ∷ xs)

-- The pointer is looked for from `lower_bound` on, until `upper_bound`, and erased.
unfoldable pub erase_equal : (ℕ → ℕ) → ℕ → List ℕ → Option (List ℕ)
erase_equal tick i [] = none
erase_equal tick i (x ∷ xs) =
    if ltb (tick i) (tick x)
    then none
    else if x == i
    then some xs
    else keep_first x (erase_equal tick i xs)

unfoldable pub erase_timer : (ℕ → ℕ) → ℕ → List ℕ → Option (List ℕ)
unfolding erase_equal
erase_timer tick i [] = none
erase_timer tick i (x ∷ xs) =
    if ltb (tick x) (tick i)
    then keep_first x (erase_timer tick i xs)
    else erase_equal tick i (x ∷ xs)

abbrev pub or_same : List ℕ → Option (List ℕ) → List ℕ
or_same xs none = xs
or_same xs (some ys) = ys

abbrev pub clear : Controller → Controller
clear c = record c { timers = []; timer_map = [] }

-- `id` is what the allocator returns.
unfoldable pub add_timer : ℕ → ℕ → ℕ → Bool → Controller → Controller
unfolding insert_timer
add_timer id now_tick interval oneshot c =
    let interval_tick = interval / 100 in
    let object =
      write id
        (record {
          tick = (now_tick + interval_tick) % u64_mod;
          interval_tick = interval_tick;
          oneshot = oneshot;
        })
        c.object in
    record {
      timers = insert_timer (tick_in object) id c.timers;
      timer_map = insert id c.timer_map;
      object = object;
    }

unfoldable pub del_timer : ℕ → Controller → Controller
unfolding erase_timer
del_timer id c =
    if contains id c.timer_map
    then record c {
      timer_map = erase id c.timer_map;
      timers = or_same c.timers (erase_timer (tick_in c.object) id c.timers);
    }
    else c

-- `m_tick = now_tick + m_interval_tick`.
abbrev pub rewind : ℕ → ℕ → (ℕ → Timer) → ℕ → Timer
rewind now_tick id o =
    write id (record (o id) { tick = (now_tick + (o id).interval_tick) % u64_mod }) o

unfoldable pub reset_timer : ℕ → ℕ → Controller → Controller
unfolding erase_timer insert_timer
reset_timer now_tick id c =
    if contains id c.timer_map
    then elim (erase_timer (tick_in c.object) id c.timers) [
      | none ↦ c
      | some xs ↦ record c {
        object = rewind now_tick id c.object;
        timers = insert_timer (tick_in (rewind now_tick id c.object)) id xs;
      }
    ]
    else c

-- `run`: the timers that are due leave the set, up to the first that is not.
abbrev pub take_due : (ℕ → ℕ) → ℕ → List ℕ → List ℕ
take_due tick now_tick [] = []
take_due tick now_tick (x ∷ xs) =
    if leb (tick x) now_tick then x ∷ take_due tick now_tick xs else []

abbrev pub drop_due : (ℕ → ℕ) → ℕ → List ℕ → List ℕ
drop_due tick now_tick [] = []
drop_due tick now_tick (x ∷ xs) =
    if leb (tick x) now_tick then drop_due tick now_tick xs else x ∷ xs

-- Does the loop over the list of timers make a round?
abbrev pub has_any : List ℕ → Bool
has_any [] = false
has_any (x ∷ xs) = true

-- What becomes of a timer that has been called.
unfoldable pub settle : ℕ → ℕ → Controller → Controller
unfolding insert_timer
settle now_tick id c =
    if (c.object id).oneshot
    then record c { timer_map = erase id c.timer_map }
    else let object = rewind now_tick id c.object in
      record c {
        object = object;
        timers =
            if contains id c.timer_map then insert_timer (tick_in object) id c.timers else c.timers;
      }

module _ {ℓ} {W : Type ℓ} (call : ℕ → Controller × W → Controller × W) where
  -- The callbacks `m_cb` change the controller and the rest of the program, `W`.
  unfoldable pub call_all : ℕ → List ℕ → Controller × W → Controller × W
  unfolding settle
  call_all now_tick [] s = s
  call_all now_tick (i ∷ is) s =
      let t = call i s in call_all now_tick is (settle now_tick i t.0, t.1)

  -- The Boolean that is returned, `called`, is set by each call of a callback.
  unfoldable pub run : ℕ → Controller × W → (Controller × W) × Bool
  unfolding call_all
  run now_tick (c, w) =
      let due = take_due (tick_in c.object) now_tick c.timers in
      (
        call_all now_tick due
            (record c { timers = drop_due (tick_in c.object) now_tick c.timers }, w),
        has_any due,
      )
