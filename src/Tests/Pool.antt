-- ===== src/Tests/Pool.antt =====
-- Runs of the worker pool on tasks that are their numbers.
use dingospeed.Base.{
  ℕ, ◌+◌, ◌*◌, ◌≤◌, ◌≡◌, refl, List, [], ◌∷◌, true, false, some, length, nat_keyed,
}
use dingospeed.SafeMap.{
  find, without, exist, set_key, get_key, delete_key, delete_all, new_safe_map,
}
use dingospeed.Pool.{
  Pool, Event, submit, hand_over, keep, close, leave, end_close, finish, nobody, new_pool, run,
}
use dingospeed.Pool.Entries.{Distinct}
use dingospeed.Pool.Laws.{run_bounds, IsOver, run-Closes}

abbrev number : ℕ → ℕ
number n = n

-- Two workers get two tasks, and a second task 7 is left out.
abbrev two_tasks : List (Event ℕ)
two_tasks = submit 7 ∷ hand_over ∷ keep ∷ submit 7 ∷ submit 8 ∷ hand_over ∷ keep ∷ []

abbrev busy : Pool ℕ
busy = record {
  idle = 0;
  running = 8 ∷ 7 ∷ [];
  gone = 0;
  holder = nobody;
  task_map = record { m = (8, 8) ∷ (7, 7) ∷ [] };
  closed = false;
  close_returned = false;
}

two_run : run number 2 true two_tasks (new_pool number 2 true) ≡ some busy
unfolding run new_pool new_safe_map exist get_key find set_key without
two_run = refl

run_bounds_example : (length busy.running ≤ 2) × (true ≡ true → Distinct number busy.running)
run_bounds_example = run_bounds number 2 true two_tasks busy two_run

abbrev closing : List (Event ℕ)
closing = submit 7 ∷ hand_over ∷ keep ∷ close ∷ []

abbrev closing_pool : Pool ℕ
closing_pool = record {
  idle = 1;
  running = 7 ∷ [];
  gone = 0;
  holder = nobody;
  task_map = record { m = (7, 7) ∷ [] };
  closed = true;
  close_returned = false;
}

closing_happens : run number 2 true closing (new_pool number 2 true) ≡ some closing_pool
unfolding run new_pool new_safe_map exist get_key find set_key without
closing_happens = refl

abbrev last_events : List (Event ℕ)
last_events = leave ∷ finish 0 ∷ leave ∷ end_close ∷ []

abbrev done_pool : Pool ℕ
done_pool = record {
  idle = 0;
  running = [];
  gone = 2;
  holder = nobody;
  task_map = record { m = [] };
  closed = true;
  close_returned = true;
}

last_run : run number 2 true last_events closing_pool ≡ some done_pool
unfolding run delete_key delete_all without
last_run = refl

run-Closes_example :
    (4 ≤ 2 * 1 + 1 + 1)
    × (IsOver number 2 true done_pool
        → (done_pool.close_returned ≡ true) × (length done_pool.running ≡ 0) × (done_pool.gone ≡ 2))
run-Closes_example =
    run-Closes number 2 true closing closing_pool closing_happens refl last_events done_pool
      last_run

-- The task ends before its entry is made: the entry stays, and the next task 7 is left out.
abbrev early_end : List (Event ℕ)
early_end = submit 7 ∷ hand_over ∷ finish 0 ∷ keep ∷ submit 7 ∷ []

abbrev stale_pool : Pool ℕ
stale_pool = record {
  idle = 2;
  running = [];
  gone = 0;
  holder = nobody;
  task_map = record { m = (7, 7) ∷ [] };
  closed = false;
  close_returned = false;
}

stale_run : run number 2 true early_end (new_pool number 2 true) ≡ some stale_pool
unfolding run new_pool new_safe_map exist get_key find set_key delete_key without
stale_run = refl
