-- ===== src/Pool.antt =====
-- pkg/common/pool.go: tasks that are run by a fixed number of workers, as events in any order.
-- The channel has no places, so a task goes from a Submit, which holds the lock, to an idle worker.
-- A Submit after Close panics; doTask closes its pool after its last Submit, and it is no event here.
pub mod Entries
pub mod Steps
pub mod Laws
use dingospeed.Base.{
  ℕ, zero, suc, ◌+◌, ◌-◌, List, [], ◌∷◌, ◌++◌, Bool, true, false, not, ◌&&◌, Option, some, none,
  ltb, ◌==◌, if◌then◌else◌, get_elem?, nat_keyed,
}
use dingospeed.SafeMap.{SafeMap, new_safe_map, set_key, get_key, exist, delete_key, delete_all}

-- What a Submit is doing that has the lock: it waits in the select, or the task is with a worker and
-- the entry of a persistent pool is still to be made.
pub data Holder (T : Type 0) : Type 0 where
  nobody : Holder T
  offering recording : T → Holder T

pub record Pool (T : Type 0) : Type 0 where
  -- the workers that wait, the tasks of the others, and the workers that returned
  pub idle : ℕ
  pub running : List T
  pub gone : ℕ
  pub holder : Holder T
  pub task_map : SafeMap ℕ T
  pub closed : Bool
  pub close_returned : Bool

-- `finish k` is of the worker with the k-th task; `give_up` is of the context or of the time limit.
pub data Event (T : Type 0) : Type 0 where
  submit : T → Event T
  hand_over give_up keep close leave end_close : Event T
  finish : ℕ → Event T

abbrev pub remove_at {ℓ} : {A : Type ℓ} → List A → ℕ → List A
remove_at [] k = []
remove_at (x ∷ xs) zero = xs
remove_at (x ∷ xs) (suc k) = x ∷ remove_at xs k

module _ {T : Type 0} (get_task_no : T → ℕ) (size : ℕ) (persist : Bool) where
  unfoldable pub new_pool : Pool T
  new_pool = record {
    idle = size;
    running = [];
    gone = 0;
    holder = nobody;
    task_map = new_safe_map;
    closed = false;
    close_returned = false;
  }

  unfoldable pub get_task : Pool T → ℕ → Option T
  get_task p task_no = get_key p.task_map task_no

  -- A persistent pool leaves out a task whose number it has.
  unfoldable pub submit_task : Pool T → T → Holder T → Bool → Option (Pool T)
  submit_task p t nobody false =
      some (
        if persist && exist p.task_map (get_task_no t) then p else record p { holder = offering t })
  submit_task p t nobody true = none
  submit_task p t (offering x) closed = none
  submit_task p t (recording x) closed = none

  unfoldable pub hand_task : Pool T → Holder T → ℕ → Option (Pool T)
  hand_task p (offering t) (suc idle) = some (record p {
    idle = idle;
    running = t ∷ p.running;
    holder = if persist then recording t else nobody;
  })
  hand_task p (offering t) zero = none
  hand_task p nobody idle = none
  hand_task p (recording t) idle = none

  unfoldable pub give_task_up : Pool T → Holder T → Option (Pool T)
  give_task_up p (offering t) = some (record p { holder = nobody })
  give_task_up p nobody = none
  give_task_up p (recording t) = none

  unfoldable pub keep_task : Pool T → Holder T → Option (Pool T)
  keep_task p (recording t) =
      some (record p { holder = nobody; task_map = set_key p.task_map (get_task_no t) t })
  keep_task p nobody = none
  keep_task p (offering t) = none

  -- The loop of a worker: DoTask returned, and the entry goes.
  unfoldable pub finish_task : Pool T → ℕ → Option T → Option (Pool T)
  finish_task p k (some t) = some (record p {
    idle = p.idle + 1;
    running = remove_at p.running k;
    task_map = if persist then delete_key p.task_map (get_task_no t) else p.task_map;
  })
  finish_task p k none = none

  unfoldable pub close_channel : Pool T → Holder T → Bool → Option (Pool T)
  close_channel p nobody false = some (record p { closed = true })
  close_channel p nobody true = none
  close_channel p (offering t) closed = none
  close_channel p (recording t) closed = none

  -- A worker that waits on a closed channel returns.
  unfoldable pub leave_pool : Pool T → Bool → ℕ → Option (Pool T)
  leave_pool p true (suc idle) = some (record p { idle = idle; gone = p.gone + 1 })
  leave_pool p true zero = none
  leave_pool p false idle = none

  -- Wait, and the rest of Close.
  unfoldable pub return_close : Pool T → Bool → Bool → Option (Pool T)
  return_close p true false =
      if p.gone == size
      then some (record p {
        task_map = if persist then delete_all p.task_map else p.task_map;
        close_returned = true;
      })
      else none
  return_close p true true = none
  return_close p false close_returned = none

  -- The next state, or none when the event cannot happen.
  unfoldable pub step : Event T → Pool T → Option (Pool T)
  unfolding submit_task hand_task give_task_up keep_task finish_task close_channel leave_pool
      return_close
  step (submit t) p = submit_task p t p.holder p.closed
  step hand_over p = hand_task p p.holder p.idle
  step give_up p = give_task_up p p.holder
  step keep p = keep_task p p.holder
  step (finish k) p = finish_task p k (get_elem? p.running k)
  step close p = close_channel p p.holder p.closed
  step leave p = leave_pool p p.closed p.idle
  step end_close p = return_close p p.closed p.close_returned

  abbrev pub and_then : Option (Pool T) → (Pool T → Option (Pool T)) → Option (Pool T)
  and_then none next = none
  and_then (some p) next = next p

  unfoldable pub run : List (Event T) → Pool T → Option (Pool T)
  unfolding step
  run [] p = some p
  run (e ∷ events) p = and_then (step e p) (run events)
