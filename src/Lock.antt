-- ===== src/Lock.antt =====
-- pkg/lock/distributed_lock.go: the renewal of a lock that is held. What the loop's select receives is
-- a list of events; the lock itself, and the sleep after a failure, are the library's.
pub mod Laws
use dingospeed.Base.{ℕ, ◌+◌, ◌^◌, List, [], ◌∷◌, ltb, leb, if◌then◌else◌}

-- Seconds; `retry` is below 62 here, where the shift does not overflow.
unfoldable pub exponential_backoff : ℕ → ℕ
exponential_backoff retry =
    let max_delay : ℕ = 5 in
    let delay = 2 ^ retry in if ltb max_delay delay then max_delay else delay

-- The context is done, the lock was extended or not on a tick, or the lock is released.
pub data Event : Type 0 where
  ctx_done extended extend_failed stop_renewal : Event

-- The loop returned, after it told that renewing failed or not, or it waits with its counter.
pub data Renewal : Type 0 where
  returned renewal_failed : Renewal
  waiting : ℕ → Renewal

unfoldable pub renew_loop : ℕ → List Event → Renewal
renew_loop retry_count [] = waiting retry_count
renew_loop retry_count (ctx_done ∷ events) = returned
renew_loop retry_count (extended ∷ events) = renew_loop 0 events
renew_loop retry_count (extend_failed ∷ events) =
    let rest = renew_loop (retry_count + 1) events in
    if leb 3 (retry_count + 1) then renewal_failed else rest
renew_loop retry_count (stop_renewal ∷ events) = returned
