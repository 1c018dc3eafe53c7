-- ===== src/Limit/Steps.antt =====
-- The server as requests come and go, in any order.
use dingospeed.Base.{ℕ, ◌+◌, ◌*◌, ◌≤◌, ◌≡◌, refl, List, [], ◌∷◌, Bool, ◌&&◌, ltb, either_way, arith}
use text.Mathlib.Text.{◌==◌ as str_eq}
use dingospeed.Http.{contains}
use dingospeed.Limit.{
  Request, Slot, no_slot, request_slot, file_download_slot, Queues, Admission, called, bad_address,
  too_many_requests, init_middleware_config, next_request, file_request, queue_limit_middleware,
  handler_done,
}

-- The queues, and the slots of the handlers that run.
pub record Server : Type 0 where
  pub queues : Queues
  pub running : List Slot

abbrev pub start : Server
start = record { queues = init_middleware_config; running = [] }

-- One of the running handlers, and the others.
pub data Picks : Slot → List Slot → List Slot → Type 0 where
  first : (x : Slot) (l : List Slot) → Picks x (x ∷ l) l
  later : (y : Slot) {x : Slot} {l m : List Slot} → Picks x l m → Picks x (y ∷ l) (y ∷ m)

abbrev pub is_request : Slot → ℕ
is_request no_slot = 0
is_request request_slot = 1
is_request file_download_slot = 0

abbrev pub is_file : Slot → ℕ
is_file no_slot = 0
is_file request_slot = 0
is_file file_download_slot = 1

abbrev pub total : (Slot → ℕ) → List Slot → ℕ
total weight [] = 0
total weight (x ∷ l) = weight x + total weight l

total-Picks :
    (weight : Slot → ℕ) {x : Slot} {l m : List Slot}
    → Picks x l m
    → total weight l ≡ weight x + total weight m
total-Picks weight (first x l) = refl
total-Picks weight (later y p) = omega (arith, total-Picks weight p)

module _ (handler_capacity : ℕ) (enable_metric : Bool) where
  abbrev pub admitted : Admission × Queues → List Slot → Server
  admitted (bad_address, q) running = record { queues = q; running = running }
  admitted (too_many_requests, q) running = record { queues = q; running = running }
  admitted (called slot, q) running = record { queues = q; running = slot ∷ running }

  pub data Step : Server → Server → Type 0 where
    arrives :
        (r : Request) (s : Server)
        → Step s
            (admitted (queue_limit_middleware handler_capacity enable_metric r s.queues) s.running)
    returns :
        (failed : Bool) (s : Server) {slot : Slot} {others : List Slot}
        → Picks slot s.running others
        → Step s (record { queues = handler_done slot failed s.queues; running = others })

  pub data Reach : Server → Type 0 where
    at_start : Reach start
    then_step : {s t : Server} → Reach s → Step s t → Reach t

  pub record IsBounded (s : Server) : Type 0 where
    pub requests : s.queues.request_queue ≡ total is_request s.running
    pub files : s.queues.file_download_queue ≡ total is_file s.running
    pub few_requests : s.queues.request_queue ≤ handler_capacity
    pub few_files : s.queues.file_download_queue ≤ handler_capacity * 2
    pub accounted :
        s.queues.request_total_cnt
        ≡ s.queues.request_success_cnt
          + s.queues.request_fail_cnt
          + s.queues.request_too_many_cnt
          + total is_file s.running

  abbrev Bounds : List Slot → Admission × Queues → Type 0
  Bounds running a = IsBounded (admitted a running)

  next_request-Bounds :
      (s : Server)
      → IsBounded s
      → Bounds s.running (next_request handler_capacity enable_metric s.queues)
  unfolding next_request
  next_request-Bounds s b =
      either_way (Bounds s.running) (ltb s.queues.request_queue handler_capacity)
        (λ free. ground (arith, free, b)) (λ full. b)

  file_request-Bounds :
      (s : Server)
      → IsBounded s
      → Bounds s.running (file_request handler_capacity enable_metric s.queues)
  unfolding file_request
  file_request-Bounds s b =
      either_way (Bounds s.running) (ltb s.queues.file_download_queue (handler_capacity * 2))
        (λ free. ground (arith, free, b)) (λ full. ground (arith, b))

  arrives-IsBounded :
      (r : Request) (s : Server)
      → IsBounded s
      → Bounds s.running (queue_limit_middleware handler_capacity enable_metric r s.queues)
  unfolding queue_limit_middleware
  arrives-IsBounded r s b =
      let P = Bounds s.running in
      let next = next_request-Bounds s b in
      either_way P r.remote_addr_valid
        (λ _.
          either_way P enable_metric
            (λ _.
              either_way P (contains r.url "metrics") (λ _. ground (arith, b))
                (λ _.
                  either_way P (str_eq r.method "GET" && contains r.url "resolve")
                    (λ _. file_request-Bounds s b) (λ _. next)))
            (λ _. next))
        (λ _. b)

  returns-IsBounded :
      (failed : Bool) (s : Server) (slot : Slot) (others : List Slot)
      → total is_request s.running ≡ is_request slot + total is_request others
      → total is_file s.running ≡ is_file slot + total is_file others
      → IsBounded s
      → IsBounded (record { queues = handler_done slot failed s.queues; running = others })
  unfolding handler_done
  returns-IsBounded failed s no_slot others rq fl b = ground (arith, b)
  returns-IsBounded failed s request_slot others rq fl b = ground (arith, b)
  returns-IsBounded failed s file_download_slot others rq fl b = ground (arith, b)

  Step-IsBounded : {s t : Server} → Step s t → IsBounded s → IsBounded t
  Step-IsBounded (arrives r s) b = arrives-IsBounded r s b
  Step-IsBounded (returns failed s p) b =
      returns-IsBounded failed s _ _ (total-Picks is_request p) (total-Picks is_file p) b

  -- However requests come and handlers return: the slots in use are those of the handlers that run,
  -- at most the capacity of one queue and twice that of the other, and the download requests counted
  -- are those that succeeded, failed, were refused or still run.
  pub Reach-IsBounded : {s : Server} → Reach s → IsBounded s
  unfolding init_middleware_config
  Reach-IsBounded at_start = ground arith
  Reach-IsBounded (then_step r st) = Step-IsBounded st (Reach-IsBounded r)
