-- ===== src/Limit.antt =====
-- pkg/middleware/queue_limit.go: the requests in progress, bounded by two channels of slots.
-- A request takes its slot without waiting, or is refused. The handler runs between two steps.
pub mod Steps
use text.Mathlib.Text.{◌==◌ as str_eq}
use dingospeed.Base.{
  ℕ, ◌+◌, ◌-◌, ◌*◌, String, List, [], ◌∷◌, Bool, true, false, ◌&&◌, Option, some, none, ltb,
  if◌then◌else◌,
}
use dingospeed.Http.{contains}

-- What the middleware reads of a request; `remote_addr_valid` says that SplitHostPort succeeds.
pub record Request : Type 0 where
  pub url : String
  pub method : String
  pub remote_addr_valid : Bool

-- The queue that a request takes a slot of.
pub data Slot : Type 0 where
  no_slot request_slot file_download_slot : Slot

-- The slots in use, and the Prometheus counters over all sources.
pub record Queues : Type 0 where
  pub request_queue : ℕ
  pub file_download_queue : ℕ
  pub request_total_cnt : ℕ
  pub request_success_cnt : ℕ
  pub request_fail_cnt : ℕ
  pub request_too_many_cnt : ℕ

unfoldable pub init_middleware_config : Queues
init_middleware_config = record {
  request_queue = 0;
  file_download_queue = 0;
  request_total_cnt = 0;
  request_success_cnt = 0;
  request_fail_cnt = 0;
  request_too_many_cnt = 0;
}

-- What happens to a request: an error at once, a refusal, or the handler is called with a slot.
pub data Admission : Type 0 where
  bad_address too_many_requests : Admission
  called : Slot → Admission

-- `handler_capacity` is the setting, `enable_metric` another one.
module _ (handler_capacity : ℕ) (enable_metric : Bool) where
  unfoldable pub next_request : Queues → Admission × Queues
  next_request q =
      if ltb q.request_queue handler_capacity
      then (called request_slot, record q { request_queue = q.request_queue + 1 })
      else (too_many_requests, q)

  unfoldable pub file_request : Queues → Admission × Queues
  file_request q =
      let counted = record q { request_total_cnt = q.request_total_cnt + 1 } in
      if ltb q.file_download_queue (handler_capacity * 2)
      then (
        called file_download_slot,
        record counted { file_download_queue = q.file_download_queue + 1 },
      )
      else (too_many_requests, record counted { request_too_many_cnt = q.request_too_many_cnt + 1 })

  unfoldable pub queue_limit_middleware : Request → Queues → Admission × Queues
  unfolding next_request file_request
  queue_limit_middleware r q =
      if r.remote_addr_valid
      then (if enable_metric
          then (if contains r.url "metrics"
              then (called no_slot, q)
              else if str_eq r.method "GET" && contains r.url "resolve"
              then file_request q
              else next_request q)
          else next_request q)
      else (bad_address, q)

-- The handler of a request returned, with an error or without.
unfoldable pub handler_done : Slot → Bool → Queues → Queues
handler_done no_slot failed q = q
handler_done request_slot failed q = record q { request_queue = q.request_queue - 1 }
handler_done file_download_slot failed q =
    let freed = record q { file_download_queue = q.file_download_queue - 1 } in
    if failed
    then record freed { request_fail_cnt = q.request_fail_cnt + 1 }
    else record freed { request_success_cnt = q.request_success_cnt + 1 }
