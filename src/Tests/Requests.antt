-- ===== src/Tests/Requests.antt =====
-- Requests to the server, and a lock, on concrete values.
use dingospeed.Base.{
  ◌≡◌, ◌≢◌, ◌↔◌, arith, List, [], ◌∷◌, String, true, some, none, ok, string_same_iff,
}
use dingospeed.Limit.{Request, queue_limit_middleware}
use dingospeed.Limit.Steps.{
  Server, start, at_start, then_step, arrives, admitted, IsBounded, Reach-IsBounded,
}
use dingospeed.RangeHeader.{requested_range, range_header}
use dingospeed.RangeHeader.RoundTrip.{requested_range-range_header}
use dingospeed.CacheContent.{
  Files, hex_encode, write_cache_request, read_cache_request, version_snapshot,
}
use dingospeed.CacheContent.RoundTrip.{read_cache_request-write_cache_request}
use dingospeed.Lock.{Event, extended, extend_failed, renew_loop, renewal_failed}
use dingospeed.Lock.Laws.{FailsThrice, renew_loop-FailsThrice}

abbrev page : Request
page = record { url = "/api/models/a/b"; method = "GET"; remote_addr_valid = true }

abbrev download : Request
download = record { url = "/a/b/resolve/main/f"; method = "GET"; remote_addr_valid = true }

abbrev after_page : Server
after_page = admitted 2 true (queue_limit_middleware 2 true page start.queues) start.running

abbrev after_download : Server
after_download =
    admitted 2 true (queue_limit_middleware 2 true download after_page.queues) after_page.running

Reach-IsBounded_example : IsBounded 2 true after_download
Reach-IsBounded_example =
    Reach-IsBounded 2 true
      (then_step (then_step at_start (arrives page start)) (arrives download after_page))

requested_range-range_header_example : requested_range (range_header 4 9) 20 ≡ ok (4, 10)
requested_range-range_header_example =
    requested_range-range_header 4 10 20 (omega arith) (omega arith) (omega arith)

abbrev no_answers : Files
no_answers path = none

abbrev path_a : String
path_a = "a"

paths_apart : path_a ≢ "b"
paths_apart e = absurd (ground (arith, (string_same_iff "a" "b").1 e))

read_cache_request-write_cache_request_example :
    let files' = write_cache_request no_answers "a" 200 [] (1 ∷ 255 ∷ []) in
    (read_cache_request files' "a"
      ≡ some (
        record {
          version = version_snapshot;
          status_code = 200;
          headers = [];
          content = hex_encode (1 ∷ 255 ∷ []);
        },
        1 ∷ 255 ∷ [],
      ))
    × (read_cache_request files' "b" ≡ read_cache_request no_answers "b")
read_cache_request-write_cache_request_example =
    read_cache_request-write_cache_request no_answers "a" 200 [] (1 ∷ 255 ∷ []) "b"
      (omega arith, (omega arith, tt)) paths_apart

abbrev lost_lock : List Event
lost_lock = extend_failed ∷ extended ∷ extend_failed ∷ extend_failed ∷ extend_failed ∷ []

renew_loop-FailsThrice_example : (renew_loop 0 lost_lock ≡ renewal_failed) ↔ FailsThrice lost_lock
renew_loop-FailsThrice_example = renew_loop-FailsThrice lost_lock
