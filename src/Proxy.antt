-- ===== src/Proxy.antt =====
-- The proxy check of internal/service/sys_service.go: its counters, and what each test result does.
-- A test is a request through the proxy; what comes back is a parameter.
pub mod Laws
use dingospeed.Base.{
  ℕ, ◌+◌, ℤ, pos, ltb_ℤ, List, [], ◌∷◌, Bool, true, false, not, ◌&&◌, Option, some, none, ltb, leb,
  if◌then◌else◌,
}

-- What SendData announces.
pub data Message : Type 0 where
  recovered lost : Message

-- The package's variables and ProxyIsAvailable, with the messages sent so far, the last one first.
pub record ProxyState : Type 0 where
  pub proxy_is_available : Bool
  pub continuous_fail_count : ℕ
  pub has_sent_failure_msg : Bool
  pub sent : List Message

unfoldable pub proxy_start : ProxyState
proxy_start = record {
  proxy_is_available = true;
  continuous_fail_count = 0;
  has_sent_failure_msg = false;
  sent = [];
}

unfoldable pub handle_proxy_test_success : ProxyState → ProxyState
handle_proxy_test_success s =
    let reset = record s { continuous_fail_count = 0; has_sent_failure_msg = false } in
    if not s.proxy_is_available
    then record reset { proxy_is_available = true; sent = recovered ∷ s.sent }
    else reset

module _ (max_continuous_fails : ℤ) where
  unfoldable pub handle_continuous_failure : ProxyState → ProxyState
  handle_continuous_failure s =
      let count = s.continuous_fail_count + 1 in
      if not (ltb_ℤ (pos count) max_continuous_fails) && not s.has_sent_failure_msg
      then record s {
        continuous_fail_count = count;
        proxy_is_available = false;
        sent = lost ∷ s.sent;
        has_sent_failure_msg = true;
      }
      else record s { continuous_fail_count = count }

  -- The response's status, or none when the request failed.
  unfoldable pub handle_proxy_test_response : Option ℕ → ProxyState → ProxyState
  unfolding handle_proxy_test_success handle_continuous_failure
  handle_proxy_test_response none s = handle_continuous_failure s
  handle_proxy_test_response (some status) s =
      if leb 200 status && ltb status 400
      then handle_proxy_test_success s
      else handle_continuous_failure s

  -- The responses so far, the last one first.
  unfoldable pub run_tests : List (Option ℕ) → ProxyState
  run_tests [] = proxy_start
  run_tests (response ∷ before) = handle_proxy_test_response response (run_tests before)
