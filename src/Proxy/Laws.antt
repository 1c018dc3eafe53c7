-- ===== src/Proxy/Laws.antt =====
-- Whether the proxy counts as available, as a function of the responses so far.
use dingospeed.Base.{
  ℕ, ◌+◌, ◌≡◌, refl, ℤ, pos, negsuc, ltb_ℤ, List, [], ◌∷◌, Bool, true, false, not, ◌&&◌, ◌||◌,
  Option, some, none, ltb, leb, ◌==◌, if◌then◌else◌, arith, either_way,
}
use dingospeed.Proxy.{
  Message, recovered, lost, ProxyState, proxy_start, handle_proxy_test_success,
  handle_continuous_failure, handle_proxy_test_response, run_tests,
}

abbrev pub is_connected : Option ℕ → Bool
is_connected none = false
is_connected (some status) = leb 200 status && ltb status 400

-- The failures since the last response that was not one.
abbrev pub failures : List (Option ℕ) → ℕ
failures [] = 0
failures (response ∷ before) = if is_connected response then 0 else failures before + 1

module _ (max_continuous_fails : ℤ) where
  abbrev pub is_available : List (Option ℕ) → Bool
  is_available l = failures l == 0 || ltb_ℤ (pos (failures l)) max_continuous_fails

  -- A message for each change, the last one first.
  abbrev pub changes : List (Option ℕ) → List Message
  changes [] = []
  changes (response ∷ before) =
      if is_available before
      then (if is_available (response ∷ before) then changes before else lost ∷ changes before)
      else (if is_available (response ∷ before) then recovered ∷ changes before else changes before)

  pub record Follows (l : List (Option ℕ)) (s : ProxyState) : Type 0 where
    pub count : s.continuous_fail_count ≡ failures l
    pub available : s.proxy_is_available ≡ is_available l
    pub announced : s.has_sent_failure_msg ≡ not (is_available l)
    pub messages : s.sent ≡ changes l

  success-Follows :
      (r : Option ℕ) (l : List (Option ℕ)) (s : ProxyState)
      → is_connected r ≡ true
      → Follows l s
      → Follows (r ∷ l) (handle_proxy_test_success s)
  unfolding handle_proxy_test_success
  success-Follows r l s good f = record {
    count = ground (arith, good);
    available = ground (arith, good);
    announced = ground (arith, good);
    messages = ground (arith, good, f.available, f.messages);
  }

  fewer : (n : ℕ) (m : ℤ) → ltb_ℤ (pos (n + 1)) m ≡ true → ltb_ℤ (pos n) m ≡ true
  fewer n (pos m) h = ground arith
  fewer n (negsuc m) h = h

  failure-Follows :
      (r : Option ℕ) (l : List (Option ℕ)) (s : ProxyState)
      → is_connected r ≡ false
      → Follows l s
      → Follows (r ∷ l) (handle_continuous_failure max_continuous_fails s)
  unfolding handle_continuous_failure
  failure-Follows r l s bad f =
      let weaker = fewer (failures l) max_continuous_fails in
      record {
        count = ground (arith, bad, f.count);
        available = ground (arith, bad, f.count, f.available, f.announced, weaker);
        announced = ground (arith, bad, f.count, f.available, f.announced, weaker);
        messages = ground (arith, bad, f.count, f.available, f.announced, f.messages, weaker);
      }

  response-Follows :
      (r : Option ℕ) (l : List (Option ℕ)) (s : ProxyState)
      → Follows l s
      → Follows (r ∷ l) (handle_proxy_test_response max_continuous_fails r s)
  unfolding handle_proxy_test_response
  response-Follows none l s f = failure-Follows none l s refl f
  response-Follows (some status) l s f =
      either_way (Follows (some status ∷ l)) (leb 200 status && ltb status 400)
        (λ good. success-Follows (some status) l s good f)
        (λ bad. failure-Follows (some status) l s bad f)

  -- After any responses: the count is the number of failures since the last one that was answered with
  -- a status from 200 to 399, the proxy counts as available when there are none of them or fewer than
  -- the setting, and the messages sent are one for each change of that, in order.
  pub run_tests-Follows : (l : List (Option ℕ)) → Follows l (run_tests max_continuous_fails l)
  unfolding run_tests proxy_start
  run_tests-Follows [] = record {
    count = refl;
    available = refl;
    announced = refl;
    messages = refl;
  }
  run_tests-Follows (r ∷ l) =
      response-Follows r l (run_tests max_continuous_fails l) (run_tests-Follows l)
