-- ===== src/Http.antt =====
-- pkg/util/http_util.go: the domain that a request goes to, and its repetition.
-- What the servers answer is a parameter of the code that sends requests.
use text.Mathlib.Text.{starts_with}
use dingospeed.Base.{ℕ, zero, suc, String, Bool, true, false, not, ◌&&◌, if◌then◌else◌}

-- What the choice of a domain reads: ProxyIsAvailable and three settings.
pub record Connection : Type 0 where
  pub proxy_is_available : Bool
  pub dynamic_proxy_enabled : Bool
  pub hf_url_base : String
  pub bp_hf_url_base : String

-- strings.Contains
unfoldable pub contains : String → String → Bool
contains String.[] part = starts_with String.[] part
contains (String.◌∷◌ c s) part = if starts_with (String.◌∷◌ c s) part then true else contains s part

unfoldable pub is_inner_domain : String → Bool
unfolding contains
is_inner_domain url = not (contains url "huggingface") && not (contains url "hf-mirror")

-- The domain of constructClient, and whether its client goes through the proxy.
unfoldable pub construct_client : Connection → String × Bool
construct_client c =
    if not c.proxy_is_available && c.dynamic_proxy_enabled
    then (c.bp_hf_url_base, false)
    else (c.hf_url_base, true)

-- The domain that GetStream asks.
unfoldable pub get_stream_domain : Connection → String → String
unfolding construct_client
get_stream_domain c domain = if is_inner_domain domain then domain else (construct_client c).0

-- RetryRequest on a request that reports failure as `true`: up to `attempts` times, and as long as
-- it fails. With 0 attempts the library repeats without end, which is not modelled.
unfoldable pub retry_request {ℓ} : {S : Type ℓ} → (S → Bool × S) → ℕ → S → Bool × S
retry_request f zero s = (true, s)
retry_request f (suc attempts) s =
    let (failed, s') = f s in
    let again = retry_request f attempts s' in if failed then again else (false, s')
