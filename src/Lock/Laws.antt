-- ===== src/Lock/Laws.antt =====
-- When the renewal of a lock is given up.
use dingospeed.Base.{
  ℕ, zero, suc, ◌+◌, ◌≤◌, ◌<◌, ◌≡◌, refl, ap, ◌∙◌, ◌*◌, ◌^◌, ◌↔◌, List, [], ◌∷◌, Bool, true, false,
  arith,
}
use native.Mathlib.Nat.{pow-suc}
use dingospeed.Lock.{
  Event, ctx_done, extended, extend_failed, stop_renewal, renewal_failed, renew_loop,
  exponential_backoff,
}

-- Whether an event ends the loop at once.
abbrev pub ends : Event → Bool
ends ctx_done = true
ends extended = false
ends extend_failed = false
ends stop_renewal = true

-- Three failures in a row, with no event before them that ends the loop.
pub data FailsThrice : List Event → Type 0 where
  now : (events : List Event) → FailsThrice (extend_failed ∷ extend_failed ∷ extend_failed ∷ events)
  later :
      (e : Event) {events : List Event}
      → ends e ≡ false
      → FailsThrice events
      → FailsThrice (e ∷ events)

-- With failures just before.
abbrev after_failures : ℕ → List Event → List Event
after_failures zero events = events
after_failures (suc n) events = extend_failed ∷ after_failures n events

failed_before :
    (n : ℕ) (events : List Event) → FailsThrice events → FailsThrice (after_failures n events)
failed_before zero events f = f
failed_before (suc n) events f = later extend_failed refl (failed_before n events f)

renewal_failed-FailsThrice :
    (n : ℕ) (events : List Event)
    → n < 3
    → renew_loop n events ≡ renewal_failed
    → FailsThrice (after_failures n events)
unfolding renew_loop
renewal_failed-FailsThrice n [] h e = absurd (ground (arith, e))
renewal_failed-FailsThrice n (ctx_done ∷ events) h e = absurd (ground (arith, e))
renewal_failed-FailsThrice n (stop_renewal ∷ events) h e = absurd (ground (arith, e))
renewal_failed-FailsThrice n (extended ∷ events) h e =
    failed_before n _ (later extended refl (renewal_failed-FailsThrice 0 events (omega arith) e))
renewal_failed-FailsThrice zero (extend_failed ∷ events) h e =
    renewal_failed-FailsThrice 1 events (omega arith) e
renewal_failed-FailsThrice (suc zero) (extend_failed ∷ events) h e =
    renewal_failed-FailsThrice 2 events (omega arith) e
renewal_failed-FailsThrice (suc (suc zero)) (extend_failed ∷ events) h e = now events
renewal_failed-FailsThrice (suc (suc (suc n))) (extend_failed ∷ events) h e = absurd (omega arith)

FailsThrice-renewal_failed :
    (n : ℕ) {events : List Event}
    → n < 3
    → FailsThrice events
    → renew_loop n events ≡ renewal_failed
unfolding renew_loop
FailsThrice-renewal_failed zero h (now events) = refl
FailsThrice-renewal_failed (suc zero) h (now events) = refl
FailsThrice-renewal_failed (suc (suc zero)) h (now events) = refl
FailsThrice-renewal_failed n h (later ctx_done e f) = absurd (ground (arith, e))
FailsThrice-renewal_failed n h (later stop_renewal e f) = absurd (ground (arith, e))
FailsThrice-renewal_failed n h (later extended e f) = FailsThrice-renewal_failed 0 (omega arith) f
FailsThrice-renewal_failed zero h (later extend_failed e f) =
    FailsThrice-renewal_failed 1 (omega arith) f
FailsThrice-renewal_failed (suc zero) h (later extend_failed e f) =
    FailsThrice-renewal_failed 2 (omega arith) f
FailsThrice-renewal_failed (suc (suc zero)) h (later extend_failed e f) = refl
FailsThrice-renewal_failed (suc (suc (suc n))) h f = absurd (omega arith)

-- The loop tells that renewing failed exactly when three ticks in a row failed before any event that
-- ended it.
pub renew_loop-FailsThrice :
    (events : List Event) → (renew_loop 0 events ≡ renewal_failed) ↔ FailsThrice events
renew_loop-FailsThrice events = (
  λ e. renewal_failed-FailsThrice 0 events (omega arith) e,
  λ f. FailsThrice-renewal_failed 0 (omega arith) f,
)

doubled : (n : ℕ) → 2 ^ (n + 1) ≡ 2 ^ n * 2
doubled n = let e : n + 1 ≡ suc n = omega arith in ap (λ k. 2 ^ k) e ∙ pow-suc 2 n

power_positive : (n : ℕ) → 0 < 2 ^ n
power_positive zero = omega arith
power_positive (suc n) = omega (arith, power_positive n, pow-suc 2 n)

-- A wait is of 1 to 5 seconds, and it does not get shorter from one failure to the next.
pub exponential_backoff_bounds :
    (n : ℕ)
    → (1 ≤ exponential_backoff n)
      × (exponential_backoff n ≤ 5)
      × (exponential_backoff n ≤ exponential_backoff (n + 1))
unfolding exponential_backoff
exponential_backoff_bounds n = ground (arith, doubled n, power_positive n)
