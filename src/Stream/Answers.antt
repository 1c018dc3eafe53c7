-- ===== src/Stream/Answers.antt =====
-- When a client gets its answer.
use dingospeed.Base.{
  ℕ, ◌+◌, ◌*◌, ◌≤◌, ◌<◌, ◌≡◌, ◌≢◌, refl, sym, ap, ◌∙◌, ◌⊎◌, List, [], ◌∷◌, ◌++◌, Bool, true, false,
  Option, some, none, arith, append-nil, length, lt→ltb,
}
use mathlib.Core.Path.{subst}
use dingospeed.CacheRead.Laws.{joined}
use dingospeed.Stream.{
  Phase, awaiting, streaming, ended, Exchange, Event, send, return_, read_error, receive, start,
  send_value, return_from, await_error, receive_value, step, run,
}
use dingospeed.Stream.Steps.{
  IsQuiet, AllQuiet, status_of, PhaseHolds, IsSound, start-IsSound, run-Sound,
}

-- Nothing more can happen, as long as the client stays.
abbrev pub IsOver : ℕ → Exchange → Type 0
IsOver capacity s = (e : Event) → IsQuiet e → step capacity e s ≡ none

-- The handler returned, with the status and all the bytes.
pub record Answered (failure : Option ℕ) (values : List (List ℕ)) (s : Exchange) : Type 0 where
  pub over : s.phase ≡ ended
  pub status : s.status ≡ some (status_of failure)
  pub body : joined s.written ≡ joined values

module _ (capacity : ℕ) (failure : Option ℕ) (values : List (List ℕ))
    (alone : (failure ≡ none) ⊎ (values ≡ [])) where
  abbrev IsSoundHere : Exchange → Type 0
  IsSoundHere = IsSound capacity failure values alone

  sends_more :
      (s : Exchange) (x : List ℕ) (xs : List (List ℕ))
      → length s.buffer < capacity
      → send_value capacity s (x ∷ xs) ≢ none
  unfolding send_value
  sends_more s x xs h e = cc (e, lt→ltb _ _ h)

  -- The pieces of the state, as the steps read them.
  waiting_goes_on :
      (s : Exchange) (unsent : List (List ℕ)) (returned : Bool) (failed : Option ℕ)
      → length s.buffer + length unsent ≤ capacity
      → send_value capacity s unsent ≡ none
      → return_from s unsent returned ≡ none
      → await_error s awaiting returned failed ≡ none
      → ⊥
  unfolding return_from await_error
  waiting_goes_on s (x ∷ xs) returned failed room a b d = sends_more s x xs (omega (arith, room)) a
  waiting_goes_on s [] false failed room a b d = cc b
  waiting_goes_on s [] true none room a b d = cc d
  waiting_goes_on s [] true (some code) room a b d = cc d

  streaming_goes_on :
      (s : Exchange) (buffer : List (List ℕ)) (returned : Bool)
      → returned ≡ true
      → receive_value s streaming buffer returned ≡ none
      → ⊥
  unfolding receive_value
  streaming_goes_on s [] true back e = cc e
  streaming_goes_on s [] false back e = cc back
  streaming_goes_on s ([] ∷ xs) returned back e = cc e
  streaming_goes_on s ((b ∷ bs) ∷ xs) returned back e = cc e

  at_phase :
      (s : Exchange) (phase : Phase)
      → s.phase ≡ phase
      → length values ≤ capacity
      → IsSoundHere s
      → PhaseHolds capacity (length values) s phase
      → IsOver capacity s
      → Answered failure values s
  unfolding step
  at_phase s awaiting e room v p over = absurd (
      waiting_goes_on s s.unsent s.returned s.failure (omega (arith, p.2, room)) (over send tt)
        (over return_ tt)
        (subst (λ x. await_error s x s.returned s.failure ≡ none) e (over read_error tt)))
  at_phase s streaming e room v p over = absurd (
      streaming_goes_on s s.buffer s.returned p.0
        (subst (λ x. receive_value s x s.buffer s.returned ≡ none) e (over receive tt)))
  at_phase s ended e room v (back, empty, status, fits) over = record {
    over = e;
    status = status ∙ ap (λ f. some (status_of f)) v.same_failure;
    body =
        let nothing : joined s.buffer ++ joined s.unsent ≡ [] =
          rw empty (ap joined (v.all_sent back)) in
        sym (append-nil (joined s.written))
        ∙ ap (λ l. joined s.written ++ l) (sym nothing)
        ∙ v.bytes;
  }

  -- From the start of an answer that is an error, or values that fit into the channel, while the
  -- client stays: however the sender and the handler take turns, there are at most 2 events for each
  -- value and 3 more, and when nothing more can happen the handler has returned with the error's
  -- status or 200, and has written the bytes of all values in order.
  pub run-Answers :
      length values ≤ capacity
      → (events : List Event) (s : Exchange) → AllQuiet events
      → run capacity events (start failure values) ≡ some s
      → (length events ≤ 2 * length values + 3) × (IsOver capacity s → Answered failure values s)
  unfolding start
  run-Answers room events s quiet h =
      let (v, bound) =
        run-Sound capacity failure values alone events _ s quiet
          (start-IsSound capacity failure values alone) h in
      (omega (arith, bound), λ over. at_phase s s.phase refl room v v.phases over)

  still_waits :
      (s : Exchange) (phase : Phase)
      → s.phase ≡ phase
      → capacity < length values
      → PhaseHolds capacity (length values) s phase
      → (s.phase ≡ awaiting) × (s.status ≡ none) × (s.written ≡ [])
  still_waits s awaiting e more (w, st, len) = (e, st, w)
  still_waits s streaming e more (back, no_error, st, fits) = absurd (omega (arith, more, fits))
  still_waits s ended e more (back, empty, st, fits) = absurd (omega (arith, more, fits))

  -- When the values of an answer are more than the channel takes, and while the client stays: however
  -- the sender and the handler take turns, the handler still waits, has set no status and has written
  -- nothing.
  pub run-Waits :
      capacity < length values
      → (events : List Event) (s : Exchange) → AllQuiet events
      → run capacity events (start failure values) ≡ some s
      → (s.phase ≡ awaiting) × (s.status ≡ none) × (s.written ≡ [])
  run-Waits more events s quiet h =
      let (v, bound) =
        run-Sound capacity failure values alone events _ s quiet
          (start-IsSound capacity failure values alone) h in
      still_waits s s.phase refl more v.phases
