-- ===== src/Stream/Steps.antt =====
-- What each step of an exchange keeps, and that it comes nearer to the end.
use dingospeed.Base.{
  ℕ, ◌+◌, ◌*◌, ◌≤◌, ◌<◌, ◌≡◌, refl, sym, ap, ◌∙◌, ◌⊎◌, inl, inr, List, [], ◌∷◌, ◌++◌, Bool, true,
  false, Option, some, none, arith, append-nil, append_assoc, length, length-append, ltb, ltb→lt,
  Bool-cases, Option-cases,
}
use mathlib.Core.Path.{subst}
use dingospeed.CacheRead.Laws.{joined}
use dingospeed.Download.Content.{joined-append}
use dingospeed.Stream.{
  Phase, awaiting, streaming, ended, Exchange, Event, send, return_, read_error, receive,
  context_done, write_failed, start, send_value, return_from, await_error, receive_value, step, run,
}

-- The client stays, and its connection takes what is written.
abbrev pub IsQuiet : Event → Type 0
IsQuiet send = Unit {0}
IsQuiet return_ = Unit {0}
IsQuiet read_error = Unit {0}
IsQuiet receive = Unit {0}
IsQuiet context_done = ⊥
IsQuiet write_failed = ⊥

abbrev pub AllQuiet : List Event → Type 0
AllQuiet [] = Unit {0}
AllQuiet (e ∷ events) = IsQuiet e × AllQuiet events

abbrev pub status_of : Option ℕ → ℕ
status_of none = 200
status_of (some code) = code

abbrev weight : Phase → ℕ
weight awaiting = 2
weight streaming = 1
weight ended = 0

abbrev left_to_return : Bool → ℕ
left_to_return true = 0
left_to_return false = 1

-- The events that can still come, at most.
abbrev pub measure : Exchange → ℕ
measure s = 2 * length s.unsent + length s.buffer + left_to_return s.returned + weight s.phase

abbrev pub all_bytes : Exchange → List ℕ
all_bytes s = joined s.written ++ (joined s.buffer ++ joined s.unsent)

-- While the handler waits nothing is taken; later, all was sent before.
abbrev pub PhaseHolds : ℕ → ℕ → Exchange → Phase → Type 0
PhaseHolds capacity n s awaiting =
    (s.written ≡ []) × (s.status ≡ none) × (length s.buffer + length s.unsent ≡ n)
PhaseHolds capacity n s streaming =
    (s.returned ≡ true) × (s.failure ≡ none) × (s.status ≡ some 200) × (n ≤ capacity)
PhaseHolds capacity n s ended =
    (s.returned ≡ true) × (s.buffer ≡ []) × (s.status ≡ some (status_of s.failure)) × (n ≤ capacity)

module _ (capacity : ℕ) (failure : Option ℕ) (values : List (List ℕ))
    (alone : (failure ≡ none) ⊎ (values ≡ [])) where
  pub record IsSound (s : Exchange) : Type 0 where
    pub bytes : all_bytes s ≡ joined values
    pub phases : PhaseHolds capacity (length values) s s.phase
    pub all_sent : s.returned ≡ true → s.unsent ≡ []
    pub room : length s.buffer ≤ capacity
    pub same_failure : s.failure ≡ failure

  pub start-IsSound : IsSound (start failure values)
  unfolding start
  start-IsSound = record {
    bytes = refl;
    phases = (refl, refl, omega arith);
    all_sent = λ e. cc;
    room = omega arith;
    same_failure = refl;
  }

  -- What a step has to do.
  abbrev Advances : Exchange → Exchange → Type 0
  Advances s t = IsSound t × (measure t < measure s)

  advanced : (s x t : Exchange) → some x ≡ some t → Advances s x → Advances s t
  advanced s x t e a = let e' : x ≡ t = cc in subst (Advances s) e' a

  abbrev exchange :
      List (List ℕ) → Option ℕ → Bool → List (List ℕ) → Phase → Option ℕ → List (List ℕ) → Exchange
  exchange unsent failure returned buffer phase status written = record {
    unsent = unsent;
    failure = failure;
    returned = returned;
    buffer = buffer;
    phase = phase;
    status = status;
    written = written;
  }

  sent_bytes :
      (w b : List (List ℕ)) (x : List ℕ) (xs : List (List ℕ))
      → joined w ++ (joined (b ++ x ∷ []) ++ joined xs) ≡ joined w ++ (joined b ++ (x ++ joined xs))
  sent_bytes w b x xs = simp (joined-append, append_assoc, append-nil)

  written_bytes :
      (w b : List (List ℕ)) (x : List ℕ) (xs : List (List ℕ))
      → joined (w ++ x ∷ []) ++ (joined b ++ joined xs) ≡ joined w ++ (x ++ joined b ++ joined xs)
  written_bytes w b x xs = simp (joined-append, append_assoc, append-nil)

  module _ (st : Option ℕ) (w : List (List ℕ)) where
    send-Advances :
        (u : List (List ℕ)) (f : Option ℕ) (r : Bool) (b : List (List ℕ)) (p : Phase) (t : Exchange)
        → IsSound (exchange u f r b p st w)
        → send_value capacity (exchange u f r b p st w) u ≡ some t
        → Advances (exchange u f r b p st w) t
    unfolding send_value
    send-Advances [] f r b p t v h = absurd (cc)
    send-Advances (x ∷ xs) f true b p t v h = absurd (cc (v.all_sent refl))
    send-Advances (x ∷ xs) f false b streaming t v h = absurd (cc (v.phases.0))
    send-Advances (x ∷ xs) f false b ended t v h = absurd (cc (v.phases.0))
    send-Advances (x ∷ xs) f false b awaiting t v h = elim (Bool-cases (ltb (length b) capacity)) [
      | inr full ↦ absurd (cc (full, h))
      | inl free ↦
          let grown = length-append b (x ∷ []) in
          let (none_written, no_status, all) = v.phases in
          advanced (exchange (x ∷ xs) f false b awaiting st w)
            (exchange xs f false (b ++ x ∷ []) awaiting st w) t (sym (rw free refl) ∙ h)
            (
              record {
                bytes = sent_bytes w b x xs ∙ v.bytes;
                phases = (none_written, no_status, omega (arith, grown, all));
                all_sent = λ e. cc;
                room = omega (arith, ltb→lt _ _ free, grown);
                same_failure = v.same_failure;
              },
              omega (arith, grown),
            )
    ]

    return-Advances :
        (u : List (List ℕ)) (f : Option ℕ) (r : Bool) (b : List (List ℕ)) (p : Phase) (t : Exchange)
        → IsSound (exchange u f r b p st w)
        → return_from (exchange u f r b p st w) u r ≡ some t
        → Advances (exchange u f r b p st w) t
    unfolding return_from
    return-Advances (x ∷ xs) f r b p t v h = absurd (cc)
    return-Advances [] f true b p t v h = absurd (cc)
    return-Advances [] f false b streaming t v h = absurd (cc (v.phases.0))
    return-Advances [] f false b ended t v h = absurd (cc (v.phases.0))
    return-Advances [] f false b awaiting t v h =
        advanced (exchange [] f false b awaiting st w) (exchange [] f true b awaiting st w) t h (
          record {
            bytes = v.bytes;
            phases = v.phases;
            all_sent = λ e. refl;
            room = v.room;
            same_failure = v.same_failure;
          },
          omega arith,
        )

    -- With an error nothing is in the channel.
    no_values :
        (b u : List (List ℕ)) (f : Option ℕ) (code : ℕ)
        → f ≡ some code
        → f ≡ failure
        → length b + length u ≡ length values
        → b ≡ []
    no_values [] u f code e same len = refl
    no_values (x ∷ b) u f code e same len = elim alone [
      | inl quiet ↦ absurd (cc (quiet, e, same))
      | inr nothing ↦ absurd (omega (arith, ap (λ (l : List (List ℕ)). length l) nothing, len))
    ]

    enough_room :
        (u b : List (List ℕ))
        → u ≡ []
        → length b + length u ≡ length values
        → length b ≤ capacity
        → length values ≤ capacity
    enough_room u b e len room = omega (arith, ap (λ (l : List (List ℕ)). length l) e, len, room)

    await-Advances :
        (u : List (List ℕ)) (f : Option ℕ) (r : Bool) (b : List (List ℕ)) (p : Phase) (t : Exchange)
        → IsSound (exchange u f r b p st w)
        → await_error (exchange u f r b p st w) p r f ≡ some t
        → Advances (exchange u f r b p st w) t
    unfolding await_error
    await-Advances u f r b streaming t v h = absurd (cc)
    await-Advances u f r b ended t v h = absurd (cc)
    await-Advances u f false b awaiting t v h = absurd (cc)
    await-Advances u none true b awaiting t v h =
        advanced (exchange u none true b awaiting st w)
          (exchange u none true b streaming (some 200) w) t h
          (
            record {
              bytes = v.bytes;
              phases = (refl, refl, refl, enough_room u b (v.all_sent refl) v.phases.2 v.room);
              all_sent = v.all_sent;
              room = v.room;
              same_failure = v.same_failure;
            },
            omega arith,
          )
    await-Advances u (some code) true b awaiting t v h =
        advanced (exchange u (some code) true b awaiting st w)
          (exchange u (some code) true b ended (some code) w) t h
          (
            record {
              bytes = v.bytes;
              phases = (
                refl,
                no_values b u (some code) code refl v.same_failure v.phases.2,
                refl,
                enough_room u b (v.all_sent refl) v.phases.2 v.room,
              );
              all_sent = v.all_sent;
              room = v.room;
              same_failure = v.same_failure;
            },
            omega arith,
          )

    receive-Advances :
        (u : List (List ℕ)) (f : Option ℕ) (r : Bool) (b : List (List ℕ)) (p : Phase) (t : Exchange)
        → IsSound (exchange u f r b p st w)
        → receive_value (exchange u f r b p st w) p b r ≡ some t
        → Advances (exchange u f r b p st w) t
    unfolding receive_value
    receive-Advances u f r b awaiting t v h = absurd (cc)
    receive-Advances u f r b ended t v h = absurd (cc)
    receive-Advances u f false [] streaming t v h = absurd (cc)
    receive-Advances u f true [] streaming t v h =
        let (back, no_error, ok_status, same) = v.phases in
        advanced (exchange u f true [] streaming st w) (exchange u f true [] ended st w) t h (
          record {
            bytes = v.bytes;
            phases = (refl, refl, ok_status ∙ ap some (sym (ap status_of no_error)), same);
            all_sent = v.all_sent;
            room = v.room;
            same_failure = v.same_failure;
          },
          omega arith,
        )
    receive-Advances u f r ([] ∷ xs) streaming t v h =
        advanced (exchange u f r ([] ∷ xs) streaming st w) (exchange u f r xs streaming st w) t h (
          record {
            bytes = v.bytes;
            phases = v.phases;
            all_sent = v.all_sent;
            room = omega (arith, v.room);
            same_failure = v.same_failure;
          },
          omega arith,
        )
    receive-Advances u f r ((c ∷ cs) ∷ xs) streaming t v h =
        advanced (exchange u f r ((c ∷ cs) ∷ xs) streaming st w)
          (exchange u f r xs streaming st (w ++ (c ∷ cs) ∷ [])) t h
          (
            record {
              bytes = written_bytes w xs (c ∷ cs) u ∙ v.bytes;
              phases = v.phases;
              all_sent = v.all_sent;
              room = omega (arith, v.room);
              same_failure = v.same_failure;
            },
            omega arith,
          )

  step-Advances :
      (e : Event) (s t : Exchange)
      → IsQuiet e
      → IsSound s
      → step capacity e s ≡ some t
      → Advances s t
  unfolding step
  step-Advances send s t q v h =
      send-Advances s.status s.written s.unsent s.failure s.returned s.buffer s.phase t v h
  step-Advances return_ s t q v h =
      return-Advances s.status s.written s.unsent s.failure s.returned s.buffer s.phase t v h
  step-Advances read_error s t q v h =
      await-Advances s.status s.written s.unsent s.failure s.returned s.buffer s.phase t v h
  step-Advances receive s t q v h =
      receive-Advances s.status s.written s.unsent s.failure s.returned s.buffer s.phase t v h
  step-Advances context_done s t q v h = absurd q
  step-Advances write_failed s t q v h = absurd q

  pub run-Sound :
      (events : List Event) (s t : Exchange)
      → AllQuiet events
      → IsSound s
      → run capacity events s ≡ some t
      → IsSound t × (length events + measure t ≤ measure s)
  unfolding run
  run-Sound [] s t q v h = let e : s ≡ t = cc in (subst IsSound e v, omega (arith, ap measure e))
  run-Sound (e ∷ events) s t (q, qs) v h = elim (Option-cases (step capacity e s)) [
    | inl no_step ↦ absurd (cc (no_step, h))
    | inr (s', taken) ↦
        let (v', less) = step-Advances e s s' q v taken in
        let (v'', bound) = run-Sound events s' t qs v' (sym (rw taken refl) ∙ h) in
        (v'', omega (arith, less, bound))
  ]
