-- ===== src/Pool/Laws.antt =====
-- What the pool promises: never more tasks than workers, and that Close comes to its end.
use dingospeed.Base.{
  ℕ, zero, suc, ◌+◌, ◌*◌, ◌≤◌, ◌≡◌, refl, sym, ◌∙◌, inl, inr, List, [], ◌∷◌, Bool, true, false,
  some, none, arith, length, get_elem?, eq→==, Option-cases,
}
use mathlib.Core.Path.{subst}
use dingospeed.Pool.{
  Pool, Event, finish, leave, end_close, new_pool, finish_task, leave_pool, return_close, step, run,
}
use dingospeed.Pool.Entries.{Distinct}
use dingospeed.Pool.Steps.{IsSound, measure, open_weight, new_pool-IsSound, step-Advances}

open_weight-le : (b : Bool) → open_weight b ≤ 1
open_weight-le true = omega arith
open_weight-le false = omega arith

module _ {T : Type 0} (get_task_no : T → ℕ) (size : ℕ) (persist : Bool) where
  run-IsSound :
      (events : List (Event T)) (p q : Pool T)
      → IsSound get_task_no size persist p
      → run get_task_no size persist events p ≡ some q
      → IsSound get_task_no size persist q
  unfolding run
  run-IsSound [] p q v e = let same : p ≡ q = cc in subst (IsSound get_task_no size persist) same v
  run-IsSound (e ∷ events) p q v h = elim (Option-cases (step get_task_no size persist e p)) [
    | inl no_step ↦ absurd (cc (no_step, h))
    | inr (p', taken) ↦
        run-IsSound events p' q (step-Advances get_task_no size persist e p p' v taken).0
          (sym (rw taken refl) ∙ h)
  ]

  -- However tasks are submitted and workers go on: no more tasks run than the pool has workers, and
  -- in a persistent pool no two tasks that run have the same number.
  pub run_bounds :
      (events : List (Event T)) (p : Pool T)
      → run get_task_no size persist events (new_pool get_task_no size persist) ≡ some p
      → (length p.running ≤ size) × (persist ≡ true → Distinct get_task_no p.running)
  run_bounds events p e =
      let v = run-IsSound events _ p (new_pool-IsSound get_task_no size persist) e in
      (omega (arith, v.workers), v.distinct)

  closed-run :
      (events : List (Event T)) (p q : Pool T)
      → IsSound get_task_no size persist p
      → p.closed ≡ true
      → run get_task_no size persist events p ≡ some q
      → IsSound get_task_no size persist q
        × (q.closed ≡ true)
        × (length events + measure q ≤ measure p)
  unfolding run
  closed-run [] p q v c e =
      let same : p ≡ q = cc in
      subst
        (λ x. IsSound get_task_no size persist x × (x.closed ≡ true) × (0 + measure x ≤ measure p))
        same (v, c, omega arith)
  closed-run (e ∷ events) p q v c h = elim (Option-cases (step get_task_no size persist e p)) [
    | inl no_step ↦ absurd (cc (no_step, h))
    | inr (p', taken) ↦
        let (v', goes) = step-Advances get_task_no size persist e p p' v taken in
        let (c', less) = goes c in
        let (v'', c'', bound) = closed-run events p' q v' c' (sym (rw taken refl) ∙ h) in
        (v'', c'', omega (arith, less, bound))
  ]

  -- Nothing more can happen.
  abbrev pub IsOver : Pool T → Type 0
  IsOver p = (e : Event T) → step get_task_no size persist e p ≡ none

  -- The pieces of the state, as the steps read them.
  closed_goes_on :
      (p : Pool T) (idle : ℕ) (running : List T) (returned : Bool)
      → idle + length running + p.gone ≡ size
      → returned ≡ false
      → finish_task get_task_no size persist p 0 (get_elem? running 0) ≡ none
      → leave_pool get_task_no size persist p true idle ≡ none
      → return_close get_task_no size persist p true returned ≡ none
      → ⊥
  unfolding finish_task leave_pool return_close
  closed_goes_on p idle (t ∷ running) returned w r a b c = cc a
  closed_goes_on p (suc idle) [] returned w r a b c = cc b
  closed_goes_on p zero [] true w r a b c = cc r
  closed_goes_on p zero [] false w r a b c = cc (c, eq→== p.gone size (omega (arith, w)))

  over_returned :
      (p : Pool T) (returned : Bool)
      → p.close_returned ≡ returned
      → IsSound get_task_no size persist p
      → p.closed ≡ true
      → IsOver p
      → p.close_returned ≡ true
  unfolding step
  over_returned p true r v c over = r
  over_returned p false r v c over = absurd (
      closed_goes_on p p.idle p.running p.close_returned v.workers r (over (finish 0))
        (subst (λ x. leave_pool get_task_no size persist p x p.idle ≡ none) c (over leave))
        (subst (λ x. return_close get_task_no size persist p x p.close_returned ≡ none) c
          (over end_close)))

  -- Once a pool of any history is closed: at most twice as many events follow as it has tasks that
  -- run, and one for each idle worker and one more; and when nothing more can happen Close has
  -- returned, no task runs, and every worker has returned.
  pub run-Closes :
      (before : List (Event T)) (p : Pool T)
      → run get_task_no size persist before (new_pool get_task_no size persist) ≡ some p
      → p.closed ≡ true
      → (events : List (Event T)) (q : Pool T) → run get_task_no size persist events p ≡ some q
      → (length events ≤ 2 * length p.running + p.idle + 1)
        × (IsOver q → (q.close_returned ≡ true) × (length q.running ≡ 0) × (q.gone ≡ size))
  run-Closes before p e c events q h =
      let v = run-IsSound before _ p (new_pool-IsSound get_task_no size persist) e in
      let (v', c', bound) = closed-run events p q v c h in
      (
        omega (arith, bound, open_weight-le p.close_returned),
        λ over.
            let r = over_returned q q.close_returned refl v' c' over in
            let g = (v'.back r).1 in (r, omega (arith, v'.workers, g), g),
      )
