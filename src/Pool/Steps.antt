-- ===== src/Pool/Steps.antt =====
-- What the steps of a pool keep.
use dingospeed.Base.{
  ℕ, zero, suc, ◌+◌, ◌*◌, ◌<◌, ◌≡◌, refl, sym, ◌∙◌, inl, inr, List, [], ◌∷◌, Bool, true, false,
  ◌&&◌, Option, some, none, arith, ◌==◌, ==→eq, if◌then◌else◌, length, get_elem?, nat_keyed,
  Bool-cases, either_way,
}
use mathlib.Core.Path.{subst}
use dingospeed.SafeMap.{SafeMap, set_key, exist, delete_key, delete_all}
use dingospeed.Pool.{
  Holder, nobody, offering, recording, Pool, Event, submit, hand_over, give_up, keep, close, leave,
  end_close, finish, remove_at, new_pool, submit_task, hand_task, give_task_up, keep_task,
  finish_task, close_channel, leave_pool, return_close, step,
}
use dingospeed.Pool.Entries.{
  Absent, Distinct, Entered, Distinct-remove_at, Absent-remove_at, Absent-picked, Entered-remove_at,
  Entered-delete_key, Entered-set_key, Entered-weaken, without_entry, length-remove_at,
}

-- Work that is left once the pool is closed.
abbrev pub open_weight : Bool → ℕ
open_weight true = 0
open_weight false = 1

abbrev pub measure : {T : Type 0} → Pool T → ℕ
measure p = 2 * length p.running + p.idle + open_weight p.close_returned

module _ {T : Type 0} (get_task_no : T → ℕ) (size : ℕ) (persist : Bool) where
  -- The entries of a persistent pool, by what the lock is held for.
  abbrev pub Keeps : SafeMap ℕ T → List T → Holder T → Type 0
  Keeps m l nobody = Entered get_task_no m none l
  Keeps m l (offering t) = Entered get_task_no m none l × Absent get_task_no (get_task_no t) l
  Keeps m l (recording t) = Entered get_task_no m (some (get_task_no t)) l

  pub record IsSound (p : Pool T) : Type 0 where
    pub workers : p.idle + length p.running + p.gone ≡ size
    pub distinct : persist ≡ true → Distinct get_task_no p.running
    pub keeps : persist ≡ true → Keeps p.task_map p.running p.holder
    pub open_ : p.closed ≡ false → p.gone ≡ 0
    pub quiet : p.closed ≡ true → p.holder ≡ nobody
    pub back : p.close_returned ≡ true → (p.closed ≡ true) × (p.gone ≡ size)

  pub new_pool-IsSound : IsSound (new_pool get_task_no size persist)
  unfolding new_pool
  new_pool-IsSound = record {
    workers = omega arith;
    distinct = λ e. tt;
    keeps = λ e. tt;
    open_ = λ e. refl;
    quiet = λ e. refl;
    back = λ e. absurd (cc);
  }

  -- Once closed, each step leaves less to do.
  abbrev Advances : Pool T → Pool T → Type 0
  Advances p q = IsSound q × (p.closed ≡ true → (q.closed ≡ true) × (measure q < measure p))

  advanced : (p x q : Pool T) → some x ≡ some q → Advances p x → Advances p q
  advanced p x q e a = let e' : x ≡ q = cc in subst (Advances p) e' a

  empty_Keeps :
      (m : SafeMap ℕ T) (l : List T) (h : Holder T) → length l ≡ 0 → h ≡ nobody → Keeps m l h
  empty_Keeps m [] nobody e q = tt
  empty_Keeps m (x ∷ l) h e q = absurd (omega (arith, e))
  empty_Keeps m [] (offering t) e q = absurd (cc)
  empty_Keeps m [] (recording t) e q = absurd (cc)

  module _ (gone : ℕ) (m : SafeMap ℕ T) where
    abbrev pool : ℕ → List T → Holder T → Bool → Bool → Pool T
    pool idle running holder closed ret = record {
      idle = idle;
      running = running;
      gone = gone;
      holder = holder;
      task_map = m;
      closed = closed;
      close_returned = ret;
    }

    submit-Advances :
        (i : ℕ) (l : List T) (h : Holder T) (c r : Bool) (t : T) (q : Pool T)
        → IsSound (pool i l h c r)
        → submit_task get_task_no size persist (pool i l h c r) t h c ≡ some q
        → Advances (pool i l h c r) q
    unfolding submit_task
    submit-Advances i l nobody false r t q v e =
        either_way (λ x. some x ≡ some q → Advances (pool i l nobody false r) q)
          (persist && exist m (get_task_no t))
          (λ known same.
            advanced (pool i l nobody false r) (pool i l nobody false r) q same
              (v, λ c. absurd (cc)))
          (λ unknown same.
            advanced (pool i l nobody false r) (pool i l (offering t) false r) q same (
              record {
                workers = v.workers;
                distinct = v.distinct;
                keeps = λ on. (
                  v.keeps on,
                  without_entry get_task_no m (get_task_no t) l (ground (arith, unknown, on))
                      (v.keeps on),
                );
                open_ = v.open_;
                quiet = λ c. absurd (cc);
                back = λ b. absurd (cc ((v.back b).0));
              },
              λ c. absurd (cc),
            ))
          e
    submit-Advances i l nobody true r t q v e = absurd (cc)
    submit-Advances i l (offering x) c r t q v e = absurd (cc)
    submit-Advances i l (recording x) c r t q v e = absurd (cc)

    hand-Advances :
        (i : ℕ) (l : List T) (h : Holder T) (c r : Bool) (q : Pool T)
        → IsSound (pool i l h c r)
        → hand_task get_task_no size persist (pool i l h c r) h i ≡ some q
        → Advances (pool i l h c r) q
    unfolding hand_task
    hand-Advances zero l (offering t) c r q v e = absurd (cc)
    hand-Advances i l nobody c r q v e = absurd (cc)
    hand-Advances i l (recording t) c r q v e = absurd (cc)
    hand-Advances (suc i) l (offering t) true r q v e = absurd (cc (v.quiet refl))
    hand-Advances (suc i) l (offering t) false r q v e =
        let was = pool (suc i) l (offering t) false r in
        advanced was (pool i (t ∷ l) (if persist then recording t else nobody) false r) q e (
          record {
            workers = omega (arith, v.workers);
            distinct = λ on. ((v.keeps on).1, v.distinct on);
            keeps = λ on.
                rw on (inr refl, Entered-weaken get_task_no m (get_task_no t) l (v.keeps on).0);
            open_ = v.open_;
            quiet = λ c. absurd (cc);
            back = λ b. absurd (cc ((v.back b).0));
          },
          λ c. absurd (cc),
        )

    give_up-Advances :
        (i : ℕ) (l : List T) (h : Holder T) (c r : Bool) (q : Pool T)
        → IsSound (pool i l h c r)
        → give_task_up get_task_no size persist (pool i l h c r) h ≡ some q
        → Advances (pool i l h c r) q
    unfolding give_task_up
    give_up-Advances i l nobody c r q v e = absurd (cc)
    give_up-Advances i l (recording t) c r q v e = absurd (cc)
    give_up-Advances i l (offering t) true r q v e = absurd (cc (v.quiet refl))
    give_up-Advances i l (offering t) false r q v e =
        advanced (pool i l (offering t) false r) (pool i l nobody false r) q e (
          record {
            workers = v.workers;
            distinct = v.distinct;
            keeps = λ on. (v.keeps on).0;
            open_ = v.open_;
            quiet = λ c. refl;
            back = v.back;
          },
          λ c. absurd (cc),
        )

    keep-Advances :
        (i : ℕ) (l : List T) (h : Holder T) (c r : Bool) (q : Pool T)
        → IsSound (pool i l h c r)
        → keep_task get_task_no size persist (pool i l h c r) h ≡ some q
        → Advances (pool i l h c r) q
    unfolding keep_task
    keep-Advances i l nobody c r q v e = absurd (cc)
    keep-Advances i l (offering t) c r q v e = absurd (cc)
    keep-Advances i l (recording t) true r q v e = absurd (cc (v.quiet refl))
    keep-Advances i l (recording t) false r q v e =
        let was = pool i l (recording t) false r in
        let entered = set_key m (get_task_no t) t in
        advanced was (record (pool i l nobody false r) { task_map = entered }) q e
          (
            record {
              workers = v.workers;
              distinct = v.distinct;
              keeps = λ on. Entered-set_key get_task_no m t l (v.keeps on);
              open_ = v.open_;
              quiet = λ c. refl;
              back = v.back;
            },
            λ c. absurd (cc),
          )

    -- An entry goes with its task.
    Keeps-finish :
        (l : List T) (h : Holder T) (k : ℕ) (t : T)
        → get_elem? l k ≡ some t
        → Distinct get_task_no l
        → Keeps m l h
        → Keeps (delete_key m (get_task_no t)) (remove_at l k) h
    Keeps-finish l nobody k t e d kept =
        Entered-delete_key get_task_no m none (get_task_no t) (remove_at l k)
          (Absent-picked get_task_no l k t e d) (Entered-remove_at get_task_no m none l k kept)
    Keeps-finish l (offering x) k t e d (kept, a) = (
      Entered-delete_key get_task_no m none (get_task_no t) (remove_at l k)
          (Absent-picked get_task_no l k t e d) (Entered-remove_at get_task_no m none l k kept),
      Absent-remove_at get_task_no (get_task_no x) l k a,
    )
    Keeps-finish l (recording x) k t e d kept =
        let but : Option ℕ = some (get_task_no x) in
        Entered-delete_key get_task_no m but (get_task_no t) (remove_at l k)
          (Absent-picked get_task_no l k t e d) (Entered-remove_at get_task_no m but l k kept)

    finish-Advances :
        (i : ℕ) (l : List T) (h : Holder T) (c r : Bool) (k : ℕ) (o : Option T) (q : Pool T)
        → get_elem? l k ≡ o
        → IsSound (pool i l h c r)
        → finish_task get_task_no size persist (pool i l h c r) k o ≡ some q
        → Advances (pool i l h c r) q
    unfolding finish_task
    finish-Advances i l h c r k none q found v e = absurd (cc)
    finish-Advances i l h c r k (some t) q found v e =
        let fewer = length-remove_at get_task_no l k t found in
        let left = if persist then delete_key m (get_task_no t) else m in
        advanced (pool i l h c r) (record (pool (i + 1) (remove_at l k) h c r) { task_map = left })
          q e
          (
            record {
              workers = omega (arith, v.workers, fewer);
              distinct = λ on. Distinct-remove_at get_task_no l k (v.distinct on);
              keeps = λ on. rw on (Keeps-finish l h k t found (v.distinct on) (v.keeps on));
              open_ = v.open_;
              quiet = v.quiet;
              back = v.back;
            },
            λ closed. (closed, omega (arith, fewer)),
          )

    close-Advances :
        (i : ℕ) (l : List T) (h : Holder T) (c r : Bool) (q : Pool T)
        → IsSound (pool i l h c r)
        → close_channel get_task_no size persist (pool i l h c r) h c ≡ some q
        → Advances (pool i l h c r) q
    unfolding close_channel
    close-Advances i l nobody true r q v e = absurd (cc)
    close-Advances i l (offering t) c r q v e = absurd (cc)
    close-Advances i l (recording t) c r q v e = absurd (cc)
    close-Advances i l nobody false r q v e =
        advanced (pool i l nobody false r) (pool i l nobody true r) q e (
          record {
            workers = v.workers;
            distinct = v.distinct;
            keeps = v.keeps;
            open_ = λ c. absurd (cc);
            quiet = λ c. refl;
            back = λ b. absurd (cc ((v.back b).0));
          },
          λ c. absurd (cc),
        )

    leave-Advances :
        (i : ℕ) (l : List T) (h : Holder T) (c r : Bool) (q : Pool T)
        → IsSound (pool i l h c r)
        → leave_pool get_task_no size persist (pool i l h c r) c i ≡ some q
        → Advances (pool i l h c r) q
    unfolding leave_pool
    leave-Advances i l h false r q v e = absurd (cc)
    leave-Advances zero l h true r q v e = absurd (cc)
    leave-Advances (suc i) l h true r q v e =
        advanced (pool (suc i) l h true r) (record (pool i l h true r) { gone = gone + 1 }) q e
          (
            record {
              workers = omega (arith, v.workers);
              distinct = v.distinct;
              keeps = v.keeps;
              open_ = λ c. absurd (cc);
              quiet = v.quiet;
              back = λ b. absurd (omega (arith, v.workers, (v.back b).1));
            },
            λ closed. (refl, omega arith),
          )

    return-Advances :
        (i : ℕ) (l : List T) (h : Holder T) (c r : Bool) (q : Pool T)
        → IsSound (pool i l h c r)
        → return_close get_task_no size persist (pool i l h c r) c r ≡ some q
        → Advances (pool i l h c r) q
    unfolding return_close
    return-Advances i l h false r q v e = absurd (cc)
    return-Advances i l h true true q v e = absurd (cc)
    return-Advances i l h true false q v e = elim (Bool-cases (gone == size)) [
      | inr not_yet ↦ absurd (cc (not_yet, e))
      | inl all_gone ↦
          let left = if persist then delete_all m else m in
          advanced (pool i l h true false) (record (pool i l h true true) { task_map = left }) q
            (sym (rw all_gone refl) ∙ e)
            (
              record {
                workers = v.workers;
                distinct = v.distinct;
                keeps = λ on.
                    empty_Keeps left l h (omega (arith, v.workers, ==→eq gone size all_gone))
                      (v.quiet refl);
                open_ = v.open_;
                quiet = v.quiet;
                back = λ b. (refl, ==→eq gone size all_gone);
              },
              λ closed. (refl, omega arith),
            )
    ]

  pub step-Advances :
      (e : Event T) (p q : Pool T)
      → IsSound p
      → step get_task_no size persist e p ≡ some q
      → Advances p q
  unfolding step
  step-Advances (submit t) p q v e =
      submit-Advances p.gone p.task_map p.idle p.running p.holder p.closed p.close_returned t q v e
  step-Advances hand_over p q v e =
      hand-Advances p.gone p.task_map p.idle p.running p.holder p.closed p.close_returned q v e
  step-Advances give_up p q v e =
      give_up-Advances p.gone p.task_map p.idle p.running p.holder p.closed p.close_returned q v e
  step-Advances keep p q v e =
      keep-Advances p.gone p.task_map p.idle p.running p.holder p.closed p.close_returned q v e
  step-Advances close p q v e =
      close-Advances p.gone p.task_map p.idle p.running p.holder p.closed p.close_returned q v e
  step-Advances leave p q v e =
      leave-Advances p.gone p.task_map p.idle p.running p.holder p.closed p.close_returned q v e
  step-Advances end_close p q v e =
      return-Advances p.gone p.task_map p.idle p.running p.holder p.closed p.close_returned q v e
  step-Advances (finish k) p q v e =
      finish-Advances p.gone p.task_map p.idle p.running p.holder p.closed p.close_returned k
        (get_elem? p.running k) q refl v e
