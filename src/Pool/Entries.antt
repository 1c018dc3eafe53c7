-- ===== src/Pool/Entries.antt =====
-- Tasks that run, by their numbers, and the entries of the map.
use dingospeed.Base.{
  ℕ, zero, suc, ◌+◌, ◌≡◌, ◌≢◌, sym, ap, ◌⊎◌, inl, inr, List, [], ◌∷◌, true, false, Option, some,
  none, arith, length, get_elem?, nat_keyed,
}
use mathlib.Core.Path.{subst}
use dingospeed.SafeMap.{SafeMap, set_key, exist, delete_key}
use dingospeed.SafeMap.Laws.{exist-set_key, exist-delete_key}
use dingospeed.Pool.{remove_at}

module _ {T : Type 0} (get_task_no : T → ℕ) where
  -- No task of the list has the number.
  abbrev pub Absent : ℕ → List T → Type 0
  Absent n [] = Unit {0}
  Absent n (t ∷ l) = (get_task_no t ≢ n) × Absent n l

  -- No two tasks have the same number.
  abbrev pub Distinct : List T → Type 0
  Distinct [] = Unit {0}
  Distinct (t ∷ l) = Absent (get_task_no t) l × Distinct l

  -- Each task has an entry, but for one of that number.
  abbrev pub Entered : SafeMap ℕ T → Option ℕ → List T → Type 0
  Entered m but [] = Unit {0}
  Entered m but (t ∷ l) =
      ((exist m (get_task_no t) ≡ true) ⊎ (but ≡ some (get_task_no t))) × Entered m but l

  pub Absent-remove_at : (n : ℕ) (l : List T) (k : ℕ) → Absent n l → Absent n (remove_at l k)
  Absent-remove_at n [] k a = a
  Absent-remove_at n (t ∷ l) zero (a, rest) = rest
  Absent-remove_at n (t ∷ l) (suc k) (a, rest) = (a, Absent-remove_at n l k rest)

  pub Distinct-remove_at : (l : List T) (k : ℕ) → Distinct l → Distinct (remove_at l k)
  Distinct-remove_at [] k d = d
  Distinct-remove_at (t ∷ l) zero (a, d) = d
  Distinct-remove_at (t ∷ l) (suc k) (a, d) =
      (Absent-remove_at (get_task_no t) l k a, Distinct-remove_at l k d)

  Absent-ne :
      (n : ℕ) (l : List T) (k : ℕ) (t : T) → Absent n l → get_elem? l k ≡ some t → get_task_no t ≢ n
  Absent-ne n [] k t a e = absurd (cc)
  Absent-ne n (x ∷ l) zero t (a, rest) e =
      let same : x ≡ t = cc in subst (λ y. get_task_no y ≢ n) same a
  Absent-ne n (x ∷ l) (suc k) t (a, rest) e = Absent-ne n l k t rest e

  -- What is picked has another number than the rest.
  pub Absent-picked :
      (l : List T) (k : ℕ) (t : T)
      → get_elem? l k ≡ some t
      → Distinct l
      → Absent (get_task_no t) (remove_at l k)
  Absent-picked [] k t e d = tt
  Absent-picked (x ∷ l) zero t e (a, d) =
      let same : x ≡ t = cc in subst (λ y. Absent (get_task_no y) l) same a
  Absent-picked (x ∷ l) (suc k) t e (a, d) =
      (λ same. Absent-ne (get_task_no x) l k t a e (sym same), Absent-picked l k t e d)

  pub Entered-remove_at :
      (m : SafeMap ℕ T) (but : Option ℕ) (l : List T) (k : ℕ)
      → Entered m but l
      → Entered m but (remove_at l k)
  Entered-remove_at m but [] k h = h
  Entered-remove_at m but (t ∷ l) zero (h, rest) = rest
  Entered-remove_at m but (t ∷ l) (suc k) (h, rest) = (h, Entered-remove_at m but l k rest)

  pub Entered-delete_key :
      (m : SafeMap ℕ T) (but : Option ℕ) (n : ℕ) (l : List T)
      → Absent n l
      → Entered m but l
      → Entered (delete_key m n) but l
  Entered-delete_key m but n [] a h = tt
  Entered-delete_key m but n (t ∷ l) (a, others) (inr kept, rest) =
      (inr kept, Entered-delete_key m but n l others rest)
  Entered-delete_key m but n (t ∷ l) (a, others) (inl there, rest) = (
    inl (ground (arith, exist-delete_key m n (get_task_no t), there, a)),
    Entered-delete_key m but n l others rest,
  )

  pub Entered-set_key :
      (m : SafeMap ℕ T) (t : T) (l : List T)
      → Entered m (some (get_task_no t)) l
      → Entered (set_key m (get_task_no t) t) none l
  Entered-set_key m t [] h = tt
  Entered-set_key m t (x ∷ l) (inl there, rest) = (
    inl (ground (arith, exist-set_key m (get_task_no t) t (get_task_no x), there)),
    Entered-set_key m t l rest,
  )
  Entered-set_key m t (x ∷ l) (inr kept, rest) = (
    inl (
        let same : get_task_no t ≡ get_task_no x = cc in
        ground (arith, exist-set_key m (get_task_no t) t (get_task_no x), same)),
    Entered-set_key m t l rest,
  )

  pub Entered-weaken :
      (m : SafeMap ℕ T) (n : ℕ) (l : List T) → Entered m none l → Entered m (some n) l
  Entered-weaken m n [] h = tt
  Entered-weaken m n (x ∷ l) (inl there, rest) = (inl there, Entered-weaken m n l rest)
  Entered-weaken m n (x ∷ l) (inr no_one, rest) = absurd (cc)

  -- A number without an entry is not among the tasks.
  pub without_entry :
      (m : SafeMap ℕ T) (n : ℕ) (l : List T) → exist m n ≡ false → Entered m none l → Absent n l
  without_entry m n [] e h = tt
  without_entry m n (x ∷ l) e (inr no_one, rest) = absurd (cc)
  without_entry m n (x ∷ l) e (inl there, rest) =
      (λ same. cc (there, e, ap (λ k. exist m k) same), without_entry m n l e rest)

  pub length-remove_at :
      (l : List T) (k : ℕ) (t : T) → get_elem? l k ≡ some t → length (remove_at l k) + 1 ≡ length l
  length-remove_at [] k t e = absurd (cc)
  length-remove_at (x ∷ l) zero t e = omega arith
  length-remove_at (x ∷ l) (suc k) t e = omega (arith, length-remove_at l k t e)
