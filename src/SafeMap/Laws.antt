-- ===== src/SafeMap/Laws.antt =====
-- SafeMap is a map: what each operation does to the function from keys to values, and to the size.
use dingospeed.Base.{
  ◌+◌, ◌-◌, ◌≡◌, refl, ◌∙◌, List, [], ◌∷◌, true, false, Option, some, none, arith, if◌then◌else◌,
  length, Keyed, same_key, Bool-cases, Option-cases, inl, inr,
}
use dingospeed.SafeMap.{
  SafeMap, find, without, set_key, get_key, exist, delete_key, delete_all, len,
}

module _ {ℓ} {K V : Type ℓ} ⦃keyed : Keyed K⦄ where
  find-without :
      (l : List (K × V)) (k j : K)
      → find (without l k) j ≡ (if same_key k j then none else find l j)
  unfolding find without
  find-without [] k j = ground arith
  find-without ((i, v) ∷ l) k j =
      ground (arith, keyed.same_iff i k, keyed.same_iff i j, keyed.same_iff k j, find-without l k j)

  pub get_key-set_key :
      (sm : SafeMap K V) (k : K) (v : V) (j : K)
      → get_key (set_key sm k v) j ≡ (if same_key k j then some v else get_key sm j)
  unfolding get_key set_key find
  get_key-set_key sm k v j = ground (arith, find-without sm.m k j)

  pub get_key-delete_key :
      (sm : SafeMap K V) (k j : K)
      → get_key (delete_key sm k) j ≡ (if same_key k j then none else get_key sm j)
  unfolding get_key delete_key
  get_key-delete_key sm k j = find-without sm.m k j

  pub exist-set_key :
      (sm : SafeMap K V) (k : K) (v : V) (j : K)
      → exist (set_key sm k v) j ≡ (if same_key k j then true else exist sm j)
  unfolding exist
  exist-set_key sm k v j = ground (arith, get_key-set_key sm k v j)

  pub exist-delete_key :
      (sm : SafeMap K V) (k j : K)
      → exist (delete_key sm k) j ≡ (if same_key k j then false else exist sm j)
  unfolding exist
  exist-delete_key sm k j = ground (arith, get_key-delete_key sm k j)

  -- No key has two entries.
  abbrev pub IsUnique : List (K × V) → Type ℓ
  IsUnique [] = Unit {ℓ}
  IsUnique ((k, v) ∷ l) = (find l k ≡ none) × IsUnique l

  IsUnique-without : (l : List (K × V)) (k : K) → IsUnique l → IsUnique (without l k)
  unfolding without
  IsUnique-without [] k u = u
  IsUnique-without ((i, v) ∷ l) k (absent, u) = elim (Bool-cases (same_key i k)) [
    | inl same ↦ rw same (IsUnique-without l k u)
    | inr other ↦ rw other (ground (arith, find-without l k i, absent), IsUnique-without l k u)
  ]

  without_absent : (l : List (K × V)) (k : K) → find l k ≡ none → without l k ≡ l
  unfolding find without
  without_absent [] k e = refl
  without_absent ((i, v) ∷ l) k e = ground (arith, without_absent l k)

  length-without_present :
      (l : List (K × V)) (k : K) (v : V)
      → IsUnique l
      → find l k ≡ some v
      → length (without l k) + 1 ≡ length l
  unfolding find without
  length-without_present [] k v u e = cc
  length-without_present ((i, x) ∷ l) k v (absent, u) e = elim (Bool-cases (same_key i k)) [
    | inl same ↦
        let eq : i ≡ k = (keyed.same_iff i k).0 same in
        rw same (rw (without_absent l k (rw (← eq) absent)) (omega arith))
    | inr other ↦ rw other (
        let rest = length-without_present l k v u (ground (arith, other, e)) in omega (arith, rest))
  ]

  -- The map that a SafeMap stands for.
  pub record Represents (sm : SafeMap K V) (f : K → Option V) : Type ℓ where
    pub gets : (j : K) → get_key sm j ≡ f j
    pub unique : IsUnique sm.m

  abbrev pub update : (K → Option V) → K → Option V → K → Option V
  update f k v j = if same_key k j then v else f j

  -- The size of a map changes by what the operation does to the key.
  abbrev pub CountsSet : SafeMap K V → K → V → Type 0
  CountsSet sm k v = len (set_key sm k v) ≡ (if exist sm k then len sm else len sm + 1)

  abbrev pub CountsDelete : SafeMap K V → K → Type 0
  CountsDelete sm k = len (delete_key sm k) ≡ (if exist sm k then len sm - 1 else len sm)

  len-set_key : (sm : SafeMap K V) (k : K) (v : V) → IsUnique sm.m → CountsSet sm k v
  unfolding len set_key exist get_key
  len-set_key sm k v u = elim (Option-cases (find sm.m k)) [
    | inl gone ↦ ground (arith, gone, without_absent sm.m k gone)
    | inr (x, here) ↦ ground (arith, here, length-without_present sm.m k x u here)
  ]

  len-delete_key : (sm : SafeMap K V) (k : K) → IsUnique sm.m → CountsDelete sm k
  unfolding len delete_key exist get_key
  len-delete_key sm k u = elim (Option-cases (find sm.m k)) [
    | inl gone ↦ ground (arith, gone, without_absent sm.m k gone)
    | inr (x, here) ↦ ground (arith, here, length-without_present sm.m k x u here)
  ]

  -- A map that stands for a function stands, after each operation, for that function with the key set,
  -- with the key removed, or empty; Exist tells whether the function has a value; and the size grows
  -- by one exactly when a new key is set, and shrinks by one exactly when a key that is there is
  -- deleted.
  pub refines_map :
      (sm : SafeMap K V) (f : K → Option V) (k : K) (v : V)
      → Represents sm f
      → Represents (set_key sm k v) (update f k (some v))
        × Represents (delete_key sm k) (update f k none)
        × Represents (delete_all sm) (λ j. none)
        × (exist sm k ≡ elim (f k) [ none ↦ false | some x ↦ true ])
        × CountsSet sm k v
        × CountsDelete sm k
  unfolding set_key delete_key delete_all exist get_key find
  refines_map sm f k v r = (
    record {
      gets = λ j. ground (arith, get_key-set_key sm k v j, r.gets j);
      unique = (
        find-without sm.m k k ∙ rw ((keyed.same_iff k k).1 refl) refl,
        IsUnique-without sm.m k r.unique,
      );
    },
    record {
      gets = λ j. ground (arith, find-without sm.m k j, r.gets j);
      unique = IsUnique-without sm.m k r.unique;
    },
    record { gets = λ j. refl; unique = tt },
    ground (arith, r.gets k),
    len-set_key sm k v r.unique,
    len-delete_key sm k r.unique,
  )
