-- ===== src/SafeMap.antt =====
-- pkg/common/safe_map.go: a map behind a lock. The lock does not show in a sequence of calls.
-- The entries are a list without order; a key that is set has one entry.
pub mod Laws
use dingospeed.Base.{
  ℕ, List, [], ◌∷◌, Bool, true, false, Option, some, none, if◌then◌else◌, length, Keyed, same_key,
}

pub record SafeMap {ℓ} (K V : Type ℓ) : Type ℓ where
  pub m : List (K × V)

module _ {ℓ} {K V : Type ℓ} ⦃keyed : Keyed K⦄ where
  unfoldable pub find : List (K × V) → K → Option V
  find [] key = none
  find ((k, v) ∷ rest) key = if same_key k key then some v else find rest key

  unfoldable pub without : List (K × V) → K → List (K × V)
  without [] key = []
  without ((k, v) ∷ rest) key =
      if same_key k key then without rest key else (k, v) ∷ without rest key

  unfoldable pub new_safe_map : SafeMap K V
  new_safe_map = record { m = [] }

  unfoldable pub set_key : SafeMap K V → K → V → SafeMap K V
  set_key sm key value = record { m = (key, value) ∷ without sm.m key }

  unfoldable pub get_key : SafeMap K V → K → Option V
  get_key sm key = find sm.m key

  unfoldable pub exist : SafeMap K V → K → Bool
  unfolding get_key
  exist sm key = elim (get_key sm key) [ none ↦ false | some v ↦ true ]

  unfoldable pub delete_key : SafeMap K V → K → SafeMap K V
  delete_key sm key = record { m = without sm.m key }

  unfoldable pub delete_all : SafeMap K V → SafeMap K V
  delete_all sm = record { m = [] }

  unfoldable pub len : SafeMap K V → ℕ
  len sm = length sm.m
