-- ===== src/Base/Equality.antt =====
-- Keys that can be compared by a test.
use Prim.Native.Nat.{ℕ}
use Prim.Native.String.{String}
use mathlib.Core.Path.{◌≡◌}
use mathlib.Core.Logic.{◌↔◌}
use mathlib.Core.Bool.{Bool, true}
use native.Mathlib.Omega.{arith}
use text.Mathlib.Text.{◌==◌ as str_eq}
use text.Mathlib.TextEquality.{eq_iff}
use dingospeed.Base.Tests.{◌==◌}

pub record Keyed {ℓ} (K : Type ℓ) : Type ℓ where
  pub same : K → K → Bool
  pub same_iff : (a b : K) → (same a b ≡ true) ↔ (a ≡ b)

pub nat_same_iff : (a b : ℕ) → ((a == b) ≡ true) ↔ (a ≡ b)
nat_same_iff a b = ground arith

instance abbrev pub nat_keyed : Keyed ℕ
nat_keyed = record { same = ◌==◌; same_iff = nat_same_iff }

instance abbrev pub string_keyed : Keyed String
string_keyed = record { same = str_eq; same_iff = eq_iff }

abbrev pub same_key {ℓ} : {K : Type ℓ} ⦃k : Keyed K⦄ → K → K → Bool
same_key ⦃k⦄ = k.same

pub string_same_iff : (a b : String) → (str_eq a b ≡ true) ↔ (a ≡ b)
string_same_iff = eq_iff
