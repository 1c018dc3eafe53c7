-- ===== src/Bitset/Bytes.antt =====
-- One bit of one byte: what `set_bit` and `clear_bit` do to every bit, by tables of all bytes.
use dingospeed.Base.{
  ℕ, ◌+◌, ◌*◌, ◌/◌, ◌%◌, ◌<◌, ◌≡◌, refl, Bool, true, false, not, ◌&&◌, arith, ltb, ◌==◌,
  if◌then◌else◌, every_below, every_below_lem,
}
use dingospeed.Bitset.{set_bit, clear_bit, test_bit}

abbrev bool_eq : Bool → Bool → Bool
bool_eq true b = b
bool_eq false b = not b

split : (a b c : Bool) → (bool_eq a b && c) ≡ true → (a ≡ b) × (c ≡ true)
split a b c h = ground arith

set_row : ℕ → ℕ → ℕ → Bool
set_row b k j =
    bool_eq (test_bit (set_bit b k) j) (if k == j then true else test_bit b j)
    && ltb (set_bit b k) 256

clear_row : ℕ → ℕ → ℕ → Bool
clear_row b k j =
    bool_eq (test_bit (clear_bit b k) j) (if k == j then false else test_bit b j)
    && ltb (clear_bit b k) 256

-- `x` codes a byte, the changed bit and the tested bit.
abbrev at_code : (ℕ → ℕ → ℕ → Bool) → ℕ → Bool
at_code row x = row (x / 64) (x / 8 % 8) (x % 8)

set_table : every_below (at_code set_row) 16384 ≡ true
unfolding every_below set_row
set_table = refl

clear_table : every_below (at_code clear_row) 16384 ≡ true
unfolding every_below clear_row
clear_table = refl

abbrev code : ℕ → ℕ → ℕ → ℕ
code b k j = b * 64 + k * 8 + j

code_parts :
    (b k j : ℕ)
    → k < 8
    → j < 8
    → (code b k j / 64 ≡ b) × (code b k j / 8 % 8 ≡ k) × (code b k j % 8 ≡ j)
code_parts b k j hk hj = omega arith

of_table :
    (row : ℕ → ℕ → ℕ → Bool) (b k j : ℕ)
    → every_below (at_code row) 16384 ≡ true
    → b < 256
    → k < 8
    → j < 8
    → row b k j ≡ true
of_table row b k j table hb hk hj =
    let (eb, ek, ej) = code_parts b k j hk hj in
    cc (eb, ek, ej, every_below_lem (at_code row) 16384 (code b k j) (omega arith) table)

module _ (b k j : ℕ) (hb : b < 256) (hk : k < 8) (hj : j < 8) where
  pub set_bit_lem :
      (test_bit (set_bit b k) j ≡ (if k == j then true else test_bit b j)) × (set_bit b k < 256)
  unfolding set_row
  set_bit_lem =
      let (same, small) = split _ _ _ (of_table set_row b k j set_table hb hk hj) in
      (same, ground arith)

  pub clear_bit_lem :
      (test_bit (clear_bit b k) j ≡ (if k == j then false else test_bit b j))
      × (clear_bit b k < 256)
  unfolding clear_row
  clear_bit_lem =
      let (same, small) = split _ _ _ (of_table clear_row b k j clear_table hb hk hj) in
      (same, ground arith)
