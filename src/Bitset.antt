-- ===== src/Bitset.antt =====
-- internal/downloader/bitset.go: a set of indexes as the bits of a byte slice.
-- A byte is a number below 256, and `size` is a uint64.
mod Bytes
pub mod Laws
use Prim.Native.Nat.{bit_and, bit_or}
use dingospeed.Base.{
  ℕ, ◌+◌, ◌-◌, ◌/◌, ◌%◌, ◌^◌, List, Bool, Option, some, none, not, Result, ok, err, panicked, ltb,
  ◌==◌, if◌then◌else◌, get_elem?, set, replicate,
}
use dingospeed.Errors.{Error, index_out_of_range}

pub record Bitset : Type 0 where
  pub size : ℕ
  pub bits : List ℕ

-- `size < 0` never holds of a uint64; `size + 7` wraps.
unfoldable pub new_bitset : ℕ → Bitset
new_bitset size = record { size = size; bits = replicate ((size + 7) % 2 ^ 64 / 8) 0 }

-- `byte(1 << bitIndex)`, and its complement.
abbrev bit_mask : ℕ → ℕ
bit_mask k = 2 ^ k

abbrev set_bit : ℕ → ℕ → ℕ
set_bit b k = bit_or b (bit_mask k)

abbrev clear_bit : ℕ → ℕ → ℕ
clear_bit b k = bit_and b (255 - bit_mask k)

abbrev test_bit : ℕ → ℕ → Bool
test_bit b k = not (bit_and b (bit_mask k) == 0)

-- An index that passes the test and has no byte is a run-time panic.
abbrev at_byte {ℓ} : {A : Type ℓ} → Option ℕ → (ℕ → A) → Result Error A
at_byte none f = panicked
at_byte (some b) f = ok (f b)

unfoldable pub set_index : Bitset → ℕ → Result Error Bitset
set_index b index =
    if ltb index b.size
    then at_byte (get_elem? b.bits (index / 8))
        (λ byte. record b { bits = set b.bits (index / 8) (set_bit byte (index % 8)) })
    else err index_out_of_range

unfoldable pub clear_index : Bitset → ℕ → Result Error Bitset
clear_index b index =
    if ltb index b.size
    then at_byte (get_elem? b.bits (index / 8))
        (λ byte. record b { bits = set b.bits (index / 8) (clear_bit byte (index % 8)) })
    else err index_out_of_range

unfoldable pub test_index : Bitset → ℕ → Result Error Bool
test_index b index =
    if ltb index b.size
    then at_byte (get_elem? b.bits (index / 8)) (λ byte. test_bit byte (index % 8))
    else err index_out_of_range
