-- ===== src/Header/Codec.antt =====
-- `binary.Write` and `binary.Read` of a uint64, little endian.
use dingospeed.Base.{
  ℕ, ◌+◌, ◌*◌, ◌/◌, ◌%◌, ◌^◌, ◌<◌, ◌≡◌, refl, ap, List, [], ◌∷◌, ◌++◌, Result, ok, err, arith,
  length,
}
use dingospeed.Errors.{Error, eof, unexpected_eof}

unfoldable pub u64_bytes : ℕ → List ℕ
u64_bytes v =
    (v % 256)
    ∷ (v / 2 ^ 8 % 256)
    ∷ (v / 2 ^ 16 % 256)
    ∷ (v / 2 ^ 24 % 256)
    ∷ (v / 2 ^ 32 % 256)
    ∷ (v / 2 ^ 40 % 256)
    ∷ (v / 2 ^ 48 % 256)
    ∷ (v / 2 ^ 56 % 256)
    ∷ []

-- At the end of the file the error is `io.EOF`, within a number `io.ErrUnexpectedEOF`.
unfoldable pub take_u64 : List ℕ → Result Error (ℕ × List ℕ)
take_u64 [] = err eof
take_u64 (a ∷ b ∷ c ∷ d ∷ e ∷ f ∷ g ∷ h ∷ rest) = ok (
  a + 2 ^ 8 * b + 2 ^ 16 * c + 2 ^ 24 * d + 2 ^ 32 * e + 2 ^ 40 * f + 2 ^ 48 * g + 2 ^ 56 * h,
  rest,
)
take_u64 (a ∷ rest) = err unexpected_eof

pub take_u64-u64_bytes :
    (v : ℕ) (rest : List ℕ) → v < 2 ^ 64 → take_u64 (u64_bytes v ++ rest) ≡ ok (v, rest)
unfolding take_u64 u64_bytes
take_u64-u64_bytes v rest h = ap (λ (n : ℕ). ok (n, rest)) (omega arith)

pub length-u64_bytes : (v : ℕ) → length (u64_bytes v) ≡ 8
unfolding u64_bytes
length-u64_bytes v = refl
