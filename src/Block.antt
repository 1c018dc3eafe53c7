-- ===== src/Block.antt =====
-- GetBlockInfo of internal/downloader/file.go: the block that holds a position.
-- Positions are int64 and not negative where it is called; they are numbers here.
use native.Mathlib.Nat.{le-div_iff_mul-le, div-lt_iff_lt-mul}
use dingospeed.Base.{
  ℕ, ◌+◌, ◌-◌, ◌*◌, ◌/◌, ◌^◌, ◌≤◌, ◌<◌, ◌≡◌, min, arith, inl, inr, ltb, ltb→lt, ltb→le, Bool-cases,
}

-- (curBlock, blockStartPos, blockEndPos)
unfoldable pub get_block_info : ℕ → ℕ → ℕ → ℕ × ℕ × ℕ
get_block_info pos block_size file_size =
    let cur_block = pos / block_size in
    (cur_block, cur_block * block_size, min ((cur_block + 1) * block_size) file_size)

-- The block of a position, as two bounds.
pub block_bounds : (p bs : ℕ) → 0 < bs → (p / bs * bs ≤ p) × (p < p / bs * bs + bs)
block_bounds p bs h = (grind arith, grind arith)

pub block_unique : (p bs k : ℕ) → 0 < bs → k * bs ≤ p → p < (k + 1) * bs → p / bs ≡ k
block_unique p bs k hb lo hi = omega (
  arith,
  (le-div_iff_mul-le {x = k} {y = p} hb).1 lo,
  (div-lt_iff_lt-mul {x = p} {y = k + 1} hb).1 hi,
)

-- For a position inside the file and a block size that is not 0, the block starts at or before the
-- position and ends after it, within the file and within one block size; and no number that is
-- computed on the way reaches 2^63 if the file size plus the block size does not.
pub get_block_info_bounds :
    (pos bs fs : ℕ)
    → 0 < bs
    → pos < fs
    → fs + bs < 2 ^ 63
    → let info = get_block_info pos bs fs in
      (info.1 ≤ pos)
      × (pos < info.2)
      × (info.2 ≤ fs)
      × (info.2 ≤ info.1 + bs)
      × ((info.0 + 1) * bs < 2 ^ 63)
unfolding get_block_info
get_block_info_bounds pos bs fs hb hp h =
    let (lo, hi) = block_bounds pos bs hb in
    (lo, omega arith, omega arith, omega arith, omega arith)

-- Block starts are in the order of their numbers.
pub block_le : (i k bs : ℕ) → i ≤ k → i * bs ≤ k * bs
block_le i k bs h = grind arith

pub block_lt : (i k bs : ℕ) → i * bs < k * bs → i < k
block_lt i k bs h = elim (Bool-cases (ltb i k)) [
  | inl below ↦ ltb→lt i k below
  | inr above ↦ absurd (omega (arith, block_le k i bs (ltb→le i k above)))
]

-- The blocks that a range up to `e` reaches.
pub block_reached :
    (i e bs : ℕ)
    → 0 < bs
    → 0 < e
    → (i * bs < e → i < (e - 1) / bs + 1) × (i < (e - 1) / bs + 1 → i * bs < e)
block_reached i e bs hb he =
    let step = le-div_iff_mul-le {x = i} {y = e - 1} hb in
    (λ h. omega (arith, step.1 (omega arith)), λ h. omega (arith, step.0 (omega arith)))
