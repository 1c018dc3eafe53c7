-- ===== src/Remote/Store.antt =====
-- A block that is written unless it is there, and runs of bytes that are cut in two.
use dingospeed.Base.{
  ℕ, ◌+◌, ◌≤◌, ◌<◌, ◌≡◌, refl, ap, ◌∙◌, List, true, ok, arith, ◌==◌, lt→ltb, eq→==, either_way,
  if◌then◌else◌, length, take, drop, Bool-cases, inl, inr, length-take, length-drop,
}
use dingospeed.Bitset.{Bitset}
use dingospeed.Bitset.Laws.{bit_at, test_index-bit_at}
use dingospeed.Header.{DingCacheHeader}
use dingospeed.Ranges.{has_block}
use dingospeed.Disk.Bytes.{byte-take, byte-drop}
use dingospeed.Cache.{World, write_block}
use dingospeed.Cache.Sync.{block_in_file}
use dingospeed.Cache.Blocks.{IsBlockOf, IsRightCache, write_block-IsRightCache}
use dingospeed.CacheRead.Laws.{IsSegment}
use dingospeed.Remote.{test_in, block_test, is_missing}

-- A run of bytes cut in two.
pub take-IsSegment :
    (content : ℕ → ℕ) (a b n : ℕ) (xs : List ℕ)
    → IsSegment content a b xs
    → n ≤ length xs
    → IsSegment content a (a + n) (take n xs)
take-IsSegment content a b n xs p h =
    let len : length (take n xs) ≡ n = omega (arith, length-take n xs) in
    record {
      size = omega (arith, len);
      bytes = λ k lt.
          byte-take n xs k ∙ rw (lt→ltb k n (omega (arith, len))) (p.bytes k (omega (arith, len)));
    }

pub drop-IsSegment :
    (content : ℕ → ℕ) (a b n : ℕ) (xs : List ℕ)
    → IsSegment content a b xs
    → n ≤ length xs
    → IsSegment content (a + n) b (drop n xs)
drop-IsSegment content a b n xs p h =
    let len = length-drop n xs in
    record {
      size = omega (arith, len, p.size);
      bytes = λ k lt.
          let e : a + (n + k) ≡ a + n + k = omega arith in
          byte-drop n xs k ∙ p.bytes (n + k) (omega (arith, len)) ∙ ap content e;
    }

pub start_at :
    (content : ℕ → ℕ) {a a' b : ℕ} {xs : List ℕ}
    → a ≡ a'
    → IsSegment content a b xs
    → IsSegment content a' b xs
start_at content e p = rw (← e) p

module _ (content : ℕ → ℕ) (h : DingCacheHeader) where
  abbrev pub with_mask : Bitset → DingCacheHeader
  with_mask mask = record h { block_mask = mask }

  -- The file in `w` is right, and has the blocks of `mask`.
  pub record Good (w : World) (mask : Bitset) : Type 0 where
    pub body : List ℕ
    pub right : IsRightCache content w (with_mask mask) body

  abbrev pub Keeps : Bitset → Bitset → Type 0
  Keeps mask mask' = (i : ℕ) → bit_at mask.bits i ≡ true → bit_at mask'.bits i ≡ true

  block_test-bit :
      (w : World) (mask : Bitset) (i : ℕ)
      → Good w mask
      → i < h.block_number
      → block_test w i ≡ ok (bit_at mask.bits i)
  unfolding has_block
  block_test-bit w mask i g lt =
      let s = g.right.0 in
      ap (λ x. test_in x i) s.header
      ∙ rw
          (
            test_index-bit_at mask i s.mask (block_in_file (with_mask mask) i s.shape s.small lt).1,
            test_in,
          )
          refl

  -- A whole block that is written unless it is there.
  pub put_block :
      (w : World) (mask : Bitset) (i : ℕ) (raw : List ℕ)
      → Good w mask
      → i < h.block_number
      → length raw ≡ h.block_size
      → IsBlockOf content h i raw
      → (mask' : Bitset) × Good
          (if is_missing (block_test w i) then (write_block i raw w).1 else w)
          mask'
        × Keeps mask mask'
        × (bit_at mask'.bits i ≡ true)
  put_block w mask i raw g lt len good = elim (Bool-cases (bit_at mask.bits i)) [
    | inl here ↦ rw (block_test-bit w mask i g lt ∙ ap ok here) (mask, g, (λ j e. e), here)
    | inr gone ↦
        let (w', mask', body', e, u, right) =
          write_block-IsRightCache content w (with_mask mask) g.body i raw g.right lt len good in
        let same : (write_block i raw w).1 ≡ w' = ap (λ x. x.1) e in
        let written : Good (write_block i raw w).1 mask' =
          rw same (record { body = body'; right = right }) in
        rw (block_test-bit w mask i g lt ∙ ap ok gone) (
          mask',
          written,
          (λ j ej. u.3 j ∙ either_way (λ b. b ≡ true) (i == j) (λ _. refl) (λ _. ej)),
          u.3 i ∙ rw (eq→== i i refl) refl,
        )
  ]
