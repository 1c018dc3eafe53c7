-- ===== src/Cache/Sync.antt =====
-- The disk and the header in memory stay in step, and what a block write does to both.
use text.Mathlib.TextPositions.{eq_refl}
use native.Mathlib.Nat.{le-div_iff_mul-le}
use dingospeed.Base.{
  ℕ, zero, suc, ◌+◌, ◌-◌, ◌*◌, ◌/◌, ◌%◌, ◌^◌, ◌≤◌, ◌<◌, ◌≡◌, refl, sym, ap, String, List, [], ◌∷◌,
  ◌++◌, true, some, ok, arith, ltb, tests, lt→ltb, le→ltb, eq→==, Bool-cases, inl, inr, length,
  take,
}
use dingospeed.Bitset.{Bitset, set_index}
use dingospeed.Bitset.Laws.{IsValid}
use dingospeed.Header.{DingCacheHeader, header_bytes, header_size}
use dingospeed.Header.RoundTrip.{IsWellFormed}
use dingospeed.Block.{block_lt}
use dingospeed.Disk.{Disk, put_file, write_at}
use dingospeed.Cache.{World, write_block, set_header_block, flush_header, real_block}

-- The cache is open with header `h`, and its file is that header followed by `body`.
pub record IsSynced (w : World) (h : DingCacheHeader) (body : List ℕ) : Type 0 where
  pub opened : w.cache.is_open ≡ true
  pub header : w.cache.header ≡ some h
  pub file : w.disk w.cache.path ≡ some (header_bytes h ++ body)
  pub shape : IsWellFormed h
  pub mask : IsValid h.block_mask
  pub small : h.file_size + h.block_size < 2 ^ 63
  pub room : h.file_size ≤ length body

pub put_file_self : (d : Disk) (path : String) (f : List ℕ) → put_file d path f path ≡ some f
unfolding put_file
put_file_self d path f = rw (eq_refl path)

pub next_block : (i bs : ℕ) → (i + 1) * bs ≡ i * bs + bs
next_block i bs = grind arith

-- A block of the file starts inside it and has a bit in the mask.
pub block_in_file :
    (h : DingCacheHeader) (i : ℕ)
    → IsWellFormed h
    → h.file_size + h.block_size < 2 ^ 63
    → i < h.block_number
    → (i * h.block_size < h.file_size) × (i < h.block_mask.size)
block_in_file h i v small lt =
    let sum : (h.file_size + h.block_size + (2 ^ 64 - 1)) % 2 ^ 64
        ≡ h.file_size + h.block_size - 1 =
      omega (arith, small, v.block_size) in
    let n : i < (h.file_size + h.block_size - 1) / h.block_size = rw (← sum, ← v.block_number) lt in
    let up : (i + 1) * h.block_size ≤ h.file_size + h.block_size - 1 =
      (le-div_iff_mul-le {x = i + 1} {y = h.file_size + h.block_size - 1} v.block_size).0
        (omega (arith, n)) in
    let inside : i * h.block_size < h.file_size =
      omega (arith, up, v.block_size, next_block i h.block_size) in
    (
      inside,
      rw v.mask (block_lt i h.block_mask_size h.block_size (omega (arith, inside, v.capacity))),
    )

set_header_block_lem :
    (w : World) (h : DingCacheHeader) (i : ℕ) (mask : Bitset)
    → w.cache.header ≡ some h
    → set_index h.block_mask i ≡ ok mask
    → set_header_block i w ≡ (
      ok tt,
      record w { cache = record w.cache { header = some (record h { block_mask = mask }) } },
    )
unfolding set_header_block
set_header_block_lem w h i mask eh em = rw eh (rw em)

flush_header_lem :
    (w : World) (h : DingCacheHeader) (file : List ℕ)
    → w.cache.header ≡ some h
    → w.disk w.cache.path ≡ some file
    → flush_header w
      ≡ (ok tt, record w { disk = put_file w.disk w.cache.path (write_at file 0 (header_bytes h)) })
unfolding flush_header
flush_header_lem w h file eh ef = rw ef (rw eh)

-- The other way round: a block that starts inside the file is one of its blocks.
pub block_has_number :
    (h : DingCacheHeader) (i : ℕ)
    → IsWellFormed h
    → h.file_size + h.block_size < 2 ^ 63
    → i * h.block_size < h.file_size
    → i < h.block_number
block_has_number h i v small inside =
    let sum : (h.file_size + h.block_size + (2 ^ 64 - 1)) % 2 ^ 64
        ≡ h.file_size + h.block_size - 1 =
      omega (arith, small, v.block_size) in
    let n : i + 1 ≤ (h.file_size + h.block_size - 1) / h.block_size =
      (le-div_iff_mul-le {x = i + 1} {y = h.file_size + h.block_size - 1} v.block_size).1
        (omega (arith, inside, next_block i h.block_size)) in
    rw (v.block_number, sum) (omega (arith, n))

pub take_all : {A : Type 0} → (xs : List A) (n : ℕ) → length xs ≤ n → take n xs ≡ xs
take_all [] zero h = refl
take_all [] (suc n) h = refl
take_all (x ∷ xs) zero h = absurd (omega arith)
take_all (x ∷ xs) (suc n) h = ap (◌∷◌ x) (take_all xs n (omega arith))

real_block_lem :
    (h : DingCacheHeader) (i : ℕ) (bytes : List ℕ)
    → i * h.block_size < h.file_size
    → length bytes ≡ h.block_size
    → real_block h i bytes ≡ ok (take (h.file_size - i * h.block_size) bytes)
unfolding real_block
real_block_lem h i bytes inside len = elim (Bool-cases (ltb h.file_size ((i + 1) * h.block_size))) [
  | inl cut ↦ rw cut (rw (le→ltb h.file_size (i * h.block_size) (omega arith)) refl)
  | inr whole ↦ rw whole (
      sym (
        ap ok (
          take_all bytes (h.file_size - i * h.block_size)
            (omega (tests, next_block i h.block_size)))))
]

-- The world after a block was written: the bytes in the file, the bit in both copies of the mask.
abbrev pub written : World → DingCacheHeader → List ℕ → ℕ → List ℕ → Bitset → World
written w h body i real mask =
    let h' : DingCacheHeader = record h { block_mask = mask } in
    let file : List ℕ = write_at (header_bytes h ++ body) (header_size h + i * h.block_size) real in
    let disk : Disk = put_file w.disk w.cache.path file in
    record {
      disk = put_file disk w.cache.path (write_at file 0 (header_bytes h'));
      cache = record w.cache { header = some h' };
    }

pub write_block_runs :
    (w : World) (h : DingCacheHeader) (body : List ℕ) (i : ℕ) (bytes : List ℕ) (mask : Bitset)
    → IsSynced w h body
    → i < h.block_number
    → length bytes ≡ h.block_size
    → set_index h.block_mask i ≡ ok mask
    → write_block i bytes w
      ≡ (ok tt, written w h body i (take (h.file_size - i * h.block_size) bytes) mask)
unfolding write_block set_header_block flush_header
write_block_runs w h body i bytes mask s lt len em =
    let (inside, _) = block_in_file h i s.shape s.small lt in
    let real : List ℕ = take (h.file_size - i * h.block_size) bytes in
    let file : List ℕ = write_at (header_bytes h ++ body) (header_size h + i * h.block_size) real in
    rw s.opened (
      rw s.header (
        rw (lt→ltb i h.block_number lt) (
          rw (eq→== (length bytes) h.block_size len) (
            rw s.file (
              rw (real_block_lem h i bytes inside len)
                (rw em (rw (put_file_self w.disk w.cache.path file) refl)))))))
