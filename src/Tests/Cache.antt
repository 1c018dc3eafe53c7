-- ===== src/Tests/Cache.antt =====
-- Runs of the cache file.
use dingospeed.Base.{
  ℕ, zero, suc, ◌/◌, ◌<◌, ◌≡◌, refl, List, [], ◌∷◌, ◌++◌, true, false, some, none, ok, arith,
  replicate,
}
use dingospeed.Bitset.{Bitset, new_bitset}
use dingospeed.Bitset.Laws.{IsValid, Updates, bit_at, new_bitset_empty, test_index-bit_at}
use dingospeed.Header.{DingCacheHeader, header_bytes}
use dingospeed.Header.RoundTrip.{IsWellFormed}
use dingospeed.Disk.{put_file}
use dingospeed.Cache.{World, write_block}
use dingospeed.Cache.Sync.{put_file_self}
use dingospeed.Cache.Resize.{resized_header, resize-IsRightCache}
use dingospeed.Cache.{resize}
use dingospeed.Cache.Sync.{IsSynced}
use dingospeed.Cache.Blocks.{IsBlockOf, IsRightCache, write_block-IsRightCache}
use dingospeed.Tests.{small_header, content}

abbrev pub no_bits : Bitset
no_bits = record { size = 8; bits = 0 ∷ [] }

no_bits_lem : (j : ℕ) → j < 8 → IsValid no_bits × (bit_at no_bits.bits j ≡ false)
unfolding new_bitset
no_bits_lem j h =
    let (v, e) = new_bitset_empty 8 j (omega arith) h in
    (v, ground (arith, test_index-bit_at no_bits j v h, e))

-- The file before anything was downloaded.
abbrev pub fresh_header : DingCacheHeader
fresh_header = record small_header { block_mask = no_bits }

fresh_header-IsWellFormed : IsWellFormed fresh_header
fresh_header-IsWellFormed = record {
  magic = refl;
  version = refl;
  block_size = omega arith;
  block_size_u64 = omega arith;
  file_size = omega arith;
  mask_size = omega arith;
  capacity = omega arith;
  block_number = refl;
  mask = refl;
  bits = refl;
}

abbrev pub ten_zeros : List ℕ
ten_zeros = replicate 10 0

abbrev pub fresh_world : World
fresh_world = record {
  disk = put_file (λ p. none) "blob" (header_bytes fresh_header ++ ten_zeros);
  cache = record { path = "blob"; header = some fresh_header; is_open = true };
}

pub fresh_world-IsRightCache : IsRightCache content fresh_world fresh_header ten_zeros
fresh_world-IsRightCache = (
  record {
    opened = refl;
    header = refl;
    file = put_file_self (λ p. none) "blob" (header_bytes fresh_header ++ ten_zeros);
    shape = fresh_header-IsWellFormed;
    mask = (no_bits_lem 0 (omega arith)).0;
    small = omega arith;
    room = omega arith;
  },
  λ q inside present. absurd (ground (arith, present, (no_bits_lem (q / 4) (omega arith)).1)),
)

-- The last block of the content: two bytes, and two of padding.
abbrev last_block : List ℕ
last_block = 25 ∷ 28 ∷ 0 ∷ 0 ∷ []

last_block-IsBlockOf : IsBlockOf content fresh_header 2 last_block
last_block-IsBlockOf zero h inside = refl
last_block-IsBlockOf (suc zero) h inside = refl
last_block-IsBlockOf (suc (suc k)) h inside = absurd (omega arith)

write_block-IsRightCache_example :
    (w' : World) × (mask : Bitset) × (body' : List ℕ) × (write_block 2 last_block fresh_world
      ≡ (ok tt, w'))
    × Updates no_bits 2 true mask
    × IsRightCache content w' (record fresh_header { block_mask = mask }) body'
write_block-IsRightCache_example =
    write_block-IsRightCache content fresh_world fresh_header ten_zeros 2 last_block
      fresh_world-IsRightCache (omega arith) refl last_block-IsBlockOf

-- The file as it is made: no size yet.
abbrev empty_header : DingCacheHeader
empty_header = record fresh_header { file_size = 0; block_number = 0 }

abbrev empty_world : World
empty_world = record {
  disk = put_file (λ p. none) "blob" (header_bytes empty_header ++ []);
  cache = record { path = "blob"; header = some empty_header; is_open = true };
}

empty_header-IsWellFormed : IsWellFormed empty_header
empty_header-IsWellFormed = record {
  magic = refl;
  version = refl;
  block_size = omega arith;
  block_size_u64 = omega arith;
  file_size = omega arith;
  mask_size = omega arith;
  capacity = omega arith;
  block_number = refl;
  mask = refl;
  bits = refl;
}

empty_world-IsSynced : IsSynced empty_world empty_header []
empty_world-IsSynced = record {
  opened = refl;
  header = refl;
  file = put_file_self (λ p. none) "blob" (header_bytes empty_header ++ []);
  shape = empty_header-IsWellFormed;
  mask = (no_bits_lem 0 (omega arith)).0;
  small = omega arith;
  room = omega arith;
}

resize-IsRightCache_example :
    (w' : World) × (body' : List ℕ) × (resize 10 empty_world ≡ (ok tt, w'))
    × IsRightCache content w' (resized_header empty_header 10) body'
resize-IsRightCache_example =
    resize-IsRightCache content empty_world empty_header [] 10 empty_world-IsSynced
      (λ i lt. (no_bits_lem i lt).1) (omega arith) (omega arith) (omega arith)
