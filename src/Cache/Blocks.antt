-- ===== src/Cache/Blocks.antt =====
-- Block writes and the content of the cached file: a block that is present holds the right bytes.
use dingospeed.Base.{
  ℕ, ◌+◌, ◌-◌, ◌*◌, ◌/◌, ◌≤◌, ◌<◌, ◌≡◌, ◌≢◌, refl, sym, ap, ◌∙◌, List, ◌++◌, true, some, ok, arith,
  tests, ◌==◌, Bool-cases, inl, inr, length, take, length-take,
}
use dingospeed.Bitset.{Bitset}
use dingospeed.Bitset.Laws.{Updates, Updates-IsValid, set_index-Updates, bit_at}
use dingospeed.Header.{magic_number, DingCacheHeader, header_bytes, header_size}
use dingospeed.Header.RoundTrip.{IsWellFormed, length-header_bytes}
use dingospeed.Block.{block_bounds, block_unique}
use dingospeed.Disk.{put_file, write_at}
use dingospeed.Disk.Bytes.{length-write_at, byte, byte-take, byte-write_at}
use dingospeed.Disk.Layout.{write_at-append, write_at-prefix}
use dingospeed.Cache.{World, write_block}
use dingospeed.Cache.Sync.{
  IsSynced, written, write_block_runs, put_file_self, next_block, block_in_file,
}

-- Each position of a block that the mask has holds the byte of `content`.
abbrev pub Holds : (ℕ → ℕ) → DingCacheHeader → List ℕ → Type 0
Holds content h body =
    (q : ℕ)
    → q < h.file_size
    → bit_at h.block_mask.bits (q / h.block_size) ≡ true
    → byte body q ≡ content q

-- The bytes of block `i` are those of `content`, as far as the file reaches.
abbrev pub IsBlockOf : (ℕ → ℕ) → DingCacheHeader → ℕ → List ℕ → Type 0
IsBlockOf content h i bytes =
    (k : ℕ)
    → k < h.block_size
    → i * h.block_size + k < h.file_size
    → byte bytes k ≡ content (i * h.block_size + k)

IsWellFormed-mask :
    (h : DingCacheHeader) (mask : Bitset)
    → IsWellFormed h
    → mask.size ≡ h.block_mask.size
    → length mask.bits ≡ length h.block_mask.bits
    → IsWellFormed (record h { block_mask = mask })
IsWellFormed-mask h mask v es el = record {
  magic = v.magic;
  version = v.version;
  block_size = v.block_size;
  block_size_u64 = v.block_size_u64;
  file_size = v.file_size;
  mask_size = v.mask_size;
  capacity = v.capacity;
  block_number = v.block_number;
  mask = es ∙ v.mask;
  bits = el ∙ v.bits;
}

written_file :
    (h : DingCacheHeader) (body : List ℕ) (k : ℕ) (real : List ℕ) (mask : Bitset)
    → h.magic ≡ magic_number
    → length mask.bits ≡ length h.block_mask.bits
    → write_at
        (write_at (header_bytes h ++ body) (header_size h + k) real)
        0
        (header_bytes (record h { block_mask = mask }))
      ≡ header_bytes (record h { block_mask = mask }) ++ write_at body k real
written_file h body k real mask magic el =
    let h' : DingCacheHeader = record h { block_mask = mask } in
    let same : length (header_bytes h) ≡ length (header_bytes h') =
      omega (arith, length-header_bytes h magic, length-header_bytes h' magic, el) in
    rw (← length-header_bytes h magic) (
      rw (write_at-append (header_bytes h) body k real)
        (write_at-prefix (header_bytes h) (header_bytes h') (write_at body k real) same))

written-IsSynced :
    (w : World) (h : DingCacheHeader) (body : List ℕ) (i : ℕ) (real : List ℕ) (mask : Bitset)
    → IsSynced w h body
    → Updates h.block_mask i true mask
    → IsSynced
        (written w h body i real mask)
        (record h { block_mask = mask })
        (write_at body (i * h.block_size) real)
written-IsSynced w h body i real mask s u = record {
  opened = s.opened;
  header = refl;
  file =
      put_file_self
        (put_file w.disk w.cache.path
          (write_at (header_bytes h ++ body) (header_size h + i * h.block_size) real))
        w.cache.path _
      ∙ ap some (written_file h body (i * h.block_size) real mask s.shape.magic u.1);
  shape = IsWellFormed-mask h mask s.shape u.0 u.1;
  mask = Updates-IsValid h.block_mask mask i true s.mask u;
  small = s.small;
  room = omega (arith, s.room, length-write_at body (i * h.block_size) real);
}

write-Holds :
    (content : ℕ → ℕ) (h : DingCacheHeader) (body : List ℕ) (i : ℕ) (bytes : List ℕ) (mask : Bitset)
    → 0 < h.block_size
    → length bytes ≡ h.block_size
    → Updates h.block_mask i true mask
    → Holds content h body
    → IsBlockOf content h i bytes
    → Holds content
        (record h { block_mask = mask })
        (write_at body (i * h.block_size) (take (h.file_size - i * h.block_size) bytes))
write-Holds content h body i bytes mask hb len u held right q hq present =
    let real = take (h.file_size - i * h.block_size) bytes in
    let (lo, hi) = block_bounds q h.block_size hb in
    elim (Bool-cases (i == q / h.block_size)) [
      | inl here ↦
          let e : q / h.block_size ≡ i = omega tests in
          let o : i * h.block_size ≤ q = rw (← e) lo in
          let below : q < i * h.block_size + h.block_size = rw (← e) hi in
          let k : i * h.block_size + (q - i * h.block_size) ≡ q = omega (arith, o) in
          byte-write_at body (i * h.block_size) real q
          ∙ ground (
            arith,
            o,
            length-take (h.file_size - i * h.block_size) bytes,
            byte-take (h.file_size - i * h.block_size) bytes (q - i * h.block_size),
            right (q - i * h.block_size) (omega (arith, below, o)) (rw k hq),
            ap content k,
          )
      | inr other ↦
          let old : bit_at h.block_mask.bits (q / h.block_size) ≡ true =
            ground (arith, other, present, u.3 (q / h.block_size)) in
          let d : i ≢ q / h.block_size = omega tests in
          byte-write_at body (i * h.block_size) real q
          ∙ ground (
            arith,
            held q hq old,
            length-take (h.file_size - i * h.block_size) bytes,
            λ (a : i * h.block_size ≤ q) (b : q < i * h.block_size + h.block_size). d (
                sym (
                  block_unique q h.block_size i hb a
                    (omega (arith, b, next_block i h.block_size)))),
          )
    ]

-- The cache is open on a file whose present blocks are right.
abbrev pub IsRightCache : (ℕ → ℕ) → World → DingCacheHeader → List ℕ → Type 0
IsRightCache content w h body = IsSynced w h body × Holds content h body

-- On an open cache whose present blocks hold the content, writing a block of the file, with a full
-- block of the content's bytes, succeeds; afterwards the header on the disk and the one in memory
-- are one header again, which differs in that block's bit only, and every present block, the new one
-- included, holds the content.
pub write_block-IsRightCache :
    (content : ℕ → ℕ) (w : World) (h : DingCacheHeader) (body : List ℕ) (i : ℕ) (bytes : List ℕ)
    → IsRightCache content w h body
    → i < h.block_number
    → length bytes ≡ h.block_size
    → IsBlockOf content h i bytes
    → (w' : World) × (mask : Bitset) × (body' : List ℕ) × (write_block i bytes w ≡ (ok tt, w'))
      × Updates h.block_mask i true mask
      × IsRightCache content w' (record h { block_mask = mask }) body'
write_block-IsRightCache content w h body i bytes (s, held) lt len right =
    let (inside, room) = block_in_file h i s.shape s.small lt in
    let (mask, em, u) = set_index-Updates h.block_mask i s.mask room in
    let real = take (h.file_size - i * h.block_size) bytes in
    (
      written w h body i real mask,
      mask,
      write_at body (i * h.block_size) real,
      write_block_runs w h body i bytes mask s lt len em,
      u,
      (
        written-IsSynced w h body i real mask s u,
        write-Holds content h body i bytes mask s.shape.block_size len u held right,
      ),
    )
