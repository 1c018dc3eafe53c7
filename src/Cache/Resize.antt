-- ===== src/Cache/Resize.antt =====
-- Resize of a cache file: a file of the new size, with a header that says so.
use dingospeed.Base.{
  ℕ, ◌+◌, ◌-◌, ◌*◌, ◌/◌, ◌%◌, ◌^◌, ◌≤◌, ◌<◌, ◌≡◌, refl, ap, ◌∙◌, List, [], ◌∷◌, ◌++◌, false, ok,
  arith, le→ltb, ne→==, length, length-take, some,
}
use dingospeed.Bitset.Laws.{bit_at}
use dingospeed.Header.{DingCacheHeader, header_bytes, header_size}
use dingospeed.Header.RoundTrip.{IsWellFormed, length-header_bytes, valid_header_ok}
use dingospeed.Block.{block_bounds, block_lt}
use dingospeed.Disk.{Disk, put_file, write_at, truncate, pad_to}
use dingospeed.Disk.Bytes.{length-pad_to}
use dingospeed.Disk.Layout.{write_at-append, write_at-prefix, truncate-append}
use dingospeed.Cache.{World, resize, resize_file_size, resize_header, flush_header}
use dingospeed.Cache.Sync.{IsSynced, put_file_self}
use dingospeed.Cache.Blocks.{IsRightCache}

abbrev pub resized_header : DingCacheHeader → ℕ → DingCacheHeader
resized_header h fs = record h {
  block_number = (fs + h.block_size - 1) / h.block_size;
  file_size = fs;
}

abbrev grown : DingCacheHeader → List ℕ → ℕ → List ℕ
grown h body fs =
    truncate (header_size h + fs)
      (write_at (header_bytes h ++ body) (header_size h + fs - 1) (0 ∷ []))

abbrev resized : World → DingCacheHeader → List ℕ → ℕ → World
resized w h body fs =
    let file : List ℕ = grown h body fs in
    let disk : Disk = put_file w.disk w.cache.path file in
    record {
      disk = put_file disk w.cache.path (write_at file 0 (header_bytes (resized_header h fs)));
      cache = record w.cache { header = some (resized_header h fs) };
    }

resize_runs :
    (w : World) (h : DingCacheHeader) (body : List ℕ) (fs : ℕ)
    → IsSynced w h body
    → h.file_size < fs
    → fs ≤ h.block_mask_size * h.block_size % 2 ^ 64
    → resize fs w ≡ (ok tt, resized w h body fs)
unfolding resize resize_file_size resize_header flush_header
resize_runs w h body fs s more capacity = rw s.opened (
    rw s.header (
      rw (ne→== fs h.file_size (omega (arith, more))) (
        rw (le→ltb fs h.file_size (omega (arith, more))) (
          rw s.file (
            rw (valid_header_ok (resized_header h fs) capacity s.shape.version)
              (rw (put_file_self w.disk w.cache.path (grown h body fs)) refl))))))

grown-append :
    (h : DingCacheHeader) (body : List ℕ) (fs : ℕ)
    → h.magic ≡ (resized_header h fs).magic
    → IsWellFormed h
    → 0 < fs
    → write_at (grown h body fs) 0 (header_bytes (resized_header h fs))
      ≡ header_bytes (resized_header h fs) ++ truncate fs (write_at body (fs - 1) (0 ∷ []))
grown-append h body fs m v pos =
    let len = length-header_bytes h v.magic in
    let len' = length-header_bytes (resized_header h fs) v.magic in
    let e : header_size h + fs - 1 ≡ length (header_bytes h) + (fs - 1) = omega (arith, len) in
    let e' : header_size h + fs ≡ length (header_bytes h) + fs = omega (arith, len) in
    rw e (
      rw e' (
        rw (write_at-append (header_bytes h) body (fs - 1) (0 ∷ [])) (
          rw (truncate-append (header_bytes h) (write_at body (fs - 1) (0 ∷ [])) fs) (
            write_at-prefix (header_bytes h) (header_bytes (resized_header h fs))
              (truncate fs (write_at body (fs - 1) (0 ∷ []))) (omega (arith, len, len'))))))

length-truncate : (n : ℕ) (file : List ℕ) → length (truncate n file) ≡ n
unfolding truncate
length-truncate n file = omega (arith, length-take n (pad_to n file), length-pad_to n file)

-- On an open cache in step with its file, whose mask has no bit set, a resize to a larger size that
-- the mask has room for, and that with one block more stays below 2^63, succeeds; afterwards the
-- header on the disk and the one in memory are one header again, with the new size and the number of
-- blocks that belongs to it, the file is long enough for that size, and no present block is wrong.
pub resize-IsRightCache :
    (content : ℕ → ℕ) (w : World) (h : DingCacheHeader) (body : List ℕ) (fs : ℕ)
    → IsSynced w h body
    → ((i : ℕ) → i < h.block_mask_size → bit_at h.block_mask.bits i ≡ false)
    → h.file_size < fs
    → fs ≤ h.block_mask_size * h.block_size % 2 ^ 64
    → fs + h.block_size < 2 ^ 63
    → (w' : World) × (body' : List ℕ) × (resize fs w ≡ (ok tt, w'))
      × IsRightCache content w' (resized_header h fs) body'
resize-IsRightCache content w h body fs s none_yet more capacity small =
    let v = s.shape in
    let sum : (fs + h.block_size + (2 ^ 64 - 1)) % 2 ^ 64 ≡ fs + h.block_size - 1 =
      omega (arith, small, v.block_size) in
    (
      resized w h body fs,
      truncate fs (write_at body (fs - 1) (0 ∷ [])),
      resize_runs w h body fs s more capacity,
      (
        record {
          opened = s.opened;
          header = refl;
          file =
              put_file_self _ w.cache.path _
              ∙ ap some (grown-append h body fs refl v (omega (arith, more)));
          shape = record {
            magic = v.magic;
            version = v.version;
            block_size = v.block_size;
            block_size_u64 = v.block_size_u64;
            file_size = omega (arith, small);
            mask_size = v.mask_size;
            capacity = capacity;
            block_number = rw sum refl;
            mask = v.mask;
            bits = v.bits;
          };
          mask = s.mask;
          small = small;
          room = omega (arith, length-truncate fs (write_at body (fs - 1) (0 ∷ [])));
        },
        λ q inside present.
            let (lo, _) = block_bounds q h.block_size v.block_size in
            let room : q / h.block_size < h.block_mask_size =
              block_lt (q / h.block_size) h.block_mask_size h.block_size
                (omega (arith, lo, inside, capacity)) in
            absurd (cc (present, none_yet (q / h.block_size) room)),
      ),
    )
