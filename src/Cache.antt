-- ===== src/Cache.antt =====
-- internal/downloader/file.go: a cache file on disk and its header in memory.
-- A method is an action of `Exec`: it returns a value or an error, and the world that it leaves.
-- The locks of DingCache do not show in a sequence of calls. An I/O error other than a missing file
-- is not modelled.
pub mod Monad
pub mod Sync
pub mod Blocks
pub mod Resize
use dingospeed.Base.{
  ℕ, ◌+◌, ◌-◌, ◌*◌, ◌/◌, ◌%◌, ◌^◌, String, List, [], ◌∷◌, ◌++◌, Bool, true, false, not, Option,
  some, none, Result, ok, err, panicked, ltb, leb, ◌==◌, if◌then◌else◌, length, take, drop,
  replicate, min,
}
use Monad.{Exec, ◌>>=◌, ◌>>◌, pure, gets, modify, lift, require}
use dingospeed.Errors.{
  Error, already_open, already_closed, file_closed, invalid_block_index, block_size_mismatch,
  invalid_resize, no_such_file,
}
use dingospeed.Bitset.{Bitset, new_bitset, set_index}
use dingospeed.Header.Codec.{take_u64}
use dingospeed.Header.{
  DingCacheHeader, new_header, header_size, header_bytes, read_magic, read_header, valid_header,
  current_olah_cache_version,
}
use dingospeed.Ranges.{has_block}
use dingospeed.Disk.{Disk, put_file, write_at, truncate, read_into}

pub record DingCache : Type 0 where
  pub path : String
  pub header : Option DingCacheHeader
  pub is_open : Bool

pub record World : Type 0 where
  pub disk : Disk
  pub cache : DingCache

-- c.header, which is nil before Open and after Close.
abbrev pub need_header : Exec World DingCacheHeader
need_header = do
  found ← gets (λ w. w.cache.header)
  lift (elim found [ none ↦ panicked | some h ↦ ok h ])

abbrev pub need_open : Error → Exec World (Unit {0})
need_open e = do open_now ← gets (λ w. w.cache.is_open); require open_now e

-- os.OpenFile of a file that has to be there, as its bytes.
abbrev pub open_file : String → Exec World (List ℕ)
open_file path = do
  found ← gets (λ w. w.disk path)
  lift (elim found [ none ↦ err no_such_file | some file ↦ ok file ])

abbrev pub save_file : String → List ℕ → Exec World (Unit {0})
save_file path file = modify (λ w. record w { disk = put_file w.disk path file })

abbrev pub put_header : DingCacheHeader → Exec World (Unit {0})
put_header h = modify (λ w. record w { cache = record w.cache { header = some h } })

-- The position of a file at which a failed Read of its header stops.
unfoldable pub read_end : List ℕ → ℕ
read_end file =
    let n = length file in
    let within : ℕ = elim (take_u64 (drop 12 file)) [
      | ok (block_size, r) ↦ if block_size == 0 then 36 else elim (take_u64 (drop 28 file)) [
        | ok (mask_size, r) ↦ min n (36 + length (new_bitset mask_size).bits)
        | err e ↦ n
        | panicked ↦ n
      ]
      | err e ↦ n
      | panicked ↦ n
    ] in
    elim (read_magic file) [
      | ok r ↦ if ltb n 36 then n else within
      | err e ↦ min 4 n
      | panicked ↦ min 4 n
    ]

-- Open on a file that is there: a header that cannot be read is replaced by a new one, which is
-- written where the reading stopped.
unfoldable pub open_existing : String → ℕ → List ℕ → Exec World (Unit {0})
open_existing path block_size file w =
    let new = new_header current_olah_cache_version block_size 0 in
    let replaced = (do
      put_header new
      save_file path (write_at file (read_end file) (header_bytes new))) in
    elim (read_header file) [
      | ok h ↦ put_header h w
      | err e ↦ replaced w
      | panicked ↦ (panicked, w)
    ]

unfoldable pub open_new : String → ℕ → Exec World (Unit {0})
open_new path block_size = do
  let new = new_header current_olah_cache_version block_size 0
  put_header new
  save_file path (header_bytes new)

unfoldable pub open_cache : String → ℕ → Exec World (Unit {0})
unfolding open_existing open_new
open_cache path block_size = do
  open_now ← gets (λ w. w.cache.is_open)
  require (not open_now) already_open
  found ← gets (λ w. w.disk path)
  elim found [ none ↦ open_new path block_size | some file ↦ open_existing path block_size file ]
  modify (λ w. record w { cache = record w.cache { is_open = true } })

-- NewDingCache on a disk.
unfoldable pub new_ding_cache : Disk → String → ℕ → Result Error (Unit {0}) × World
new_ding_cache disk path block_size =
    open_cache path block_size
      (record { disk = disk; cache = record { path = path; header = none; is_open = false } })

unfoldable pub close_cache : Exec World (Unit {0})
close_cache = do
  need_open already_closed
  modify (λ w. record w { cache = record { path = ""; header = none; is_open = false } })

-- flushHeader: the header in memory, over the start of the file.
unfoldable pub flush_header : Exec World (Unit {0})
flush_header = do
  path ← gets (λ w. w.cache.path)
  file ← open_file path
  h ← need_header
  save_file path (write_at file 0 (header_bytes h))

unfoldable pub set_header_block : ℕ → Exec World (Unit {0})
set_header_block block_index = do
  h ← need_header
  mask ← lift (set_index h.block_mask block_index)
  put_header (record h { block_mask = mask })

-- The bytes of a block that lie in the file. A slice to a negative end is a panic.
unfoldable pub real_block : DingCacheHeader → ℕ → List ℕ → Result Error (List ℕ)
real_block h block_index block_bytes =
    let start = block_index * h.block_size in
    if ltb h.file_size ((block_index + 1) * h.block_size)
    then (if ltb h.file_size start then panicked else ok (take (h.file_size - start) block_bytes))
    else ok block_bytes

unfoldable pub write_block : ℕ → List ℕ → Exec World (Unit {0})
write_block block_index block_bytes = do
  need_open file_closed
  h ← need_header
  require (ltb block_index h.block_number) invalid_block_index
  require (length block_bytes == h.block_size) block_size_mismatch
  path ← gets (λ w. w.cache.path)
  file ← open_file path
  real ← lift (real_block h block_index block_bytes)
  save_file path (write_at file (header_size h + block_index * h.block_size) real)
  set_header_block block_index
  flush_header

unfoldable pub resize_file_size : ℕ → Exec World (Unit {0})
resize_file_size file_size = do
  need_open file_closed
  h ← need_header
  path ← gets (λ w. w.cache.path)
  let new_bin_size = header_size h + file_size
  let grow = (do
    file ← open_file path
    save_file path (truncate new_bin_size (write_at file (new_bin_size - 1) (0 ∷ []))))
  if file_size == h.file_size
      then pure tt
      else if ltb file_size h.file_size
      then lift (err invalid_resize)
      else grow

unfoldable pub resize_header : ℕ → ℕ → Exec World (Unit {0})
resize_header block_num file_size = do
  h ← need_header
  let new = record h { block_number = block_num; file_size = file_size }
  put_header new
  lift (valid_header new)

-- `(fileSize + bs - 1) / bs` on int64; a header with block size 0 is never kept.
unfoldable pub resize : ℕ → Exec World (Unit {0})
resize file_size = do
  need_open file_closed
  h ← need_header
  resize_file_size file_size
  resize_header ((file_size + h.block_size - 1) / h.block_size) file_size
  flush_header

-- padBlock
unfoldable pub pad_block : DingCacheHeader → List ℕ → List ℕ
pad_block h raw_block =
    if ltb (length raw_block) h.block_size
    then raw_block ++ replicate (h.block_size - length raw_block) 0
    else raw_block
