-- ===== src/CacheRead.antt =====
-- CacheFileTask.OutResult of internal/downloader/cache_task.go: the bytes of a range, from the file.
-- `ctx_err k` says that the context is done when block `k` is reached, and `send_err k` that it is
-- done before the chunk of block `k` is taken from the response channel.
pub mod Laws
use dingospeed.Base.{
  ℕ, zero, suc, ◌+◌, ◌-◌, ◌/◌, String, List, [], ◌∷◌, Bool, not, ◌||◌, Option, some, none, ok, err,
  panicked, ltb, ◌==◌, if◌then◌else◌, length, take, drop, min, max,
}
use dingospeed.Header.{DingCacheHeader}
use dingospeed.Block.{get_block_info}
use dingospeed.Task.{DownloadTask}
use dingospeed.Ranges.{has_block}
use dingospeed.Cache.{World, DingCache}
use dingospeed.Reader.{BlockCache, ReadSettings, read_block}

-- How the task ends: after its loop with the value of curPos, by the context, or by a panic.
pub data End : Type 0 where
  finished : ℕ → End
  cancelled crashed : End

-- What was sent, the store of blocks in memory, and the end.
pub record Sent (M : Type 0) : Type 0 where
  pub chunks : List (List ℕ)
  pub memory : M
  pub end : End

abbrev pub stopped : {M : Type 0} → M → End → Sent M
stopped m e = record { chunks = []; memory = m; end = e }

-- A block that is not there is nil.
abbrev pub bytes_of : Option (List ℕ) → List ℕ
bytes_of none = []
bytes_of (some bytes) = bytes

-- The bounds sPos and ePos of the chunk in a block of `raw_len` bytes.
unfoldable pub chunk_bounds : DownloadTask → ℕ → ℕ → ℕ → ℕ × ℕ
chunk_bounds t block_start_pos block_end_pos raw_len =
    let e_pos = min t.range_end_pos block_end_pos - block_start_pos in
    (
      max t.range_start_pos block_start_pos - block_start_pos,
      if ltb raw_len e_pos then raw_len else e_pos,
    )

module _ {M : Type 0} (cache : BlockCache M) (md5 : String → String) (settings : ReadSettings)
    (ctx_err send_err : ℕ → Bool) (w : World) (t : DownloadTask) where
  -- The loop from block `cur_block` on.
  unfoldable pub out_loop : DingCacheHeader → ℕ → ℕ → ℕ → M → Sent M
  out_loop h zero cur_block cur_pos m = stopped m (finished cur_pos)
  out_loop h (suc rounds) cur_block cur_pos m =
      let next = out_loop h rounds (cur_block + 1) in
      let info = get_block_info cur_pos h.block_size h.file_size in
      let read = read_block cache md5 settings cur_block w m in
      if ctx_err cur_block then stopped m cancelled else elim (has_block h cur_block) [
        | err e ↦ next cur_pos m
        | panicked ↦ stopped m crashed
        | ok has_block_bool ↦
            if not has_block_bool then stopped m (finished cur_pos) else elim read.0 [
              | err e ↦ next cur_pos read.1
              | panicked ↦ stopped read.1 crashed
              | ok raw ↦
                  let raw_block = bytes_of raw in
                  let (s_pos, e_pos) = chunk_bounds t info.1 info.2 (length raw_block) in
                  let chunk = take (e_pos - s_pos) (drop s_pos raw_block) in
                  let rest = next (cur_pos + length chunk) read.1 in
                  if length raw_block == 0 || ltb (length raw_block) s_pos
                  then next cur_pos read.1
                  else if ltb e_pos s_pos
                  then stopped read.1 crashed
                  else if send_err cur_block
                  then stopped read.1 cancelled
                  else record { chunks = chunk ∷ rest.chunks; memory = rest.memory; end = rest.end }
            ]
      ]

  -- The task on the header that the cache has, which is nil when it is closed.
  unfoldable pub out_from : Option DingCacheHeader → M → Sent M
  out_from none m = stopped m crashed
  out_from (some h) m =
      let start_block = t.range_start_pos / h.block_size in
      let end_block = (t.range_end_pos - 1) / h.block_size in
      out_loop h (end_block + 1 - start_block) start_block t.range_start_pos m

  unfoldable pub out_result : M → Sent M
  unfolding out_from
  out_result m = out_from w.cache.header m
