-- ===== src/Remote.antt =====
-- DoTask of internal/downloader/remote_task.go: the blocks of a range that is fetched.
-- What the second goroutine receives is a list of chunks and how it ends: the channel is closed, or
-- the context is done, before or while a chunk is sent on. An error of WriteBlock is only logged.
pub mod Store
pub mod Steps
pub mod Finish
pub mod Laws
pub mod Fetched
use dingospeed.Base.{
  ℕ, zero, suc, ◌+◌, ◌-◌, ◌/◌, ◌%◌, ◌*◌, String, List, [], ◌∷◌, ◌++◌, Bool, true, false, Option,
  some, none, Result, ok, err, panicked, ltb, ◌==◌, if◌then◌else◌, length, take, drop, replicate,
  max,
}
use dingospeed.Header.{DingCacheHeader}
use dingospeed.Block.{get_block_info}
use dingospeed.Task.{DownloadTask}
use dingospeed.Ranges.{has_block}
use dingospeed.Cache.{World, DingCache, write_block}

-- consts.StatusDownloading, StatusDownloadBreak and StatusDownloaded.
pub data Status : Type 0 where
  downloading download_break downloaded : Status

-- The fields of a FileProcessParam that differ from one report of a task to the next.
pub record Report : Type 0 where
  pub start_pos : ℕ
  pub end_pos : ℕ
  pub status : Status

-- The variables of DoTask, the world, and the reports so far, the last one first.
pub record RemoteState : Type 0 where
  pub cur_block : ℕ
  pub stream_cache : List ℕ
  pub cur_pos : ℕ
  pub last_report_pos : ℕ
  pub last_block : ℕ
  pub last_block_start_pos : ℕ
  pub last_block_end_pos : ℕ
  pub interval : ℕ
  pub world : World
  pub reports : List Report

abbrev pub add_report : RemoteState → ℕ → Status → RemoteState
add_report s end_pos status = record s {
  reports =
      record { start_pos = s.last_report_pos; end_pos = end_pos; status = status } ∷ s.reports;
}

-- HasBlock on what the header says now.
abbrev pub test_in : Option DingCacheHeader → ℕ → Result (Unit {0}) Bool
test_in none block_index = panicked
test_in (some h) block_index = elim (has_block h block_index) [
  | ok b ↦ ok b
  | err e ↦ err tt
  | panicked ↦ panicked
]

abbrev pub block_test : World → ℕ → Result (Unit {0}) Bool
block_test w block_index = test_in w.cache.header block_index

abbrev pub is_missing : Result (Unit {0}) Bool → Bool
is_missing (ok true) = false
is_missing (ok false) = true
is_missing (err e) = false
is_missing panicked = false

module _ (sync_process_interval block_size file_size : ℕ) (t : DownloadTask) where
  unfoldable pub initial : World → RemoteState
  initial w =
      let info = get_block_info t.range_start_pos block_size file_size in
      record {
        cur_block = 0;
        stream_cache = [];
        cur_pos = t.range_start_pos;
        last_report_pos = t.range_start_pos;
        last_block = info.0;
        last_block_start_pos = info.1;
        last_block_end_pos = info.2;
        interval = 1;
        world = w;
        reports = [];
      }

  -- The report after a block, every so many blocks.
  unfoldable pub progress : RemoteState → RemoteState
  progress s =
      if s.interval == sync_process_interval
      then record (add_report s s.last_block_end_pos downloading) {
        last_report_pos = s.last_block_end_pos;
        interval = 1;
      }
      else record s { interval = s.interval + 1 }

  -- A whole block goes to the file, unless it is there.
  unfoldable pub save_block : RemoteState → List ℕ → RemoteState
  unfolding progress
  save_block s raw_block =
      if length raw_block == block_size
      then (if is_missing (block_test s.world s.last_block)
          then progress (record s { world = (write_block s.last_block raw_block s.world).1 })
          else s)
      else s

  -- The part for a new block: the bytes of the block before are taken off the stream.
  unfoldable pub next_block_reached : RemoteState → RemoteState
  unfolding save_block
  next_block_reached s =
      let wanted = s.last_block_end_pos - max s.last_block_start_pos t.range_start_pos in
      let split_pos : ℕ =
        if ltb (length s.stream_cache) wanted then length s.stream_cache else wanted in
      let saved = save_block s (take split_pos s.stream_cache) in
      let info = get_block_info s.cur_pos block_size file_size in
      record saved {
        stream_cache = drop split_pos s.stream_cache;
        last_block = info.0;
        last_block_start_pos = info.1;
        last_block_end_pos = info.2;
      }

  unfoldable pub receive : RemoteState → List ℕ → RemoteState
  unfolding next_block_reached
  receive s chunk =
      let cur_pos = s.cur_pos + length chunk in
      let s' = record s {
        cur_pos = cur_pos;
        stream_cache = s.stream_cache ++ chunk;
        cur_block = cur_pos / block_size;
      } in
      if cur_pos / block_size == s.last_block then s' else next_block_reached s'

  unfoldable pub receive_all : RemoteState → List (List ℕ) → RemoteState
  receive_all s [] = s
  receive_all s (chunk ∷ chunks) = receive_all (receive s chunk) chunks

  -- The bytes that are left, and the block that they are for.
  unfoldable pub last_part : RemoteState → ℕ → List ℕ × ℕ
  last_part s block_number =
      let raw_block = s.stream_cache in
      let padded : List ℕ =
        if length raw_block == file_size % block_size
        then raw_block ++ replicate (block_size - length raw_block) 0
        else raw_block in
      if s.cur_block + 1 == block_number then (padded, s.cur_block) else (raw_block, s.last_block)

  -- What is done with them.
  unfoldable pub finish_with : RemoteState → List ℕ × ℕ → RemoteState
  finish_with s (raw_block, last_block) =
      if length raw_block == 0
      then add_report s s.cur_pos downloaded
      else if length raw_block == block_size
      then (if is_missing (block_test s.world last_block)
          then add_report (record s { world = (write_block last_block raw_block s.world).1 })
              s.cur_pos downloaded
          else s)
      else s

  -- What follows `wg.Wait`.
  unfoldable pub finish : RemoteState → ℕ → RemoteState
  finish s block_number = finish_with s (last_part s block_number)

  -- DoTask on chunks that arrive, to the end of the channel or of the context.
  unfoldable pub do_task : World → ℕ → List (List ℕ) → Bool → RemoteState
  unfolding initial
  do_task w block_number chunks cancelled =
      let received = receive_all (initial w) chunks in
      let stopped : RemoteState =
        (if cancelled
          then add_report received received.last_block_end_pos download_break
          else received) in
      finish stopped block_number
