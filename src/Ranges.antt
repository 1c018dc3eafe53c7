-- ===== src/Ranges.antt =====
-- analysisFilePosition, getContiguousRanges and splitRemoteRange of internal/dao/downloader_dao.go.
-- The positions that a request brings are signed; once checked they are numbers.
pub mod Tiling
pub mod Split
pub mod Loop
pub mod Presence
pub mod Analysis
use dingospeed.Base.{
  ℕ, zero, suc, ◌+◌, ◌-◌, ◌*◌, ◌/◌, List, [], ◌∷◌, ◌++◌, Bool, true, false, not, ◌&&◌, Option, some,
  none, Result, ok, err, panicked, ltb, leb, ◌==◌, if◌then◌else◌, ℤ, pos, negsuc,
}
use dingospeed.Errors.{Error}
use dingospeed.Bitset.{test_index}
use dingospeed.Header.{DingCacheHeader}
use dingospeed.Block.{get_block_info}
use dingospeed.Task.{Config, TaskParam, DownloadTask, create_cache_task, create_remote_task}

-- DingCache.HasBlock, of file.go.
unfoldable pub has_block : DingCacheHeader → ℕ → Result Error Bool
has_block h block_index = test_index h.block_mask block_index

-- `startPos == 0 && endPos == 0`
abbrev pub both_zero : ℤ → ℤ → Bool
both_zero (pos s) (pos e) = s == 0 && e == 0
both_zero (pos s) (negsuc e) = false
both_zero (negsuc s) e = false

-- The numbers that pass `startPos < 0 || endPos <= startPos || endPos > fileSize`.
abbrev pub check_positions : ℤ → ℤ → ℕ → Option (ℕ × ℕ)
check_positions (pos s) (pos e) file_size = if ltb s e && leb e file_size then some (s, e) else none
check_positions (pos s) (negsuc e) file_size = none
check_positions (negsuc s) e file_size = none

-- The loop of analysisFilePosition over `rounds` blocks from `cur_block` on.
-- A block whose test fails with an error counts as missing.
unfoldable pub analysis_loop : DingCacheHeader → ℕ → ℕ → ℕ → ℕ → Bool × ℕ
analysis_loop h start end zero cur_block = (true, end)
analysis_loop h start end (suc rounds) cur_block =
    let missing =
      (let cur_pos = cur_block * h.block_size in if ltb cur_pos start then start else cur_pos) in
    let rest = analysis_loop h start end rounds (cur_block + 1) in
    elim (has_block h cur_block) [
      | ok exists ↦ if exists then rest else (false, missing)
      | err e ↦ (false, missing)
      | panicked ↦ (false, missing)
    ]

-- Whether the range is cached whole, and the position up to which it is.
unfoldable pub analysis_file_position : DingCacheHeader → ℤ → ℤ → Bool × ℤ
analysis_file_position h start_pos end_pos =
    if both_zero start_pos end_pos
    then (true, start_pos)
    else elim (check_positions start_pos end_pos h.file_size) [
      | none ↦ (false, start_pos)
      | some (s, e) ↦
          let start_block = s / h.block_size in
          let end_block = (e - 1) / h.block_size in
          let (complete, cur_pos) = analysis_loop h s e (end_block + 1 - start_block) start_block in
          (complete, pos cur_pos)
    ]

-- The loop of splitRemoteRange. A round moves `start` on, so `fuel` rounds suffice for `fuel` bytes.
unfoldable pub split_loop : Config → TaskParam → ℕ → ℕ → ℕ → ℕ → List DownloadTask × ℕ
split_loop c p zero start end_pos task_no = ([], task_no)
split_loop c p (suc fuel) start end_pos task_no =
    let end =
      (let whole = start + c.remote_file_range_size in
        if ltb end_pos whole then end_pos else whole) in
    let rest = split_loop c p fuel end end_pos (task_no + 1) in
    if ltb start end_pos
    then (create_remote_task c task_no start end p ∷ rest.0, rest.1)
    else ([], task_no)

-- The tasks and the next task number.
unfoldable pub split_remote_range : Config → TaskParam → ℕ → ℕ → ℕ → List DownloadTask × ℕ
split_remote_range c p start_pos end_pos task_no =
    if c.remote_file_range_size == 0
    then (create_remote_task c task_no start_pos end_pos p ∷ [], task_no + 1)
    else split_loop c p (end_pos - start_pos) start_pos end_pos task_no

-- The variables of getContiguousRanges that its loop changes.
pub record LoopState : Type 0 where
  pub range_start_pos : ℕ
  pub cur_pos : ℕ
  pub range_is_remote : Bool
  pub task_no : ℕ
  pub tasks : List DownloadTask

-- The tasks of a finished run of blocks, as the loop and the code after it append them.
unfoldable pub close_range : Config → TaskParam → LoopState → ℕ → LoopState
close_range c p s end =
    if s.range_is_remote
    then (let (r_tasks, task_no) = split_remote_range c p s.range_start_pos end s.task_no in
        record s { task_no = task_no; tasks = s.tasks ++ r_tasks })
    else record s {
      task_no = s.task_no + 1;
      tasks = s.tasks ++ (create_cache_task s.task_no s.range_start_pos end p ∷ []);
    }

abbrev differ : Bool → Bool → Bool
differ true b = not b
differ false b = b

-- One round on a block that is absent (`cur_is_remote`) or present.
unfoldable pub range_step : Config → TaskParam → DingCacheHeader → Bool → LoopState → LoopState
range_step c p h cur_is_remote s =
    let (_, _, block_end_pos) = get_block_info s.cur_pos h.block_size h.file_size in
    let closed = (if ltb s.range_start_pos s.cur_pos then close_range c p s s.cur_pos else s) in
    if differ s.range_is_remote cur_is_remote
    then record closed {
      range_start_pos = s.cur_pos;
      range_is_remote = cur_is_remote;
      cur_pos = block_end_pos;
    }
    else record s { cur_pos = block_end_pos }

-- The loop and what follows it. `ctx_err k` says that the context is done when block `k` is reached.
-- An early return gives the tasks so far, and leaves the task number of the parameters as it was.
unfoldable pub ranges_loop :
    Config
    → TaskParam
    → (ℕ → Bool)
    → DingCacheHeader
    → ℕ
    → ℕ
    → ℕ
    → LoopState
    → List DownloadTask × ℕ
ranges_loop c p ctx_err h end_pos zero cur_block s =
    let closed = close_range c p s end_pos in (closed.tasks, closed.task_no)
ranges_loop c p ctx_err h end_pos (suc rounds) cur_block s =
    let rest = (λ (exists : Bool).
      ranges_loop c p ctx_err h end_pos rounds (cur_block + 1) (range_step c p h (not exists) s)) in
    if ctx_err cur_block then (s.tasks, p.task_no) else elim (has_block h cur_block) [
      | ok exists ↦ rest exists
      | err e ↦ (s.tasks, p.task_no)
      | panicked ↦ (s.tasks, p.task_no)
    ]

-- The tasks, and the task number that is left in the parameters.
unfoldable pub get_contiguous_ranges :
    Config → (ℕ → Bool) → DingCacheHeader → ℤ → ℤ → TaskParam → List DownloadTask × ℕ
get_contiguous_ranges c ctx_err h start_pos end_pos p =
    if both_zero start_pos end_pos
    then ([], p.task_no)
    else elim (check_positions start_pos end_pos h.file_size) [
      | none ↦ ([], p.task_no)
      | some (s, e) ↦
          let start_block = s / h.block_size in
          let end_block = (e - 1) / h.block_size in
          elim (has_block h start_block) [
            | ok exists ↦
                ranges_loop c p ctx_err h e (end_block + 1 - start_block) start_block (record {
                  range_start_pos = s;
                  cur_pos = s;
                  range_is_remote = not exists;
                  task_no = p.task_no;
                  tasks = [];
                })
            | err x ↦ ([], p.task_no)
            | panicked ↦ ([], p.task_no)
          ]
    ]
