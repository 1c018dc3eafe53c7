-- ===== src/Tests/Ranges.antt =====
-- Runs of the planning of a download.
use dingospeed.Base.{
  ℕ, ◌+◌, ◌≤◌, ◌≡◌, refl, List, Bool, false, Option, some, none, ok, ℤ, pos, negsuc, arith, length,
  leb,
}
use dingospeed.Bitset.{test_index}
use dingospeed.Task.{TaskParam, DownloadTask}
use dingospeed.Ranges.{has_block, analysis_file_position, analysis_loop, get_contiguous_ranges}
use dingospeed.Ranges.Tiling.{Tiles, Numbered, All, IsRight, IsShort}
use dingospeed.Ranges.Presence.{
  get_contiguous_ranges-Tiles, get_contiguous_ranges-IsRight, get_contiguous_ranges-prefix,
}
use dingospeed.Ranges.Analysis.{Analysed, analysis_file_position-Analysed}
use dingospeed.Plan.{SchedulerFileRequest, SchedulerFileResponse, construct_task}
use dingospeed.Plan.Laws.{NoShortfall, construct_task-Tiles}
use dingospeed.Tests.{small_header, small_header-IsUsable, small_config, small_param}

abbrev alive : ℕ → Bool
alive k = false

-- From the first block, which is cached, over the second, which is not, into the third.
abbrev plan_1_9 : List DownloadTask × ℕ
plan_1_9 = get_contiguous_ranges small_config alive small_header (pos 1) (pos 9) small_param

get_contiguous_ranges-Tiles_example :
    Tiles 1 9 plan_1_9.0 × Numbered 5 plan_1_9.0 × (plan_1_9.1 ≡ 5 + length plan_1_9.0)
get_contiguous_ranges-Tiles_example =
    get_contiguous_ranges-Tiles small_config small_param small_header small_header-IsUsable 1 9
      (omega arith) (omega arith) alive (λ i. refl)

get_contiguous_ranges-IsRight_example :
    All (λ t. IsRight small_header t × IsShort small_config t) plan_1_9.0
get_contiguous_ranges-IsRight_example =
    get_contiguous_ranges-IsRight small_config small_param small_header small_header-IsUsable 1 9
      (omega arith) (omega arith) alive (λ i. refl)

-- The context ends at the second block.
abbrev ends_at_1 : ℕ → Bool
ends_at_1 k = leb 1 k

get_contiguous_ranges-prefix_example :
    (m : ℕ) × (m ≤ 9)
    × Tiles 1 m
        (get_contiguous_ranges small_config ends_at_1 small_header (pos 1) (pos 9) small_param).0
get_contiguous_ranges-prefix_example =
    get_contiguous_ranges-prefix small_config small_param small_header small_header-IsUsable 1 9
      (omega arith) (omega arith) ends_at_1

analysis_file_position-Analysed_example :
    (cur : ℕ) × (complete : Bool) × (analysis_file_position small_header (pos 1) (pos 9)
      ≡ (complete, pos cur))
    × Analysed small_header 1 9 (complete, cur)
analysis_file_position-Analysed_example =
    analysis_file_position-Analysed small_header small_header-IsUsable 1 9 (omega arith)
      (omega arith)

-- A scheduler whose node has two bytes from where a request starts.
abbrev answer : ℕ → SchedulerFileResponse
answer max_offset = record {
  scheduler_type = 2;
  process_id = 1;
  master_instance_id = "m";
  host = "node";
  port = 80;
  max_offset = pos max_offset;
}

abbrev two_bytes_at : ℤ → Option SchedulerFileResponse
two_bytes_at (pos n) = some (answer (n + 2))
two_bytes_at (negsuc n) = none

abbrev two_bytes : SchedulerFileRequest → Option SchedulerFileResponse
two_bytes request = two_bytes_at request.start_pos

abbrev always_alive : ℕ → ℕ → Bool
always_alive n k = false

two_bytes_at_lem :
    (p : ℤ) (response : SchedulerFileResponse) (cur : ℕ)
    → two_bytes_at p ≡ some response
    → p ≡ pos cur
    → (m : ℕ) × (response.max_offset ≡ pos m) × (cur ≤ m)
two_bytes_at_lem (pos n) response cur answered start = (n + 2, ground arith, ground arith)
two_bytes_at_lem (negsuc n) response cur answered start = absurd (ground arith)

two_bytes-NoShortfall :
    NoShortfall small_config "i" two_bytes always_alive small_header small_header-IsUsable
      (λ n k. refl)
      1
      9
      (omega arith)
      (omega arith)
two_bytes-NoShortfall request response cur answered node start =
    two_bytes_at_lem request.start_pos response cur answered start

construct_task-Tiles_example :
    (tasks : List DownloadTask) × (p' : TaskParam) × (construct_task small_config "i" two_bytes
        always_alive small_header
        (pos 1)
        (pos 9)
        false
        small_param
      ≡ ok (tasks, p'))
    × (Tiles 1 9 tasks × All (IsRight small_header) tasks)
unfolding analysis_file_position analysis_loop has_block test_index
construct_task-Tiles_example =
    (construct_task-Tiles small_config "i" two_bytes always_alive small_header small_header-IsUsable
        (λ n k. refl) 1 9 (omega arith) (omega arith) two_bytes-NoShortfall false small_param).1
      refl
