-- ===== src/Tests/Download.antt =====
-- A request for a range of which the middle block is fetched.
use dingospeed.Base.{
  ℕ, zero, suc, ◌+◌, ◌*◌, ◌<◌, ◌≡◌, refl, ap, String, List, [], ◌∷◌, Bool, true, false, Option,
  some, none, ok, Result, pos, arith, inl, inr, Bool-cases, sym, ◌∙◌, ◌==◌, if◌then◌else◌, ◌≤◌, err,
  panicked, string_keyed, length,
}
use mathlib.Core.Path.{subst}
use dingospeed.Errors.{Error}
use dingospeed.Task.{Config, TaskParam, DownloadTask, create_cache_task, create_remote_task}
use dingospeed.Block.{get_block_info}
use dingospeed.Disk.{put_file, read_into}
use dingospeed.Cache.{pad_block}
use dingospeed.Header.{header_bytes}
use dingospeed.Reader.{read_block, read_from_file}
use dingospeed.Disk.Bytes.{byte}
use dingospeed.Ranges.{
  analysis_file_position, analysis_loop, has_block, get_contiguous_ranges, ranges_loop, close_range,
  range_step, split_remote_range, split_loop,
}
use dingospeed.Bitset.{test_index}
use dingospeed.Plan.{
  SchedulerFileRequest, SchedulerFileResponse, construct_task, local_task, ranges_from,
}
use dingospeed.Http.{retry_request}
use dingospeed.Fetch.{
  Reply, Server, unreachable, replied, finished, read_reply, take_chunk, get_file_range_from_remote,
}
use dingospeed.Fetch.Laws.{IsHonest}
use dingospeed.CacheRead.{out_result, out_loop, chunk_bounds}
use dingospeed.CacheRead.Laws.{IsSegment, joined}
use dingospeed.SafeMap.{find, get_key}
use dingospeed.Manager.{DingCacheManager, get_ding_file}
use dingospeed.Header.Codec.{u64_bytes}
use dingospeed.Plan.Laws.{NoShortfall}
use dingospeed.Cache.{DingCache}
use dingospeed.Stream.{
  Event, send, return_, read_error, receive, awaiting, ended, Exchange, run, start,
}
use dingospeed.Stream.Answers.{IsOver, Answered, run-Answers, run-Waits}
use dingospeed.Download.{Surroundings, Network, fetched, out_tasks}
use dingospeed.Download.Content.{IsLive}
use dingospeed.Download.Planned.{
  IsLater, IsServed, AllFetched, AnswersRange, outcome, file_download-AnswersRange,
}
use dingospeed.Tests.{small_config, small_param, small_header, small_header-IsUsable}
use dingospeed.Tests.Fetch.{direct, keep_bytes, replied_inj}
use dingospeed.Tests.Reader.{
  Store, plain_store, full_body, stored, full_world, full_world-IsRightCache, settings, plain,
  apart, empty_store, empty_store-IsRightMemory,
}

abbrev alone : Config
alone = record small_config { remote_file_range_size = 8; is_cluster = false }

abbrev middle : Reply
middle = record {
  status = 206;
  encoded = false;
  chunks = (13 ∷ 16 ∷ []) ∷ (19 ∷ 22 ∷ []) ∷ [];
  ending = finished;
}

-- It answers for the middle block alone.
abbrev middle_server : Server
middle_server n domain a b = if a == 4 then replied middle else unreachable

middle_bytes : (k : ℕ) → k < 4 → byte (13 ∷ 16 ∷ 19 ∷ 22 ∷ []) k ≡ stored (4 + k)
middle_bytes zero h = refl
middle_bytes (suc zero) h = refl
middle_bytes (suc (suc zero)) h = refl
middle_bytes (suc (suc (suc zero))) h = refl
middle_bytes (suc (suc (suc (suc k)))) h = absurd (omega arith)

middle-IsSegment : IsSegment stored 4 8 (joined middle.chunks)
middle-IsSegment = record { size = refl; bytes = middle_bytes }

abbrev Middle : ℕ → Reply → Type 0
Middle a reply =
    (reply.encoded ≡ false) × ((m : ℕ) × IsSegment stored a m (joined reply.chunks) × (m ≤ 8))

middle_server-Middle :
    (n : ℕ) (domain : String) (a : ℕ) (reply : Reply)
    → middle_server n domain a 8 ≡ replied reply
    → Middle a reply
middle_server-Middle n domain a reply e = elim (Bool-cases (a == 4)) [
  | inl here ↦
      let at : 4 ≡ a = ground (arith, here) in
      let same : replied middle ≡ replied reply = sym (rw here refl) ∙ e in
      subst (λ x. Middle x reply) at
        (subst (λ r. Middle 4 r) (replied_inj middle reply same)
          (refl, (8, middle-IsSegment, omega arith)))
  | inr elsewhere ↦ absurd (ground (arith, elsewhere, e))
]

middle_server-IsHonest : IsHonest stored 8 middle_server
middle_server-IsHonest = record {
  plain = λ n domain a reply e. (middle_server-Middle n domain a reply e).0;
  honours = λ n domain a reply e success inside. (middle_server-Middle n domain a reply e).1;
}

abbrev network : Network
network = record {
  connection = direct;
  is_cluster = false;
  official_domain = "https://hf";
  attempts = 3;
  decompress = keep_bytes;
}

abbrev around : Surroundings Store
around = record {
  worlds = λ i. full_world;
  memories = λ i. empty_store;
  servers = λ i. middle_server;
  ctx_err = λ i. false;
  read_err = λ i k. false;
  send_err = λ i k. false;
  pass_err = λ i k. false;
}

abbrev no_scheduler : SchedulerFileRequest → Option SchedulerFileResponse
no_scheduler request = none

abbrev lives : ℕ → ℕ → Bool
lives n k = false

later : (i : ℕ) → IsLater stored plain_store plain settings network around small_header i
later i = record {
  header = small_header;
  body = full_body;
  right = full_world-IsRightCache;
  apart = apart;
  memory = empty_store-IsRightMemory;
  same_size = refl;
  same_block_size = refl;
  kept = λ k e. e;
}

around-IsLive : IsLive stored plain_store plain settings network around
around-IsLive = record {
  before = λ i. refl;
  reading = λ i k. refl;
  sending = λ i k. refl;
  passing = λ i k. refl;
}

abbrev plan_1_10 : Result Error (List DownloadTask × TaskParam)
plan_1_10 =
    construct_task alone "i" no_scheduler lives small_header (pos 1) (pos 10) false small_param

abbrev tasks_of : Result Error (List DownloadTask × TaskParam) → List DownloadTask
tasks_of (ok (tasks, p)) = tasks
tasks_of (err e) = []
tasks_of panicked = []

planned-AllFetched :
    AllFetched stored plain_store plain settings network around small_header 0 (tasks_of plan_1_10)
unfolding construct_task analysis_file_position analysis_loop has_block test_index fetched
    get_file_range_from_remote retry_request read_reply take_chunk local_task ranges_from
    get_contiguous_ranges ranges_loop close_range range_step get_block_info create_cache_task
    create_remote_task split_remote_range split_loop
planned-AllFetched = (tt, (record { honest = middle_server-IsHonest; done = refl }, (tt, tt)))

few_values : length (out_tasks plain_store plain settings network around 0 (tasks_of plan_1_10)) ≡ 5
unfolding construct_task analysis_file_position analysis_loop has_block test_index local_task
    ranges_from get_contiguous_ranges ranges_loop close_range range_step get_block_info
    create_cache_task create_remote_task split_remote_range split_loop out_tasks out_result fetched
    get_file_range_from_remote retry_request read_reply take_chunk out_loop read_block
    read_from_file put_file read_into header_bytes u64_bytes pad_block chunk_bounds
few_values = refl

planned_tasks :
    (tasks : List DownloadTask) (p : TaskParam)
    → plan_1_10 ≡ ok (tasks, p)
    → tasks_of plan_1_10 ≡ tasks
planned_tasks tasks p e = ap tasks_of e

no_scheduler-NoShortfall :
    NoShortfall alone "i" no_scheduler lives small_header small_header-IsUsable
      (λ n k. refl)
      1
      10
      (omega arith)
      (omega arith)
no_scheduler-NoShortfall request response cur answered start = cc answered

small-IsServed :
    IsServed stored plain_store plain settings network around small_header later 4 30 alone "i"
      no_scheduler lives small_header-IsUsable
      (λ n k. refl)
      1
      10
      (omega arith)
      (omega arith)
      no_scheduler-NoShortfall
      around-IsLive
      small_param
      false
small-IsServed tasks p e =
    subst
      (λ l.
        AllFetched stored plain_store plain settings network around small_header 0 l
        × (length (out_tasks plain_store plain settings network around 0 l) ≤ 30))
      (planned_tasks tasks p e) (planned-AllFetched, omega (arith, few_values))

abbrev manager : DingCacheManager
manager = record {
  ding_cache_map = record { m = ("blob", full_world.cache) ∷ [] };
  ding_cache_ref = record { m = ("blob", 1) ∷ [] };
  disk = full_world.disk;
}

abbrev got : Result Error DingCache × DingCacheManager
got = get_ding_file 4 "blob" 10 manager

manager_gives : got ≡ (ok full_world.cache, got.1)
unfolding get_ding_file get_key find
manager_gives = refl

file_download-AnswersRange_example :
    AnswersRange stored plain_store plain settings network around small_header later 4 30 alone "i"
      no_scheduler lives small_header-IsUsable
      (λ n k. refl)
      1
      10
      (omega arith)
      (omega arith)
      no_scheduler-NoShortfall
      around-IsLive
      small_param
      false
      (outcome stored plain_store plain settings network around small_header later 4 30 alone "i"
        no_scheduler lives small_header-IsUsable
        (λ n k. refl)
        1
        10
        (omega arith)
        (omega arith)
        no_scheduler-NoShortfall
        around-IsLive
        small_param
        false
        manager)
unfolding analysis_file_position analysis_loop has_block test_index
file_download-AnswersRange_example =
    (file_download-AnswersRange stored plain_store plain settings network around small_header later
        4 30 alone "i" no_scheduler lives small_header-IsUsable (λ n k. refl) 1 10 (omega arith)
        (omega arith) no_scheduler-NoShortfall around-IsLive small_param false small-IsServed
        manager got.1 full_world.cache manager_gives refl).1
      refl

-- A channel of one place, with one value for it and with two.
abbrev one_value : List (List ℕ)
one_value = (7 ∷ []) ∷ []

abbrev two_values : List (List ℕ)
two_values = [] ∷ (7 ∷ []) ∷ []

abbrev all_turns : List Event
all_turns = send ∷ return_ ∷ read_error ∷ receive ∷ receive ∷ []

abbrev after_turns : Exchange
after_turns = record {
  unsent = [];
  failure = none;
  returned = true;
  buffer = [];
  phase = ended;
  status = some 200;
  written = one_value;
}

run-Answers_example : (5 ≤ 2 * 1 + 3) × (IsOver 1 after_turns → Answered none one_value after_turns)
unfolding run start
run-Answers_example =
    run-Answers 1 none one_value (inl refl) (omega arith) all_turns after_turns
      (tt, (tt, (tt, (tt, (tt, tt))))) refl

abbrev one_sent : Exchange
one_sent = record {
  unsent = (7 ∷ []) ∷ [];
  failure = none;
  returned = false;
  buffer = [] ∷ [];
  phase = awaiting;
  status = none;
  written = [];
}

run-Waits_example : (one_sent.phase ≡ awaiting) × (one_sent.status ≡ none) × (one_sent.written ≡ [])
unfolding run start
run-Waits_example =
    run-Waits 1 none two_values (inl refl) (omega arith) (send ∷ []) one_sent (tt, tt) refl
