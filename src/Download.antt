-- ===== src/Download.antt =====
-- FileDownload and doTask of internal/dao/downloader_dao.go, and RemoteFileTask.OutResult of
-- internal/downloader/remote_task.go: what a download puts into the response channel.
-- The tasks run beside one another. What each finds, the cache file, the store of blocks, the servers
-- and the moments at which the context is done, is a parameter, by the task's place in the plan.
pub mod Content
pub mod Planned
use dingospeed.Base.{
  ℕ, zero, suc, ◌+◌, String, List, [], ◌∷◌, ◌++◌, map, Bool, Option, some, none, Result, ok, err,
  panicked, ltb, leb, ◌==◌, if◌then◌else◌, length, ℤ,
}
use dingospeed.Errors.{Error}
use dingospeed.Header.{DingCacheHeader}
use dingospeed.Task.{
  Config, TaskParam, DownloadTask, RemoteFields, Kind, cached, remote, set_task_size,
}
use dingospeed.Plan.{SchedulerFileRequest, SchedulerFileResponse, construct_task}
use dingospeed.Http.{Connection}
use dingospeed.Fetch.{Server, FetchError, get_file_range_from_remote}
use dingospeed.Cache.{World, DingCache}
use dingospeed.Reader.{BlockCache, ReadSettings}
use dingospeed.CacheRead.{out_result}
use dingospeed.Manager.{DingCacheManager, get_ding_file, released_ding_file}

-- What the tasks find when they run.
pub record Surroundings (M : Type 0) : Type 0 where
  pub worlds : ℕ → World
  pub memories : ℕ → M
  pub servers : ℕ → Server
  -- the context, before a task is reached
  pub ctx_err : ℕ → Bool
  -- the context, as a cache task reads a block and as it sends it
  pub read_err : ℕ → ℕ → Bool
  pub send_err : ℕ → ℕ → Bool
  -- the context, as a chunk of a remote task is passed on
  pub pass_err : ℕ → ℕ → Bool

-- How this node reaches the servers, and DecompressData.
pub record Network : Type 0 where
  pub connection : Connection
  pub is_cluster : Bool
  pub official_domain : String
  -- config.SysConfig.Retry.Attempts
  pub attempts : ℕ
  pub decompress : List ℕ → Result FetchError (List ℕ)

-- RemoteFileTask.OutResult: the chunks of the queue, until it is closed or the context is done.
unfoldable pub out_queue : (ℕ → Bool) → ℕ → List (List ℕ) → List (List ℕ)
out_queue ctx_err k [] = []
out_queue ctx_err k (chunk ∷ chunks) =
    let rest = out_queue ctx_err (k + 1) chunks in if ctx_err k then [] else chunk ∷ rest

module _ {M : Type 0} (cache : BlockCache M) (md5 : String → String) (settings : ReadSettings)
    (net : Network) (around : Surroundings M) where
  -- DoTask puts into the queue what the fetch sends; each request is tried as often as the settings say.
  unfoldable pub fetched :
      ℕ → DownloadTask → RemoteFields → Result FetchError (Unit {0}) × List (List ℕ)
  fetched i t r =
      get_file_range_from_remote t.range_start_pos t.range_end_pos (around.servers i) net.connection
        net.is_cluster net.official_domain net.attempts net.decompress r.domain

  -- OutResult of the `i`-th task, of either kind.
  unfoldable pub out_kind : ℕ → DownloadTask → Kind → List (List ℕ)
  unfolding fetched out_queue
  out_kind i t cached =
      (out_result cache md5 settings (around.read_err i) (around.send_err i) (around.worlds i) t
        (around.memories i)).chunks
  out_kind i t (remote r) = out_queue (around.pass_err i) 0 (fetched i t r).1

  -- The goroutine that sends: an empty chunk first, then each task's output in turn.
  unfoldable pub out_tasks : ℕ → List DownloadTask → List (List ℕ)
  unfolding out_kind
  out_tasks i [] = []
  out_tasks i (t ∷ tasks) =
      let rest = out_tasks (i + 1) tasks in
      let first : List (List ℕ) = if i == 0 then [] ∷ [] else [] in
      if around.ctx_err i then [] else first ++ (out_kind i t t.kind ++ rest)

-- The number of workers for a download, and the tasks as they are submitted.
unfoldable pub pool_size : ℕ → ℕ → ℕ
pool_size goroutine_max_num_per_file task_len =
    if leb goroutine_max_num_per_file task_len then goroutine_max_num_per_file else task_len

unfoldable pub submitted : List DownloadTask → List DownloadTask
submitted tasks = map (λ t. set_task_size t (length tasks)) tasks

-- What comes of a download: a status in the error channel, or values in the response channel.
pub data Outcome : Type 0 where
  failed : ℕ → Outcome
  crashed : Outcome
  sends : List (List ℕ) → Outcome

module _ (block_size : ℕ) (c : Config) (instance_id : String)
    (schedule : SchedulerFileRequest → Option SchedulerFileResponse) (plan_err : ℕ → ℕ → Bool)
    {M : Type 0} (cache : BlockCache M) (md5 : String → String) (settings : ReadSettings)
    (net : Network) (around : Surroundings M) where
  -- With the tasks that constructTask gives; its error has the status 404.
  unfoldable pub run_plan : Result Error (List DownloadTask × TaskParam) → Outcome
  run_plan (ok (tasks, p)) = sends (out_tasks cache md5 settings net around 0 tasks)
  run_plan (err e) = failed 404
  run_plan panicked = crashed

  unfoldable pub plan_with :
      ℤ
      → ℤ
      → Bool
      → TaskParam
      → Option DingCacheHeader
      → Result Error (List DownloadTask × TaskParam)
  plan_with start_pos end_pos inner p none = panicked
  plan_with start_pos end_pos inner p (some h) =
      construct_task c instance_id schedule plan_err h start_pos end_pos inner p

  -- With the cache file that GetDingFile gives, which is released at the end.
  unfoldable pub with_file :
      ℤ
      → ℤ
      → Bool
      → TaskParam
      → Result Error DingCache × DingCacheManager
      → Outcome × DingCacheManager
  unfolding run_plan plan_with
  with_file start_pos end_pos inner p (err e, f) = (failed 500, f)
  with_file start_pos end_pos inner p (panicked, f) = (crashed, f)
  with_file start_pos end_pos inner p (ok ding_file, f) = (
    run_plan (plan_with start_pos end_pos inner p ding_file.header),
    released_ding_file p.blobs_file f,
  )

  unfoldable pub file_download :
      ℤ → ℤ → Bool → TaskParam → DingCacheManager → Outcome × DingCacheManager
  unfolding with_file
  file_download start_pos end_pos inner p f =
      with_file start_pos end_pos inner p (get_ding_file block_size p.blobs_file p.file_size f)
