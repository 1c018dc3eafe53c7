-- ===== src/Plan.antt =====
-- constructTask and getRequestDomainScheduler of internal/dao/downloader_dao.go.
-- The scheduler is a remote service behind generated code: it is the argument `schedule`, whose
-- answer `none` is a failed call. `ctx_err n k` says that the context is done when the `n`-th call of
-- getContiguousRanges reaches block `k`.
pub mod Laws
use Prim.Native.String.{◌++◌ as str_append}
use dingospeed.Base.{
  ℕ, String, List, [], ◌++◌, Bool, not, ◌&&◌, Option, some, none, Result, ok, err, leb, ◌==◌,
  if◌then◌else◌, ℤ, pos, ltb_ℤ, print_ℕ,
}
use dingospeed.Errors.{Error, model_file_not_exist}
use dingospeed.Header.{DingCacheHeader}
use dingospeed.Task.{Config, TaskParam, DownloadTask}
use dingospeed.Ranges.{analysis_file_position, get_contiguous_ranges}
use dingospeed.Repo.{split_org_repo}

pub record SchedulerFileRequest : Type 0 where
  pub data_type : String
  pub org : String
  pub repo : String
  pub name : String
  pub etag : String
  pub instance_id : String
  pub start_pos : ℤ
  pub end_pos : ℤ
  pub file_size : ℕ

pub record SchedulerFileResponse : Type 0 where
  pub scheduler_type : ℕ
  pub process_id : ℕ
  pub master_instance_id : String
  pub host : String
  pub port : ℕ
  pub max_offset : ℤ

-- consts.SchedulerYes
abbrev pub scheduler_yes : ℕ
scheduler_yes = 2

module _ (c : Config) (instance_id : String)
    (schedule : SchedulerFileRequest → Option SchedulerFileResponse) (ctx_err : ℕ → ℕ → Bool)
    (h : DingCacheHeader) where
  -- getContiguousRanges for one domain, and the parameters that it leaves.
  unfoldable pub ranges_from : ℕ → String → ℤ → ℤ → TaskParam → List DownloadTask × TaskParam
  ranges_from call domain start_pos end_pos p =
      let (tasks, task_no) =
        get_contiguous_ranges c (ctx_err call) h start_pos end_pos (record p { domain = domain }) in
      (tasks, record p { domain = domain; task_no = task_no })

  unfoldable pub get_request_domain_scheduler : TaskParam → ℤ → ℤ → Option SchedulerFileResponse
  get_request_domain_scheduler p start_pos end_pos =
      let (org, repo) = split_org_repo p.org_repo in
      schedule (record {
        data_type = p.data_type;
        org = org;
        repo = repo;
        name = p.file_name;
        etag = p.etag;
        instance_id = instance_id;
        start_pos = start_pos;
        end_pos = end_pos;
        file_size = p.file_size;
      })

  -- What is in the file already.
  unfoldable pub cached_tasks : ℤ → ℤ → TaskParam → List DownloadTask × TaskParam
  cached_tasks start_pos cur_pos p =
      if ltb_ℤ (pos 0) cur_pos && ltb_ℤ start_pos cur_pos
      then ranges_from 0 p.domain start_pos cur_pos p
      else ([], p)

  -- The branch of an answer that names a node: what is cached comes from the file, what that node
  -- has from the node, and the rest from the official site.
  unfoldable pub speed_tasks :
      SchedulerFileResponse → ℤ → ℤ → ℤ → TaskParam → List DownloadTask × TaskParam
  speed_tasks response start_pos cur_pos end_pos p =
      let speed_domain =
        str_append "http://" (str_append response.host (str_append ":" (print_ℕ response.port))) in
      let (tasks, p₁) = cached_tasks start_pos cur_pos p in
      let (before, p₂) =
        ranges_from 1 speed_domain cur_pos
          (if ltb_ℤ response.max_offset end_pos then response.max_offset else end_pos) p₁ in
      let (after, p₃) = ranges_from 2 c.hf_url_base response.max_offset end_pos p₂ in
      if ltb_ℤ response.max_offset end_pos
      then (tasks ++ (before ++ after), p₃)
      else (tasks ++ before, p₂)

  unfoldable pub local_task : ℤ → ℤ → TaskParam → List DownloadTask × TaskParam
  local_task start_pos end_pos p = ranges_from 0 c.hf_url_base start_pos end_pos p

  -- An answer of the scheduler goes into the context, whatever it says.
  unfoldable pub scheduled :
      SchedulerFileResponse → ℤ → ℤ → ℤ → TaskParam → List DownloadTask × TaskParam
  scheduled response start_pos cur_pos end_pos p =
      let p' = record p {
        process_id = some response.process_id;
        master_instance_id = some response.master_instance_id;
      } in
      if response.scheduler_type == scheduler_yes
      then speed_tasks response start_pos cur_pos end_pos p'
      else local_task start_pos end_pos p'

  unfoldable pub construct_task :
      ℤ → ℤ → Bool → TaskParam → Result Error (List DownloadTask × TaskParam)
  construct_task start_pos end_pos is_inner_request p =
      let (file_complete, cur_pos) = analysis_file_position h start_pos end_pos in
      if leb p.file_size c.minimum_file_size
      then ok (local_task start_pos end_pos p)
      else if not file_complete && not c.online
      then err model_file_not_exist
      else if not is_inner_request && c.is_cluster && not file_complete
      then (elim (get_request_domain_scheduler p cur_pos end_pos) [
        | none ↦ ok (local_task start_pos end_pos p)
        | some response ↦ ok (scheduled response start_pos cur_pos end_pos p)
      ])
      else ok (local_task start_pos end_pos p)
