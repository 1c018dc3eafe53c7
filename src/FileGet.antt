-- ===== src/FileGet.antt =====
-- FileGetGenerator of internal/dao/file_dao.go: what a request for a file of a commit is answered with.
-- The outcome of GetPathsInfo is an argument; a file that it has no entry for is an error there.
pub mod Laws
use Prim.Native.String.{◌++◌ as str_append}
use text.Mathlib.Text.{◌==◌ as str_eq}
use dingospeed.Base.{
  ℕ, ◌-◌, String, List, Bool, true, false, Result, ok, err, panicked, ltb, ◌==◌, if◌then◌else◌,
  none, print_ℕ,
}
use dingospeed.RangeHeader.{PathsInfo, requested_range, resp_headers}
use dingospeed.Access.{
  AccessError, with_status, other_error, slashed, Hub, Codec, MetaState, get_paths_info,
  get_file_commit_sha,
}
use dingospeed.Task.{TaskParam}
use dingospeed.Links.{FileSystem, Faults, construct_blobs_and_file_file}

-- An error's status, a panic, the headers alone, or a download with its range.
pub data Answer : Type 0 where
  failed : ℕ → Answer
  crashed : Answer
  headers_only : List (String × String) → Answer
  chunks : TaskParam → ℕ → ℕ → List (String × String) → Answer

-- What is asked for.
pub record FileRequest : Type 0 where
  pub repos : String
  pub repo_type : String
  pub org_repo : String
  pub commit : String
  pub file_name : String
  pub method : String
  pub range : String
  pub authorization : String

unfoldable pub hf_uri : FileRequest → String
hf_uri q =
    let resolved = slashed q.org_repo (slashed "resolve" (slashed q.commit q.file_name)) in
    if str_eq q.repo_type "models"
    then str_append "/" resolved
    else str_append "/" (slashed q.repo_type resolved)

unfoldable pub etag_of : PathsInfo → String
etag_of info = if str_eq info.lfs_oid "" then info.oid else info.lfs_oid

unfoldable pub blobs_path : FileRequest → PathsInfo → String
unfolding etag_of
blobs_path q info =
    slashed q.repos
      (slashed "files" (slashed q.repo_type (slashed q.org_repo (slashed "blobs" (etag_of info)))))

unfoldable pub commit_path : FileRequest → String
commit_path q = slashed q.repos (
    slashed "files"
      (slashed q.repo_type (slashed q.org_repo (slashed "resolve" (slashed q.commit q.file_name)))))

-- util.Itoa(endPos - startPos)
unfoldable pub length_text : ℕ → ℕ → String
length_text start_pos end_pos =
    if ltb end_pos start_pos
    then str_append "-" (print_ℕ (start_pos - end_pos))
    else print_ℕ (end_pos - start_pos)

unfoldable pub task_param : FileRequest → PathsInfo → TaskParam
unfolding hf_uri blobs_path etag_of
task_param q info = record {
  task_no = 0;
  task_size = 0;
  blobs_file = blobs_path q info;
  file_name = q.file_name;
  file_size = info.size;
  org_repo = q.org_repo;
  authorization = q.authorization;
  domain = "";
  uri = hf_uri q;
  data_type = q.repo_type;
  etag = etag_of info;
  process_id = none;
  master_instance_id = none;
}

-- Once the link is there.
unfoldable pub answer_method : FileRequest → PathsInfo → ℕ → ℕ → Answer
unfolding task_param length_text
answer_method q info start_pos end_pos =
    let headers = resp_headers (length_text start_pos end_pos) info q.commit in
    if str_eq q.method "head"
    then headers_only headers
    else if str_eq q.method "get"
    then chunks (task_param q info) start_pos end_pos headers
    else failed 500

unfoldable pub answer_linked :
    FileRequest → PathsInfo → ℕ → ℕ → Bool × FileSystem → Answer × FileSystem
unfolding answer_method
answer_linked q info start_pos end_pos (true, fs) = (answer_method q info start_pos end_pos, fs)
answer_linked q info start_pos end_pos (false, fs) = (failed 500, fs)

unfoldable pub answer_range :
    Faults → FileRequest → PathsInfo → FileSystem → Result (Unit {0}) (ℕ × ℕ) → Answer × FileSystem
unfolding answer_linked blobs_path commit_path
answer_range faults q info fs (ok (start_pos, end_pos)) =
    answer_linked q info start_pos end_pos
      (construct_blobs_and_file_file faults (blobs_path q info) (commit_path q) fs)
answer_range faults q info fs (err e) = (failed 500, fs)
answer_range faults q info fs panicked = (crashed, fs)

-- ErrorEntryUnknown has 500 for a status of 0, ErrorProxyError 500, ErrorEntryNotFound 404.
unfoldable pub file_get_generator :
    Faults → FileRequest → Result AccessError PathsInfo → FileSystem → Answer × FileSystem
unfolding answer_range
file_get_generator faults q (err (with_status code)) fs =
    (failed (if code == 0 then 500 else code), fs)
file_get_generator faults q (err other_error) fs = (failed 500, fs)
file_get_generator faults q panicked fs = (crashed, fs)
file_get_generator faults q (ok info) fs =
    if str_eq info.type "directory"
    then (failed 404, fs)
    else answer_range faults q info fs (requested_range q.range info.size)

-- The status of an error that is not nil.
unfoldable pub status_of : AccessError → ℕ
status_of (with_status code) = if code == 0 then 500 else code
status_of other_error = 500

-- FileHeadCommon and FileGetCommon of internal/service/file_service.go: the commit, the information on
-- the file, and the answer.
module _ (hub : Hub) (codec : Codec) (faults : Faults) (online : Bool) where
  unfoldable pub with_info :
      FileRequest
      → FileSystem
      → Result AccessError PathsInfo × MetaState
      → Answer × MetaState × FileSystem
  unfolding file_get_generator
  with_info q fs (info, s) =
      let (answer, fs') = file_get_generator faults q info fs in (answer, s, fs')

  unfoldable pub with_sha :
      FileRequest
      → FileSystem
      → Result AccessError String × MetaState
      → Answer × MetaState × FileSystem
  unfolding status_of with_info hf_uri
  with_sha q fs (err e, s) = (failed (status_of e), s, fs)
  with_sha q fs (panicked, s) = (crashed, s, fs)
  with_sha q fs (ok sha, s) =
      let q' = record q { commit = sha } in
      with_info q' fs (
        get_paths_info hub codec q.repos (hf_uri q') q.repo_type q.org_repo sha q.authorization
          q.file_name s)

  unfoldable pub file_common :
      FileRequest → MetaState → FileSystem → Answer × MetaState × FileSystem
  unfolding with_sha
  file_common q s fs = with_sha q fs (
      get_file_commit_sha hub codec q.repos online true q.repo_type q.org_repo q.commit
        q.authorization s)
