-- ===== src/Access.antt =====
-- GetPathsInfo and GetFileCommitSha of internal/dao/file_dao.go: who may read what is kept here.
-- The hub's answers, after retries, and the JSON library are parameters. The cache forgets keys after a
-- time, which is a step of its own. Errors of the file system when it is written are not modelled.
pub mod Laws
use Prim.Native.String.{◌++◌ as str_append}
use text.Mathlib.Text.{◌==◌ as str_eq}
use dingospeed.Base.{
  ℕ, ◌*◌, String, List, [], ◌∷◌, Bool, true, false, not, ◌&&◌, ◌||◌, Option, some, none, Result, ok,
  err, panicked, ltb, leb, ◌==◌, if◌then◌else◌, string_keyed,
}
use dingospeed.SafeMap.{SafeMap, set_key, get_key, exist, delete_key, new_safe_map}
use dingospeed.RangeHeader.{PathsInfo}
use dingospeed.CacheContent.{
  CacheContent, Files, write_cache_request, read_cache_request, version_snapshot,
}

pub record Response : Type 0 where
  pub status_code : ℕ
  pub body : List ℕ
  pub headers : List (String × String)

-- The requests to the hub: the URI and the authorization, and the paths of a POST.
pub record Hub : Type 0 where
  pub post : String → String → List String → Option Response
  pub head : String → String → Option Response
  pub get : String → String → Option Response

-- sonic for the types of the answers.
pub record Codec : Type 0 where
  pub encode_paths : List PathsInfo → List ℕ
  pub decode_paths : List ℕ → Option (List PathsInfo)
  pub decode_sha : List ℕ → Option String

pub record MetaState : Type 0 where
  pub cache : SafeMap String String
  pub files : Files

-- An error with a status for the client, or another one.
pub data AccessError : Type 0 where
  with_status : ℕ → AccessError
  other_error : AccessError

abbrev pub slashed : String → String → String
slashed a b = str_append a (str_append "/" b)

unfoldable pub get_file_path_info_key : String → String → String → String
get_file_path_info_key repo_type org_repo authorization =
    slashed "filePathInfo" (slashed repo_type (slashed org_repo authorization))

unfoldable pub get_meta_sha_repo_key : String → String → String → String
get_meta_sha_repo_key repo commit authorization =
    slashed "meta" (slashed repo (slashed commit authorization))

-- Response.GetKey: the first value of a header.
unfoldable pub get_header : List (String × String) → String → String
get_header [] key = ""
get_header ((k, v) ∷ rest) key = if str_eq k key then v else get_header rest key

-- consts.MAX_HTTP_DOWNLOAD_SIZE
abbrev pub max_http_download_size : ℕ
max_http_download_size = 50000000000

abbrev pub or_failed :
    Option Response → (Response → Result AccessError Response) → Result AccessError Response
or_failed none next = err (with_status 500)
or_failed (some r) next = next r

unfoldable pub paths_info_uri : String → String → String → String
paths_info_uri repo_type org_repo commit =
    str_append "/api/" (slashed repo_type (slashed org_repo (slashed "paths-info" commit)))

unfoldable pub meta_uri : String → String → String → String
meta_uri repo_type org_repo revision =
    let base = str_append "/api/" (slashed repo_type org_repo) in
    if str_eq revision "" then base else slashed base (slashed "revision" revision)

abbrev pub is_found : ℕ → Bool
is_found code = code == 200 || code == 307

module _ (hub : Hub) (codec : Codec) (repos : String) where
  unfoldable pub request_file_path_info :
      String → String → List String → Result AccessError Response
  request_file_path_info uri authorization paths =
      or_failed (hub.post uri authorization paths)
        (λ r. if r.status_code == 200 then ok r else err (with_status r.status_code))

  unfoldable pub request_file_resolve : String → String → Result AccessError Response
  request_file_resolve uri authorization = or_failed (hub.head uri authorization) (λ r.
      if r.status_code == 200 || (leb 300 r.status_code && leb r.status_code 308)
      then ok r
      else err (with_status r.status_code))

  unfoldable pub paths_info_path : String → String → String → String → String
  paths_info_path repo_type org_repo commit file = slashed repos (
      slashed "api" (
        slashed repo_type (
          slashed org_repo
            (slashed "paths-info" (slashed commit (slashed file "paths-info_post.json"))))))

  -- The first entry of a list that was kept, unless the file is too large.
  abbrev pub small_first : List PathsInfo → Option PathsInfo
  small_first [] = none
  small_first (p ∷ ps) = if ltb max_http_download_size p.size then none else some p

  -- What is kept of an earlier answer and may be used.
  unfoldable pub kept_info : Files → String → Option PathsInfo
  kept_info files path = elim (read_cache_request files path) [
    | none ↦ none
    | some (c, origin_content) ↦
        if c.version == version_snapshot
        then elim (codec.decode_paths origin_content) [
          | none ↦ none
          | some infos ↦ small_first infos
        ]
        else none
  ]

  abbrev pub resolved : PathsInfo → Response → PathsInfo
  resolved p r = record p {
    x_xet_hash = get_header r.headers "x-xet-hash";
    location = get_header r.headers "location";
    link = get_header r.headers "link";
  }

  -- The entry of an answer, and for a large file where it is.
  unfoldable pub answered_info : String → String → Response → Result AccessError PathsInfo
  unfolding request_file_resolve
  answered_info hf_uri authorization r = elim (codec.decode_paths r.body) [
    | none ↦ err (with_status 500)
    | some [] ↦ err (with_status 404)
    | some (p ∷ ps) ↦
        if ltb max_http_download_size p.size
        then elim (request_file_resolve hf_uri authorization) [
          | ok found ↦ ok (resolved p found)
          | err e ↦ err e
          | panicked ↦ panicked
        ]
        else ok p
  ]

  -- The answer is kept as a list of the one entry.
  unfoldable pub keep_info :
      String
      → Response
      → Result AccessError PathsInfo
      → MetaState
      → Result AccessError PathsInfo × MetaState
  keep_info path r (ok p) s = (
    ok p,
    record s {
      files =
          write_cache_request s.files path r.status_code r.headers (codec.encode_paths (p ∷ []));
    },
  )
  keep_info path r (err e) s = (err e, s)
  keep_info path r panicked s = (panicked, s)

  -- requestRemoteFileInfo from the answer on.
  unfoldable pub remote_info :
      String → String → String → Response → MetaState → Result AccessError PathsInfo × MetaState
  unfolding answered_info keep_info
  remote_info hf_uri authorization path r s =
      keep_info path r (answered_info hf_uri authorization r) s

  -- What the answer to the request leads to; its success is a grant.
  unfoldable pub requested_info :
      String
      → String
      → String
      → String
      → Result AccessError Response
      → MetaState
      → Result AccessError PathsInfo × MetaState
  unfolding remote_info
  requested_info hf_uri authorization path key (ok r) s =
      remote_info hf_uri authorization path r
        (if exist s.cache key then s else record s { cache = set_key s.cache key "" })
  requested_info hf_uri authorization path key (err e) s = (err e, s)
  requested_info hf_uri authorization path key panicked s = (panicked, s)

  abbrev pub kept_or :
      Option PathsInfo
      → Result AccessError PathsInfo × MetaState
      → MetaState
      → Result AccessError PathsInfo × MetaState
  kept_or none requested s = requested
  kept_or (some p) requested s = (ok p, s)

  unfoldable pub get_paths_info :
      String
      → String
      → String
      → String
      → String
      → String
      → MetaState
      → Result AccessError PathsInfo × MetaState
  unfolding get_file_path_info_key kept_info request_file_path_info requested_info paths_info_uri
      paths_info_path
  get_paths_info hf_uri repo_type org_repo commit authorization file s =
      let key = get_file_path_info_key repo_type org_repo authorization in
      let path = paths_info_path repo_type org_repo commit file in
      let requested =
        requested_info hf_uri authorization path key
          (request_file_path_info (paths_info_uri repo_type org_repo commit) authorization
            (file ∷ []))
          s in
      if str_eq file ""
      then (err other_error, s)
      else kept_or (if exist s.cache key then kept_info s.files path else none) requested s

  -- CheckCommitHf: the status, and whether it is an error.
  unfoldable pub check_commit_hf : String → String → String → String → ℕ × Bool
  unfolding meta_uri
  check_commit_hf repo_type org_repo commit authorization =
      elim (hub.head (meta_uri repo_type org_repo commit) authorization) [
        | none ↦ (500, true)
        | some r ↦ (r.status_code, not (is_found r.status_code))
      ]

  -- getCommitHfRemote, and what GetFileCommitSha makes of its status.
  unfoldable pub get_commit_hf_remote :
      String → String → String → String → Result AccessError String
  unfolding meta_uri
  get_commit_hf_remote repo_type org_repo commit authorization =
      elim (hub.get (meta_uri repo_type org_repo commit) authorization) [
        | none ↦ err (with_status 500)
        | some r ↦
            if is_found r.status_code
            then elim (codec.decode_sha r.body) [ none ↦ err (with_status 500) | some sha ↦ ok sha ]
            else err (with_status r.status_code)
      ]

  unfoldable pub get_commit_hf_offline : String → String → String → Files → Option String
  get_commit_hf_offline repo_type org_repo commit files =
      let path = slashed repos (
        slashed "api" (
          slashed repo_type
            (slashed org_repo (slashed "revision" (slashed commit "meta_get.json"))))) in
      elim (read_cache_request files path) [
        | none ↦ none
        | some (c, origin_content) ↦ codec.decode_sha origin_content
      ]

  -- The sha is kept under the commit that was asked for, and under itself.
  abbrev pub keep_sha : String → String → String → String → MetaState → MetaState
  keep_sha org_repo commit authorization sha s = record s {
    cache =
        set_key (set_key s.cache (get_meta_sha_repo_key org_repo commit authorization) sha)
          (get_meta_sha_repo_key org_repo sha authorization) sha;
  }

  abbrev pub kept_sha :
      String
      → String
      → String
      → MetaState
      → Result AccessError String
      → Result AccessError String × MetaState
  kept_sha org_repo commit authorization s (ok sha) =
      (ok sha, keep_sha org_repo commit authorization sha s)
  kept_sha org_repo commit authorization s (err e) = (err e, s)
  kept_sha org_repo commit authorization s panicked = (panicked, s)

  abbrev pub known_sha :
      Option String
      → Result AccessError String × MetaState
      → MetaState
      → Result AccessError String × MetaState
  known_sha none asked s = asked
  known_sha (some sha) asked s = (ok sha, s)

  -- `online` is the setting, and `for_file` says that the source is "file".
  unfoldable pub get_file_commit_sha :
      Bool
      → Bool
      → String
      → String
      → String
      → String
      → MetaState
      → Result AccessError String × MetaState
  unfolding get_commit_hf_remote get_commit_hf_offline get_meta_sha_repo_key
  get_file_commit_sha online for_file repo_type org_repo commit authorization s =
      let remote = get_commit_hf_remote repo_type org_repo commit authorization in
      let found : Result AccessError String =
        (if online then remote else elim (get_commit_hf_offline repo_type org_repo commit s.files) [
          | some sha ↦ ok sha
          | none ↦ if for_file then remote else err (with_status 404)
        ]) in
      known_sha (get_key s.cache (get_meta_sha_repo_key org_repo commit authorization))
        (kept_sha org_repo commit authorization s found) s
