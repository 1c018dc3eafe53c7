-- ===== src/Metadata.antt =====
-- GetMetadata and what it calls of internal/dao/meta_dao.go, RemoteRequestMeta of
-- internal/dao/file_dao.go, and RepoRefs of internal/service/meta_service.go. A Response has its headers as
-- ExtractHeaders gives them. Errors of the file system when it is written are not modelled.
pub mod Cache
pub mod Kept
pub mod Laws
use Prim.Native.String.{◌++◌ as str_append}
use text.Mathlib.Text.{◌==◌ as str_eq}
use dingospeed.Base.{
  ℕ, String, List, [], ◌∷◌, Bool, true, false, not, ◌&&◌, Option, some, none, Result, ok, err,
  panicked, if◌then◌else◌,
}
use dingospeed.Repo.{get_org_repo}
use dingospeed.CacheContent.{CacheContent, Files, write_cache_request, read_cache_request}
use dingospeed.Access.{
  Response, Hub, Codec, MetaState, AccessError, with_status, other_error, slashed, meta_uri,
  is_found, get_file_commit_sha,
}

-- What a caller is given: the kept record, and OriginContent.
abbrev pub Answer : Type 0
Answer = CacheContent × List ℕ

unfoldable pub has_file : Files → String → Bool
has_file files path = elim (files path) [ none ↦ false | some c ↦ true ]

-- An answer that was not read from a file.
unfoldable pub fresh : Response → Answer
fresh r =
    (record { version = 0; status_code = r.status_code; headers = r.headers; content = [] }, r.body)

-- What is made of what is in a file.
unfoldable pub or_status : AccessError → Option Answer → Result AccessError Answer
or_status e none = err e
or_status e (some a) = ok a

-- With `main`, the revision that was asked for.
unfoldable pub main_due : Bool → Bool → Bool
main_due is_main known = if is_main then true else not known

module _ (hub : Hub) (codec : Codec) (repos : String) where
  unfoldable pub remote_request_meta : String → String → String → String → String → Option Response
  unfolding meta_uri
  remote_request_meta method repo_type org_repo revision authorization =
      let uri = meta_uri repo_type org_repo revision in
      if str_eq method "head"
      then hub.head uri authorization
      else if str_eq method "get"
      then hub.get uri authorization
      else none

  unfoldable pub api_meta_path : String → String → String → String → String
  api_meta_path repo_type org_repo commit method = slashed repos (
      slashed "api" (
        slashed repo_type (
          slashed org_repo (
            slashed "revision" (slashed commit (str_append "meta_" (str_append method ".json")))))))

  unfoldable pub write_api_meta_file : String → String → String → String → Response → Files → Files
  unfolding api_meta_path
  write_api_meta_file repo_type org_repo commit method r files =
      write_cache_request files (api_meta_path repo_type org_repo commit method) r.status_code
        r.headers r.body

  -- The answer is kept for `main` too, when it is what was asked for or nothing is kept for it yet.
  unfoldable pub save_meta : String → String → String → String → String → Response → Files → Files
  unfolding api_meta_path write_api_meta_file main_due
  save_meta repo_type org_repo revision commit_sha method r files =
      let known = has_file files (api_meta_path repo_type org_repo "main" method) in
      let for_main = write_api_meta_file repo_type org_repo "main" method r files in
      write_api_meta_file repo_type org_repo commit_sha method r
        (if main_due (str_eq revision "main") known then for_main else files)

  -- What the answer leads to.
  unfoldable pub received_meta :
      String
      → String
      → String
      → String
      → String
      → Option Response
      → MetaState
      → Result AccessError Answer × MetaState
  unfolding save_meta
  received_meta repo_type org_repo revision commit_sha method none s = (err other_error, s)
  received_meta repo_type org_repo revision commit_sha method (some r) s =
      if is_found r.status_code
      then (
        ok (fresh r),
        record s { files = save_meta repo_type org_repo revision commit_sha method r s.files },
      )
      else (err (with_status r.status_code), s)

  unfoldable pub request_and_save_meta :
      String
      → String
      → String
      → String
      → String
      → String
      → MetaState
      → Result AccessError Answer × MetaState
  unfolding remote_request_meta received_meta
  request_and_save_meta repo_type org_repo revision commit_sha method authorization s =
      received_meta repo_type org_repo revision commit_sha method
        (remote_request_meta method repo_type org_repo revision authorization) s

  -- The answer in the file, or else what a request gives.
  unfoldable pub kept_meta :
      Option Answer
      → Result AccessError Answer × MetaState
      → MetaState
      → Result AccessError Answer × MetaState
  kept_meta none requested s = requested
  kept_meta (some a) requested s = (ok a, s)

  -- GetMetadata from the sha of the commit on.
  unfoldable pub sha_metadata :
      Bool
      → String
      → String
      → String
      → String
      → String
      → Result AccessError String
      → MetaState
      → Result AccessError Answer × MetaState
  unfolding request_and_save_meta api_meta_path kept_meta or_status has_file
  sha_metadata online repo_type org_repo revision method authorization (ok sha) s =
      let path = api_meta_path repo_type org_repo sha method in
      let requested =
        request_and_save_meta repo_type org_repo revision sha method authorization s in
      let kept = read_cache_request s.files path in
      if online
      then (if has_file s.files path then kept_meta kept requested s else requested)
      else (or_status other_error kept, s)
  sha_metadata online repo_type org_repo revision method authorization (err e) s = (err e, s)
  sha_metadata online repo_type org_repo revision method authorization panicked s = (panicked, s)

  unfoldable pub get_metadata :
      Bool
      → String
      → String
      → String
      → String
      → String
      → MetaState
      → Result AccessError Answer × MetaState
  unfolding sha_metadata
  get_metadata online repo_type org_repo revision method authorization s =
      let found =
        get_file_commit_sha hub codec repos online false repo_type org_repo revision authorization
          s in
      sha_metadata online repo_type org_repo revision method authorization found.0 found.1

  unfoldable pub refs_path : String → String → String
  refs_path repo_type org_repo =
      slashed repos (slashed "api" (slashed repo_type (slashed org_repo "refs/refs_get.json")))

  unfoldable pub refs_uri : String → String → String
  refs_uri repo_type org_repo = str_append "/api/" (slashed repo_type (slashed org_repo "refs"))

  -- RepoRefs from the request to the hub on; its answer is kept whatever its status is.
  unfoldable pub received_refs :
      String → Option Response → Files → Result AccessError (List ℕ) × Files
  received_refs path none files = (err (with_status 500), files)
  received_refs path (some r) files =
      (ok r.body, write_cache_request files path r.status_code r.headers r.body)

  -- `known_type` is whether the type of the repository is in RepoTypesMapping.
  unfoldable pub repo_refs :
      Bool → Bool → String → String → String → String → Files → Result AccessError (List ℕ) × Files
  unfolding refs_path refs_uri received_refs has_file
  repo_refs online known_type repo_type org repo authorization files =
      let org_repo = get_org_repo org repo in
      let path = refs_path repo_type org_repo in
      let asked = received_refs path (hub.get (refs_uri repo_type org_repo) authorization) files in
      if not known_type
      then (err (with_status 404), files)
      else if str_eq org "" && str_eq repo ""
      then (err (with_status 404), files)
      else if not online && has_file files path
      then elim (read_cache_request files path) [
        | none ↦ (err (with_status 500), files)
        | some (c, origin_content) ↦ (ok origin_content, files)
      ]
      else asked
