-- ===== src/FileGet/Laws.antt =====
-- Who is served a file, and what the answer is about.
use dingospeed.Base.{◌≡◌, refl, String, Bool, true, Result, ok, err, panicked}
use dingospeed.RangeHeader.{PathsInfo}
use dingospeed.Access.{
  AccessError, with_status, other_error, Hub, Codec, MetaState, get_paths_info, get_file_commit_sha,
}
use dingospeed.Access.Laws.{
  IsGuarding, IsConsented, Reach, then_step, asks_sha, get_paths_info-IsConsented,
}
use dingospeed.Links.{FileSystem, Faults}
use dingospeed.FileGet.{
  Answer, failed, crashed, headers_only, chunks, FileRequest, hf_uri, file_get_generator, with_info,
  with_sha, file_common,
}

-- Something of the file is told.
abbrev pub IsServed : Answer → Type 0
IsServed (failed code) = ⊥
IsServed crashed = ⊥
IsServed (headers_only headers) = Unit {0}
IsServed (chunks p start_pos end_pos headers) = Unit {0}

-- Only for information that came.
file_get_generator-IsServed :
    (faults : Faults) (q : FileRequest) (info : Result AccessError PathsInfo) (fs : FileSystem)
    → IsServed (file_get_generator faults q info fs).0
    → (p : PathsInfo) × (info ≡ ok p)
unfolding file_get_generator
file_get_generator-IsServed faults q (ok p) fs served = (p, refl)
file_get_generator-IsServed faults q (err (with_status code)) fs served = absurd served
file_get_generator-IsServed faults q (err other_error) fs served = absurd served
file_get_generator-IsServed faults q panicked fs served = absurd served

module _ (Allowed : String → String → String → Type 0) (hub : Hub) (codec : Codec)
    (guarding : IsGuarding Allowed hub) (faults : Faults) (online : Bool) where
  with_sha-IsConsented :
      (q : FileRequest) (fs : FileSystem) (sha : Result AccessError String) (s : MetaState)
      → Reach Allowed s
      → IsServed (with_sha hub codec faults online q fs (sha, s)).0
      → IsConsented Allowed q.repo_type q.org_repo q.authorization
  unfolding with_sha with_info
  with_sha-IsConsented q fs (err e) s reach served = absurd served
  with_sha-IsConsented q fs panicked s reach served = absurd served
  with_sha-IsConsented q fs (ok sha) s reach served =
      let q' = record q { commit = sha } in
      let got =
        get_paths_info hub codec q.repos (hf_uri q') q.repo_type q.org_repo sha q.authorization
          q.file_name s in
      let (p, e) = file_get_generator-IsServed faults q' got.0 fs served in
      get_paths_info-IsConsented Allowed hub codec q.repos (hf_uri q') q.repo_type q.org_repo sha
        q.authorization q.file_name s p guarding reach e

  -- After any calls to hubs that answer the request for a repository's paths with 200 only to users who
  -- are allowed, and after the cache forgot any keys: a request for a file, HEAD or GET, that is
  -- answered with headers or with content is made for a repository and a user whose key is one of a
  -- user who is allowed.
  pub file_common-IsConsented :
      (q : FileRequest) (s : MetaState) (fs : FileSystem)
      → Reach Allowed s
      → IsServed (file_common hub codec faults online q s fs).0
      → IsConsented Allowed q.repo_type q.org_repo q.authorization
  unfolding file_common
  file_common-IsConsented q s fs reach served =
      let asked =
        get_file_commit_sha hub codec q.repos online true q.repo_type q.org_repo q.commit
          q.authorization s in
      with_sha-IsConsented q fs asked.0 asked.1
        (then_step reach (
          asks_sha hub codec q.repos online true q.repo_type q.org_repo q.commit q.authorization s))
        served
