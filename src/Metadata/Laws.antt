-- ===== src/Metadata/Laws.antt =====
-- What online mode kept, offline mode serves, and nothing else is touched.
use dingospeed.Base.{
  ◌≡◌, refl, ◌∙◌, String, Bool, Option, some, none, Result, ok, err, panicked, arith, string_keyed,
  string_same_iff,
}
use dingospeed.SafeMap.{get_key, set_key}
use dingospeed.SafeMap.Laws.{get_key-set_key}
use dingospeed.CacheContent.{CacheContent, read_cache_request}
use dingospeed.CacheContent.RoundTrip.{IsBytes}
use dingospeed.Access.{
  Response, Hub, Codec, MetaState, AccessError, other_error, get_file_commit_sha, kept_sha,
  known_sha, keep_sha, get_meta_sha_repo_key,
}
use dingospeed.Metadata.{Answer, or_status}

-- The same status, headers and bytes.
abbrev pub IsSame : Result AccessError Answer → Answer → Type 0
IsSame (ok (c, bytes)) (d, bytes') =
    (c.status_code ≡ d.status_code) × (c.headers ≡ d.headers) × (bytes ≡ bytes')
IsSame (err e) a = ⊥
IsSame panicked a = ⊥

abbrev pub HasBytes : Option Response → Type 0
HasBytes none = Unit
HasBytes (some r) = IsBytes r.body

abbrev answer_or : Answer → Option Answer → Answer
answer_or a none = a
answer_or a (some b) = b

abbrev answered : Answer → Result AccessError Answer
answered a = ok a

abbrev result_or : Answer → Result AccessError Answer → Answer
result_or a (ok b) = b
result_or a (err e) = a
result_or a panicked = a

module _ (hub : Hub) (codec : Codec) (repos : String) where
  -- A sha that was returned is known from then on, and no file is written for it.
  abbrev Knows :
      String → String → String → MetaState → Result AccessError String × MetaState → Type 0
  Knows o c a s (found, s') =
      (s'.files ≡ s.files)
      × ((sha : String)
          → found ≡ ok sha
          → get_key s'.cache (get_meta_sha_repo_key o c a) ≡ some sha)

  keep_sha_known :
      (o c a sha : String) (s : MetaState)
      → get_key (keep_sha hub codec repos o c a sha s).cache (get_meta_sha_repo_key o c a)
        ≡ some sha
  keep_sha_known o c a sha s =
      let k = get_meta_sha_repo_key o c a in
      let l = get_meta_sha_repo_key o sha a in
      ground (
        arith,
        get_key-set_key (set_key s.cache k sha) l sha k,
        get_key-set_key s.cache k sha k,
        string_same_iff k k,
      )

  kept_sha-Knows :
      (o c a : String) (s : MetaState) (found : Result AccessError String)
      → Knows o c a s (kept_sha hub codec repos o c a s found)
  kept_sha-Knows o c a s (ok sha) = (refl, λ sha' e. keep_sha_known o c a sha s ∙ ground (arith, e))
  kept_sha-Knows o c a s (err x) = (refl, λ sha' e. absurd (ground (arith, e)))
  kept_sha-Knows o c a s panicked = (refl, λ sha' e. absurd (ground (arith, e)))

  known_sha-Knows :
      (o c a : String) (s : MetaState) (known : Option String)
      (asked : Result AccessError String × MetaState)
      → get_key s.cache (get_meta_sha_repo_key o c a) ≡ known
      → Knows o c a s asked
      → Knows o c a s (known_sha hub codec repos known asked s)
  known_sha-Knows o c a s none asked e after = after
  known_sha-Knows o c a s (some sha) asked e after = (refl, λ sha' h. e ∙ ground (arith, h))

  get_file_commit_sha-Knows :
      (online for_file : Bool) (t o c a : String) (s : MetaState)
      → Knows o c a s (get_file_commit_sha hub codec repos online for_file t o c a s)
  unfolding get_file_commit_sha
  get_file_commit_sha-Knows online for_file t o c a s =
      known_sha-Knows o c a s _ _ refl (kept_sha-Knows o c a s _)

  pub get_file_commit_sha_files :
      (online for_file : Bool) (t o c a : String) (s : MetaState)
      → (get_file_commit_sha hub codec repos online for_file t o c a s).1.files ≡ s.files
  get_file_commit_sha_files online for_file t o c a s =
      (get_file_commit_sha-Knows online for_file t o c a s).0

  -- An answer a, after which it is in the file.
  abbrev Keeps : String → MetaState → Result AccessError Answer × MetaState → Type 0
  Keeps path s (r, s') =
      (s'.cache ≡ s.cache)
      × ((a : Answer)
          → r ≡ ok a
          → IsSame (or_status other_error (read_cache_request s'.files path)) a)
