-- ===== src/Access/Laws.antt =====
-- Nobody reads what is kept of a repository without the hub's consent.
use Prim.Native.String.{◌++◌ as str_append}
use Prim.Native.Char.{code}
use text.Mathlib.Text.{◌==◌ as str_eq}
use text.Mathlib.TextLemmas.{cons-append}
use mathlib.Core.Path.{subst}
use dingospeed.Base.{
  ℕ, ◌≡◌, ◌≢◌, refl, sym, ap, ◌∙◌, inl, inr, String, List, [], ◌∷◌, Bool, true, false, Option, some,
  none, Result, ok, err, panicked, ◌==◌, if◌then◌else◌, either_way, Bool-cases, arith, string_keyed,
  string_same_iff, same_key,
}
use dingospeed.SafeMap.{SafeMap, set_key, get_key, exist, delete_key, new_safe_map, find}
use dingospeed.SafeMap.Laws.{exist-set_key, exist-delete_key}
use dingospeed.RangeHeader.{PathsInfo}
use dingospeed.CacheContent.{Files}
use dingospeed.Metadata.{get_metadata}
use dingospeed.Metadata.Cache.{sha_metadata_cache}
use dingospeed.Access.{
  Response, Hub, Codec, MetaState, AccessError, with_status, slashed, get_file_path_info_key,
  get_meta_sha_repo_key, request_file_path_info, or_failed, keep_info, paths_info_uri,
  paths_info_path, kept_info, remote_info, requested_info, kept_or, answered_info, get_paths_info,
  get_file_commit_sha, kept_sha, known_sha, keep_sha,
}

first_code : String → ℕ
first_code String.[] = 0
first_code (String.◌∷◌ c s) = code c

meta_key_first : (o c a : String) → first_code (get_meta_sha_repo_key o c a) ≡ b'm'
unfolding get_meta_sha_repo_key first_code
meta_key_first o c a =
    ap first_code (cons-append "m" "eta" (str_append "/" (slashed o (slashed c a))))

info_key_first : (t o a : String) → first_code (get_file_path_info_key t o a) ≡ b'f'
unfolding get_file_path_info_key first_code
info_key_first t o a =
    ap first_code (cons-append "f" "ilePathInfo" (str_append "/" (slashed t (slashed o a))))

keys_differ :
    (t o a o' c' a' : String) → get_meta_sha_repo_key o' c' a' ≢ get_file_path_info_key t o a
keys_differ t o a o' c' a' e =
    absurd (ground (arith, meta_key_first o' c' a', info_key_first t o a, ap first_code e))

module _ (Allowed : String → String → String → Type 0) where
  -- A hub that answers a request for the paths of a repository with success only to who is allowed.
  abbrev pub IsGuarding : Hub → Type 0
  IsGuarding hub =
      (repo_type org_repo commit authorization : String) (paths : List String) (r : Response)
      → hub.post (paths_info_uri repo_type org_repo commit) authorization paths ≡ some r
      → r.status_code ≡ 200
      → Allowed repo_type org_repo authorization

  -- The key of a repository and a user belongs to one who is allowed.
  pub record IsConsented (repo_type org_repo authorization : String) : Type 0 where
    pub for_type : String
    pub for_repo : String
    pub for_user : String
    pub allowed : Allowed for_type for_repo for_user
    pub same :
        get_file_path_info_key for_type for_repo for_user
        ≡ get_file_path_info_key repo_type org_repo authorization

  -- Each grant in the cache is one of the hub.
  abbrev pub IsBacked : SafeMap String String → Type 0
  IsBacked cache =
      (repo_type org_repo authorization : String)
      → exist cache (get_file_path_info_key repo_type org_repo authorization) ≡ true
      → IsConsented repo_type org_repo authorization

  -- A key that is set does no harm when it is no grant, or one to a user who is allowed.
  set_key-IsBacked :
      (cache : SafeMap String String) (key v : String)
      → IsBacked cache
      → ((repo_type org_repo authorization : String)
          → key ≡ get_file_path_info_key repo_type org_repo authorization
          → IsConsented repo_type org_repo authorization)
      → IsBacked (set_key cache key v)
  set_key-IsBacked cache key v backed fine t r a h =
      let goal_key = get_file_path_info_key t r a in
      let found = sym (exist-set_key cache key v goal_key) ∙ h in
      elim (Bool-cases (same_key key goal_key)) [
        | inl same ↦ fine t r a ((string_same_iff key goal_key).0 same)
        | inr other ↦ backed t r a (ground (arith, other, found))
      ]

  delete_key-IsBacked :
      (cache : SafeMap String String) (key : String)
      → IsBacked cache
      → IsBacked (delete_key cache key)
  delete_key-IsBacked cache key backed t r a h =
      let goal_key = get_file_path_info_key t r a in
      let found = sym (exist-delete_key cache key goal_key) ∙ h in
      backed t r a (ground (arith, found))

  module _ (hub : Hub) (codec : Codec) (repos : String) where
    answered_ok :
        (o : Option Response) (r : Response)
        → or_failed o (λ x. if x.status_code == 200 then ok x else err (with_status x.status_code))
          ≡ ok r
        → (o ≡ some r) × (r.status_code ≡ 200)
    answered_ok none r h = absurd (ground (arith, h))
    answered_ok (some x) r h = ground (arith, h)

    keep_info_cache :
        (path : String) (r : Response) (found : Result AccessError PathsInfo) (s : MetaState)
        → (keep_info hub codec repos path r found s).1.cache ≡ s.cache
    unfolding keep_info
    keep_info_cache path r (ok p) s = refl
    keep_info_cache path r (err e) s = refl
    keep_info_cache path r panicked s = refl

    -- What a call may do: keep the grants backed, and return what only those who are allowed get.
    abbrev Fair : String → String → String → Result AccessError PathsInfo × MetaState → Type 0
    Fair repo_type org_repo authorization (r, s) =
        IsBacked s.cache
        × ((p : PathsInfo) → r ≡ ok p → IsConsented repo_type org_repo authorization)

    requested_info-Fair :
        (hf_uri t o a path : String) (x : Result AccessError Response) (s : MetaState)
        → IsBacked s.cache
        → ((r : Response) → x ≡ ok r → Allowed t o a)
        → Fair t o a
            (requested_info hub codec repos hf_uri a path (get_file_path_info_key t o a) x s)
    unfolding requested_info remote_info
    requested_info-Fair hf_uri t o a path (err e) s backed allows =
        (backed, λ p h. absurd (ground (arith, h)))
    requested_info-Fair hf_uri t o a path panicked s backed allows =
        (backed, λ p h. absurd (ground (arith, h)))
    requested_info-Fair hf_uri t o a path (ok r) s backed allows =
        let key = get_file_path_info_key t o a in
        let consent : IsConsented t o a = record {
          for_type = t;
          for_repo = o;
          for_user = a;
          allowed = allows r refl;
          same = refl;
        } in
        let granting : MetaState =
          (if exist s.cache key then s else record s { cache = set_key s.cache key "" }) in
        let backed' : IsBacked granting.cache =
          either_way (λ (u : MetaState). IsBacked u.cache) (exist s.cache key) (λ _. backed)
            (λ _. set_key-IsBacked s.cache key "" backed (λ t' o' a' e. record {
              for_type = t;
              for_repo = o;
              for_user = a;
              allowed = allows r refl;
              same = e;
            })) in
        (
          subst IsBacked
              (sym (keep_info_cache path r (answered_info hub codec repos hf_uri a r) granting))
              backed',
          λ p h. consent,
        )

    kept_or-Fair :
        (t o a : String) (kept : Option PathsInfo)
        (requested : Result AccessError PathsInfo × MetaState) (s : MetaState)
        → IsBacked s.cache
        → ((p : PathsInfo) → kept ≡ some p → IsConsented t o a)
        → Fair t o a requested
        → Fair t o a (kept_or hub codec repos kept requested s)
    kept_or-Fair t o a none requested s backed consent fair = fair
    kept_or-Fair t o a (some p) requested s backed consent fair = (backed, λ q h. consent p refl)

    get_paths_info-Fair :
        (hf_uri t o commit a file : String) (s : MetaState)
        → IsGuarding hub
        → IsBacked s.cache
        → Fair t o a (get_paths_info hub codec repos hf_uri t o commit a file s)
    unfolding get_paths_info request_file_path_info
    get_paths_info-Fair hf_uri t o commit a file s guarding backed =
        let key = get_file_path_info_key t o a in
        let path = paths_info_path hub codec repos t o commit file in
        let kept = kept_info hub codec repos s.files path in
        let answer =
          request_file_path_info hub codec repos (paths_info_uri t o commit) a (file ∷ []) in
        either_way (Fair t o a) (str_eq file "") (λ _. (backed, λ p h. absurd (ground (arith, h))))
          (λ _.
            kept_or-Fair t o a (if exist s.cache key then kept else none) _ s backed
              (λ p.
                either_way (λ k. k ≡ some p → IsConsented t o a) (exist s.cache key)
                  (λ granted e. backed t o a granted) (λ _ e. absurd (ground (arith, e))))
              (requested_info-Fair hf_uri t o a path answer s backed (λ r e.
                let (came, success) =
                  answered_ok (hub.post (paths_info_uri t o commit) a (file ∷ [])) r e in
                guarding t o commit a (file ∷ []) r came success)))

    keep_sha-IsBacked :
        (o c a sha : String) (s : MetaState)
        → IsBacked s.cache
        → IsBacked (keep_sha hub codec repos o c a sha s).cache
    keep_sha-IsBacked o c a sha s backed =
        set_key-IsBacked _ (get_meta_sha_repo_key o sha a) sha
          (set_key-IsBacked s.cache (get_meta_sha_repo_key o c a) sha backed
            (λ t' o' a' e. absurd (keys_differ t' o' a' o c a e)))
          (λ t' o' a' e. absurd (keys_differ t' o' a' o sha a e))

    kept_sha-IsBacked :
        (o c a : String) (s : MetaState) (found : Result AccessError String)
        → IsBacked s.cache
        → IsBacked (kept_sha hub codec repos o c a s found).1.cache
    kept_sha-IsBacked o c a s (ok sha) backed = keep_sha-IsBacked o c a sha s backed
    kept_sha-IsBacked o c a s (err e) backed = backed
    kept_sha-IsBacked o c a s panicked backed = backed

    known_sha-IsBacked :
        (known : Option String) (asked : Result AccessError String × MetaState) (s : MetaState)
        → IsBacked s.cache
        → IsBacked asked.1.cache
        → IsBacked (known_sha hub codec repos known asked s).1.cache
    known_sha-IsBacked none asked s backed after = after
    known_sha-IsBacked (some sha) asked s backed after = backed

    get_file_commit_sha-IsBacked :
        (online for_file : Bool) (t o c a : String) (s : MetaState)
        → IsBacked s.cache
        → IsBacked (get_file_commit_sha hub codec repos online for_file t o c a s).1.cache
    unfolding get_file_commit_sha
    get_file_commit_sha-IsBacked online for_file t o c a s backed =
        known_sha-IsBacked _ _ s backed (kept_sha-IsBacked o c a s _ backed)

    get_metadata-IsBacked :
        (online : Bool) (t o revision method a : String) (s : MetaState)
        → IsBacked s.cache
        → IsBacked (get_metadata hub codec repos online t o revision method a s).1.cache
    unfolding get_metadata
    get_metadata-IsBacked online t o revision method a s backed =
        let found = get_file_commit_sha hub codec repos online false t o revision a s in
        subst IsBacked
          (sym (sha_metadata_cache hub codec repos online t o revision method a found.0 found.1))
          (get_file_commit_sha-IsBacked online false t o revision a s backed)

  -- The calls that use the cache, to hubs that guard, and the cache forgetting a key.
  pub data Step : MetaState → MetaState → Type 0 where
    asks_info :
        (hub : Hub) (codec : Codec) (repos hf_uri t o commit a file : String) (s : MetaState)
        → IsGuarding hub
        → Step s (get_paths_info hub codec repos hf_uri t o commit a file s).1
    asks_sha :
        (hub : Hub) (codec : Codec) (repos : String) (online for_file : Bool) (t o c a : String)
        (s : MetaState)
        → Step s (get_file_commit_sha hub codec repos online for_file t o c a s).1
    asks_metadata :
        (hub : Hub) (codec : Codec) (repos : String) (online : Bool)
        (t o revision method a : String) (s : MetaState)
        → Step s (get_metadata hub codec repos online t o revision method a s).1
    forgets : (key : String) (s : MetaState) → Step s (record s { cache = delete_key s.cache key })

  pub data Reach : MetaState → Type 0 where
    at_start : (files : Files) → Reach (record { cache = new_safe_map; files = files })
    then_step : {s t : MetaState} → Reach s → Step s t → Reach t

  Step-IsBacked : {s t : MetaState} → Step s t → IsBacked s.cache → IsBacked t.cache
  Step-IsBacked (asks_info hub codec repos hf_uri t o commit a file s guarding) backed =
      (get_paths_info-Fair hub codec repos hf_uri t o commit a file s guarding backed).0
  Step-IsBacked (asks_sha hub codec repos online for_file t o c a s) backed =
      get_file_commit_sha-IsBacked hub codec repos online for_file t o c a s backed
  Step-IsBacked (asks_metadata hub codec repos online t o revision method a s) backed =
      get_metadata-IsBacked hub codec repos online t o revision method a s backed
  Step-IsBacked (forgets key s) backed = delete_key-IsBacked s.cache key backed

  Reach-IsBacked : {s : MetaState} → Reach s → IsBacked s.cache
  unfolding new_safe_map exist get_key find
  Reach-IsBacked (at_start files) = λ t o a h. absurd (ground (arith, h))
  Reach-IsBacked (then_step r st) = Step-IsBacked st (Reach-IsBacked r)

  -- After any calls to hubs that answer the request for a repository's paths with 200 only to users who
  -- are allowed, and after the cache forgot any keys: a call that returns the information on a file,
  -- also one that was kept, is made for a repository and a user whose key is one of a user who is
  -- allowed.
  pub get_paths_info-IsConsented :
      (hub : Hub) (codec : Codec)
      (repos hf_uri repo_type org_repo commit authorization file : String) (s : MetaState)
      (p : PathsInfo)
      → IsGuarding hub
      → Reach s
      → (get_paths_info hub codec repos hf_uri repo_type org_repo commit authorization file s).0
        ≡ ok p
      → IsConsented repo_type org_repo authorization
  get_paths_info-IsConsented hub codec repos hf_uri t o commit a file s p guarding reach h =
      (get_paths_info-Fair hub codec repos hf_uri t o commit a file s guarding
          (Reach-IsBacked reach)).1
        p h
