-- ===== src/Metadata/Cache.antt =====
-- Once the sha of a commit was found, a request for metadata leaves the cache as it is.
use dingospeed.Base.{
  ◌≡◌, refl, String, Bool, true, false, Option, some, none, Result, ok, err, panicked, either_way,
}
use dingospeed.CacheContent.{read_cache_request}
use dingospeed.Access.{Response, Hub, Codec, MetaState, AccessError, is_found}
use dingospeed.Metadata.{
  Answer, has_file, kept_meta, remote_request_meta, api_meta_path, received_meta,
  request_and_save_meta, sha_metadata,
}

module _ (hub : Hub) (codec : Codec) (repos : String) where
  received_meta_cache :
      (t o revision sha method : String) (x : Option Response) (s : MetaState)
      → (received_meta hub codec repos t o revision sha method x s).1.cache ≡ s.cache
  unfolding received_meta
  received_meta_cache t o revision sha method none s = refl
  received_meta_cache t o revision sha method (some r) s =
      either_way (λ (y : Result AccessError Answer × MetaState). y.1.cache ≡ s.cache)
        (is_found r.status_code) (λ _. refl) (λ _. refl)

  kept_meta_cache :
      (kept : Option Answer) (requested : Result AccessError Answer × MetaState) (s : MetaState)
      → requested.1.cache ≡ s.cache
      → (kept_meta hub codec repos kept requested s).1.cache ≡ s.cache
  unfolding kept_meta
  kept_meta_cache none requested s same = same
  kept_meta_cache (some a) requested s same = refl

  pub sha_metadata_cache :
      (online : Bool) (t o revision method a : String) (found : Result AccessError String)
      (s : MetaState)
      → (sha_metadata hub codec repos online t o revision method a found s).1.cache ≡ s.cache
  unfolding sha_metadata request_and_save_meta
  sha_metadata_cache true t o revision method a (ok sha) s =
      let x = remote_request_meta hub codec repos method t o revision a in
      let path = api_meta_path hub codec repos t o sha method in
      let asked = received_meta_cache t o revision sha method x s in
      either_way (λ (y : Result AccessError Answer × MetaState). y.1.cache ≡ s.cache)
        (has_file s.files path)
        (λ _.
          kept_meta_cache (read_cache_request s.files path)
            (request_and_save_meta hub codec repos t o revision sha method a s) s asked)
        (λ _. asked)
  sha_metadata_cache false t o revision method a (ok sha) s = refl
  sha_metadata_cache online t o revision method a (err e) s = refl
  sha_metadata_cache online t o revision method a panicked s = refl
