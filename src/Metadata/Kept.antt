-- ===== src/Metadata/Kept.antt =====
-- Which files a request for metadata writes.
use text.Mathlib.Text.{◌==◌ as str_eq}
use mathlib.Core.Path.{subst}
use dingospeed.Base.{
  ℕ, ◌≡◌, refl, sym, ap, ◌∙◌, inl, inr, ◌⊎◌, String, List, Bool, true, false, Option, some, none,
  Result, ok, err, panicked, if◌then◌else◌, either_way, Bool-cases, Option-cases, arith,
  string_keyed, string_same_iff, same_key,
}
use dingospeed.CacheContent.{Files, read_cache_request, write_cache_request}
use dingospeed.CacheContent.RoundTrip.{write_elsewhere}
use dingospeed.Access.{Response, Hub, Codec, MetaState, AccessError, get_file_commit_sha, is_found}
use dingospeed.Metadata.Laws.{get_file_commit_sha_files}
use dingospeed.Metadata.{
  Answer, has_file, kept_meta, main_due, remote_request_meta, api_meta_path, write_api_meta_file,
  save_meta, received_meta, request_and_save_meta, sha_metadata, get_metadata,
}

-- The file at p is the one of the commit, or the one of `main` that was asked for or did not exist.
pub data Writes (commit_path main_path revision : String) (files : Files) (p : String)
    : Type 0 where
  of_commit : p ≡ commit_path → Writes commit_path main_path revision files p
  of_main_asked : p ≡ main_path → revision ≡ "main" → Writes commit_path main_path revision files p
  of_main_new : p ≡ main_path → files p ≡ none → Writes commit_path main_path revision files p

write_at :
    (files : Files) (path : String) (status : ℕ) (headers : List (String × String))
    (content : List ℕ) (p : String)
    → (write_cache_request files path status headers content p ≡ files p) ⊎ (p ≡ path)
write_at files path status headers content p = elim (Bool-cases (same_key path p)) [
  | inl same ↦ inr (sym ((string_same_iff path p).0 same))
  | inr other ↦ inl (
      write_elsewhere status headers content files path p
        (λ e. absurd (ground (arith, other, (string_same_iff path p).1 e))))
]

has_no_file : (files : Files) (p : String) → has_file files p ≡ false → files p ≡ none
unfolding has_file
has_no_file files p h = elim (Option-cases (files p)) [
  | inl e ↦ e
  | inr (c, e) ↦ absurd (ground (arith, h, e))
]

-- A write for `main` that is due, at the file of `main`.
due_at :
    (commit_path main revision : String) (files : Files) (p : String)
    → main_due (str_eq revision "main") (has_file files main) ≡ true
    → p ≡ main
    → Writes commit_path main revision files p
unfolding main_due
due_at commit_path main revision files p due here = elim (Bool-cases (str_eq revision "main")) [
  | inl asked ↦ of_main_asked here ((string_same_iff revision "main").0 asked)
  | inr other ↦
      of_main_new here (ap files here ∙ has_no_file files main (ground (arith, due, other)))
]

main_at :
    (commit_path main revision : String) (files : Files) (r : Response) (p : String)
    → let for_main = write_cache_request files main r.status_code r.headers r.body in
      ((if main_due (str_eq revision "main") (has_file files main) then for_main else files) p
        ≡ files p)
      ⊎ Writes commit_path main revision files p
main_at commit_path main revision files r p =
    either_way (λ (g : Files). (g p ≡ files p) ⊎ Writes commit_path main revision files p)
      (main_due (str_eq revision "main") (has_file files main))
      (λ due. elim (write_at files main r.status_code r.headers r.body p) [
        | inl e ↦ inl e
        | inr here ↦ inr (due_at commit_path main revision files p due here)
      ])
      (λ _. inl refl)

module _ (hub : Hub) (codec : Codec) (repos : String) where
  -- After a request with the state s, a file is as it was, or one that it may write for the commit.
  abbrev Stays : String → String → String → String → String → String → Files → Files → Type 0
  Stays t o revision sha method p files files' =
      (files' p ≡ files p)
      ⊎ Writes (api_meta_path hub codec repos t o sha method)
          (api_meta_path hub codec repos t o "main" method) revision files p

  save_meta-Stays :
      (t o revision sha method : String) (r : Response) (files : Files) (p : String)
      → Stays t o revision sha method p files
          (save_meta hub codec repos t o revision sha method r files)
  unfolding save_meta write_api_meta_file
  save_meta-Stays t o revision sha method r files p =
      let main = api_meta_path hub codec repos t o "main" method in
      let commit = api_meta_path hub codec repos t o sha method in
      elim (write_at _ commit r.status_code r.headers r.body p) [
        | inr here ↦ inr (of_commit here)
        | inl e ↦ elim (main_at commit main revision files r p) [
          | inl e' ↦ inl (e ∙ e')
          | inr writes ↦ inr writes
        ]
      ]

  received_meta-Stays :
      (t o revision sha method p : String) (x : Option Response) (s : MetaState)
      → Stays t o revision sha method p s.files
          (received_meta hub codec repos t o revision sha method x s).1.files
  unfolding received_meta
  received_meta-Stays t o revision sha method p none s = inl refl
  received_meta-Stays t o revision sha method p (some r) s =
      either_way
        (λ (x : Result AccessError Answer × MetaState).
          Stays t o revision sha method p s.files x.1.files)
        (is_found r.status_code) (λ _. save_meta-Stays t o revision sha method r s.files p)
        (λ _. inl refl)

  kept_meta-Stays :
      (t o revision sha method p : String) (kept : Option Answer)
      (requested : Result AccessError Answer × MetaState) (s : MetaState)
      → Stays t o revision sha method p s.files requested.1.files
      → Stays t o revision sha method p s.files (kept_meta hub codec repos kept requested s).1.files
  unfolding kept_meta
  kept_meta-Stays t o revision sha method p none requested s after = after
  kept_meta-Stays t o revision sha method p (some a) requested s after = inl refl

  -- What a call in a mode may do to files, when the sha is the one found.
  abbrev pub IsLeft :
      Bool → String → String → String → String → Result AccessError String → Files → Files → Type 0
  IsLeft online t o revision method found files files' =
      (p : String)
      → (files' p ≡ files p)
        ⊎ ((online ≡ true)
            × (sha : String) × (found ≡ ok sha)
            × Writes (api_meta_path hub codec repos t o sha method)
                (api_meta_path hub codec repos t o "main" method) revision files p)

  sha_metadata-IsLeft :
      (online : Bool) (t o revision method a : String) (found : Result AccessError String)
      (s : MetaState)
      → IsLeft online t o revision method found s.files
          (sha_metadata hub codec repos online t o revision method a found s).1.files
  unfolding sha_metadata request_and_save_meta
  sha_metadata-IsLeft true t o revision method a (ok sha) s p =
      let x = remote_request_meta hub codec repos method t o revision a in
      let path = api_meta_path hub codec repos t o sha method in
      let asked = received_meta-Stays t o revision sha method p x s in
      let left =
        either_way
          (λ (y : Result AccessError Answer × MetaState).
            Stays t o revision sha method p s.files y.1.files)
          (has_file s.files path)
          (λ _.
            kept_meta-Stays t o revision sha method p (read_cache_request s.files path)
              (request_and_save_meta hub codec repos t o revision sha method a s) s asked)
          (λ _. asked) in
      elim left [ inl e ↦ inl e | inr writes ↦ inr (refl, sha, refl, writes) ]
  sha_metadata-IsLeft false t o revision method a (ok sha) s p = inl refl
  sha_metadata-IsLeft online t o revision method a (err e) s p = inl refl
  sha_metadata-IsLeft online t o revision method a panicked s p = inl refl

  -- A request for metadata, in either mode: each file is as it was, or the mode is online, the sha of
  -- the commit was found, and the file is the one of that sha, or the one of `main` where `main` was
  -- asked for or had no file.
  pub get_metadata-IsLeft :
      (online : Bool) (t o revision method a : String) (s : MetaState)
      → IsLeft online t o revision method
          (get_file_commit_sha hub codec repos online false t o revision a s).0
          s.files
          (get_metadata hub codec repos online t o revision method a s).1.files
  unfolding get_metadata
  get_metadata-IsLeft online t o revision method a s =
      let found = get_file_commit_sha hub codec repos online false t o revision a s in
      subst
        (λ files.
          IsLeft online t o revision method found.0 files
            (get_metadata hub codec repos online t o revision method a s).1.files)
        (get_file_commit_sha_files hub codec repos online false t o revision a s)
        (sha_metadata-IsLeft online t o revision method a found.0 found.1)
