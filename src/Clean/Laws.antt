-- ===== src/Clean/Laws.antt =====
-- The clean-up removes what it has to, in the order that it is given.
use dingospeed.Base.{
  ◌≡◌, refl, sym, ◌∙◌, ◌⊎◌, inl, inr, ℤ, ltb_ℤ, sub_ℕ, String, List, [], ◌∷◌, ◌++◌, append-nil,
  append_assoc, true, false, arith, either_way, Bool-cases, Option-cases,
}
use mathlib.Core.Path.{subst}
use dingospeed.Clean.{
  FileWithPath, CleanState, CleanWorld, clean_file, clean_loop, delete_record_by_file_path,
}

-- Some of the files, in their order.
pub data IsPick : List FileWithPath → List FileWithPath → Type 0 where
  nothing : (fs : List FileWithPath) → IsPick [] fs
  taken : (f : FileWithPath) {fs gs : List FileWithPath} → IsPick fs gs → IsPick (f ∷ fs) (f ∷ gs)
  passed : (f : FileWithPath) {fs gs : List FileWithPath} → IsPick fs gs → IsPick fs (f ∷ gs)

-- The size when the files are gone.
abbrev pub without_files : ℤ → List FileWithPath → ℤ
without_files size [] = size
without_files size (f ∷ fs) = without_files (sub_ℕ size f.size) fs

-- The limit was still reached before each of them went.
abbrev pub Needed : ℤ → ℤ → List FileWithPath → Type 0
Needed limit size [] = Unit {0}
Needed limit size (f ∷ fs) = (ltb_ℤ size limit ≡ false) × Needed limit (sub_ℕ size f.size) fs

module _ (w : CleanWorld) (instance_id : String) where
  -- A run of the loop on `files`, which removed `gone`.
  pub record Cleans (limit : ℤ) (files : List FileWithPath) (s t : CleanState)
      (gone : List FileWithPath) : Type 0 where
    pub all_removed : t.removed ≡ s.removed ++ gone
    pub size_left : t.current_size ≡ without_files s.current_size gone
    pub needed : Needed limit s.current_size gone
    pub picked : IsPick gone files
    pub enough :
        ((f : FileWithPath) → w.removes f.path ≡ true)
        → (ltb_ℤ t.current_size limit ≡ true) ⊎ (gone ≡ files)

  pub clean_file_removes :
      (f : FileWithPath) (s : CleanState)
      → w.removes f.path ≡ true
      → let t = clean_file w instance_id f s in
        (t.removed ≡ s.removed ++ (f ∷ [])) × (t.current_size ≡ sub_ℕ s.current_size f.size)
  unfolding clean_file
  clean_file_removes f s can =
      ground (arith, can, Option-cases (delete_record_by_file_path instance_id (w.rel_path f.path)))

  pub clean_file_fails :
      (f : FileWithPath) (s : CleanState)
      → w.removes f.path ≡ false
      → let t = clean_file w instance_id f s in
        (t.removed ≡ s.removed) × (t.current_size ≡ s.current_size)
  unfolding clean_file
  clean_file_fails f s cannot = ground (arith, cannot)

  step_removed :
      (limit : ℤ) (f : FileWithPath) (fs : List FileWithPath) (s t : CleanState)
      (gone : List FileWithPath)
      → ltb_ℤ s.current_size limit ≡ false
      → w.removes f.path ≡ true
      → Cleans limit fs (clean_file w instance_id f s) t gone
      → Cleans limit (f ∷ fs) s t (f ∷ gone)
  step_removed limit f fs s t gone reached can c =
      let (removed, size) = clean_file_removes f s can in
      record {
        all_removed = c.all_removed ∙ rw removed (append_assoc s.removed (f ∷ []) gone);
        size_left = c.size_left ∙ rw size refl;
        needed = (reached, subst (λ z. Needed limit z gone) size c.needed);
        picked = taken f c.picked;
        enough =
            λ every. elim (c.enough every) [ inl below ↦ inl below | inr all ↦ inr (rw all refl) ];
      }

  step_failed :
      (limit : ℤ) (f : FileWithPath) (fs : List FileWithPath) (s t : CleanState)
      (gone : List FileWithPath)
      → w.removes f.path ≡ false
      → Cleans limit fs (clean_file w instance_id f s) t gone
      → Cleans limit (f ∷ fs) s t gone
  step_failed limit f fs s t gone cannot c =
      let (removed, size) = clean_file_fails f s cannot in
      record {
        all_removed = c.all_removed ∙ rw removed refl;
        size_left = c.size_left ∙ rw size refl;
        needed = subst (λ z. Needed limit z gone) size c.needed;
        picked = passed f c.picked;
        enough = λ every. absurd (ground (arith, every f, cannot));
      }

  -- A run of the clean-up removes some of the files in the order that it is given, each of them while
  -- the size that it counts on was not yet below the limit; that size is the one at the start less the
  -- sizes of the files removed; and when every file can be removed, it ends below the limit or with
  -- all files removed.
  pub clean_loop-Cleans :
      (limit : ℤ) (files : List FileWithPath) (s : CleanState)
      → (gone : List FileWithPath) × Cleans limit files s
          (clean_loop w instance_id limit files s)
          gone
  unfolding clean_loop
  clean_loop-Cleans limit [] s = (
    [],
    record {
      all_removed = sym (append-nil s.removed);
      size_left = refl;
      needed = tt;
      picked = nothing [];
      enough = λ every. inr refl;
    },
  )
  clean_loop-Cleans limit (f ∷ fs) s =
      let Run : CleanState → Type 0 =
        λ t. (gone : List FileWithPath) × Cleans limit (f ∷ fs) s t gone in
      let (gone, rest) = clean_loop-Cleans limit fs (clean_file w instance_id f s) in
      let t = clean_loop w instance_id limit fs (clean_file w instance_id f s) in
      either_way Run (ltb_ℤ s.current_size limit)
        (λ below. (
          [],
          record {
            all_removed = sym (append-nil s.removed);
            size_left = refl;
            needed = tt;
            picked = nothing (f ∷ fs);
            enough = λ every. inl below;
          },
        ))
        (λ reached. elim (Bool-cases (w.removes f.path)) [
          | inl can ↦ (f ∷ gone, step_removed limit f fs s t gone reached can rest)
          | inr cannot ↦ (gone, step_failed limit f fs s t gone cannot rest)
        ])
