-- ===== src/Links/Laws.antt =====
-- The link of a file, and that its bytes are kept.
use mathlib.Core.Path.{subst}
use text.Mathlib.Text.{◌==◌ as str_eq}
use dingospeed.Base.{
  ℕ, ◌≡◌, ◌≢◌, refl, sym, ap, ◌⊎◌, inl, inr, String, List, [], Bool, true, false, Option, some,
  none, ◌||◌, arith, string_same_iff, Bool-cases,
}
use dingospeed.Links.{
  Node, regular, link, FileSystem, Faults, put_node, construct_links, construct_blobs_and_file_file,
}

module _ (faults : Faults) (blobs_file files_path : String) (apart : blobs_file ≢ files_path) where
  -- The bytes are at their path or nowhere.
  abbrev pub IsPlace : Option Node → Type 0
  IsPlace none = Unit {0}
  IsPlace (some (regular bytes)) = Unit {0}
  IsPlace (some (link target)) = ⊥

  -- The path of a commit is new, of an older version, or the link.
  abbrev pub IsEntry : Option Node → Type 0
  IsEntry none = Unit {0}
  IsEntry (some (regular bytes)) = Unit {0}
  IsEntry (some (link target)) = target ≡ blobs_file

  -- The bytes that are kept: those at their path, or else those of an older version.
  abbrev pub kept_bytes : Option Node → Option Node → List ℕ
  kept_bytes (some (regular bytes)) entry = bytes
  kept_bytes (some (link target)) entry = []
  kept_bytes none (some (regular bytes)) = bytes
  kept_bytes none (some (link target)) = []
  kept_bytes none none = []

  pub record IsLinked (bytes : List ℕ) (before fs : FileSystem) : Type 0 where
    pub entry : fs files_path ≡ some (link blobs_file)
    pub place : fs blobs_file ≡ some (regular bytes)
    pub others : (path : String) → path ≢ blobs_file → path ≢ files_path → fs path ≡ before path

  same_path : (path : String) → str_eq path path ≡ true
  same_path path = (string_same_iff path path).1 refl

  other_path : (a b : String) → a ≢ b → str_eq a b ≡ false
  other_path a b ne = elim (Bool-cases (str_eq a b)) [
    | inl same ↦ absurd (ne ((string_same_iff a b).0 same))
    | inr other ↦ other
  ]

  -- No call fails.
  pub record IsFaultless : Type 0 where
    pub stat_files : faults.stat_files ≡ false
    pub stat_blobs : faults.stat_blobs ≡ false
    pub lstat : faults.lstat ≡ false
    pub lstat_link : faults.lstat_link ≡ false
    pub remove : faults.remove ≡ false
    pub rename : faults.rename ≡ false
    pub create : faults.create ≡ false
    pub symlink : faults.symlink ≡ false
    pub make_blobs_dir : faults.make_blobs_dir ≡ false
    pub make_files_dir : faults.make_files_dir ≡ false

  abbrev pub Links : List ℕ → FileSystem → Bool × FileSystem → Type 0
  Links bytes before r = (r.0 ≡ true) × IsLinked bytes before r.1

  module _ (fine : IsFaultless) where
    -- The tests on the two paths.
    self : str_eq files_path files_path ≡ true
    self = same_path files_path

    place_self : str_eq blobs_file blobs_file ≡ true
    place_self = same_path blobs_file

    there : str_eq blobs_file files_path ≡ false
    there = other_path blobs_file files_path apart

    back : str_eq files_path blobs_file ≡ false
    back = other_path files_path blobs_file (λ e. apart (sym e))

    by_case :
        (fs : FileSystem) (place entry : Option Node)
        → fs blobs_file ≡ place
        → fs files_path ≡ entry
        → IsPlace place
        → IsEntry entry
        → Links (kept_bytes place entry) fs (construct_links faults blobs_file files_path fs)
    unfolding construct_links put_node
    by_case fs (some (regular bytes)) (some (regular old)) ep ee p q = (
      ground (arith, self, place_self, there, back),
      record {
        entry = ground (arith, self, place_self, there, back);
        place = ground (arith, self, place_self, there, back);
        others = λ path n₀ n₁. ground (
          arith,
          self,
          place_self,
          there,
          back,
          other_path files_path path (λ e. n₁ (sym e)),
          other_path blobs_file path (λ e. n₀ (sym e)),
        );
      },
    )
    by_case fs (some (regular bytes)) (some (link target)) ep ee p q = (
      ground (arith, self, place_self, there, back, ap fs q),
      record {
        entry = ground (arith, self, place_self, there, back, ap fs q);
        place = ground (arith, self, place_self, there, back, ap fs q);
        others = λ path n₀ n₁. ground (
          arith,
          self,
          place_self,
          there,
          back,
          ap fs q,
          other_path files_path path (λ e. n₁ (sym e)),
          other_path blobs_file path (λ e. n₀ (sym e)),
        );
      },
    )
    by_case fs (some (regular bytes)) none ep ee p q = (
      ground (arith, self, place_self, there, back),
      record {
        entry = ground (arith, self, place_self, there, back);
        place = ground (arith, self, place_self, there, back);
        others = λ path n₀ n₁. ground (
          arith,
          self,
          place_self,
          there,
          back,
          other_path files_path path (λ e. n₁ (sym e)),
          other_path blobs_file path (λ e. n₀ (sym e)),
        );
      },
    )
    by_case fs (some (link target)) entry ep ee p q = absurd p
    by_case fs none (some (regular old)) ep ee p q = (
      ground (arith, self, place_self, there, back),
      record {
        entry = ground (arith, self, place_self, there, back);
        place = ground (arith, self, place_self, there, back);
        others = λ path n₀ n₁. ground (
          arith,
          self,
          place_self,
          there,
          back,
          other_path files_path path (λ e. n₁ (sym e)),
          other_path blobs_file path (λ e. n₀ (sym e)),
        );
      },
    )
    by_case fs none (some (link target)) ep ee p q = (
      ground (arith, self, place_self, there, back, ap fs q),
      record {
        entry = ground (arith, self, place_self, there, back, ap fs q);
        place = ground (arith, self, place_self, there, back, ap fs q);
        others = λ path n₀ n₁. ground (
          arith,
          self,
          place_self,
          there,
          back,
          ap fs q,
          other_path files_path path (λ e. n₁ (sym e)),
          other_path blobs_file path (λ e. n₀ (sym e)),
        );
      },
    )
    by_case fs none none ep ee p q = (
      ground (arith, self, place_self, there, back),
      record {
        entry = ground (arith, self, place_self, there, back);
        place = ground (arith, self, place_self, there, back);
        others = λ path n₀ n₁. ground (
          arith,
          self,
          place_self,
          there,
          back,
          other_path files_path path (λ e. n₁ (sym e)),
          other_path blobs_file path (λ e. n₀ (sym e)),
        );
      },
    )

    -- When no call fails, the bytes are no link, and the path of the commit is new, of an older
    -- version or the link already: afterwards that path is a link to the bytes, which are the ones that
    -- were there, or else those of the older version, or else none, and every other path is as before.
    pub construct_blobs_and_file_file-Links :
        (fs : FileSystem)
        → IsPlace (fs blobs_file)
        → IsEntry (fs files_path)
        → Links
            (kept_bytes (fs blobs_file) (fs files_path))
            fs
            (construct_blobs_and_file_file faults blobs_file files_path fs)
    unfolding construct_blobs_and_file_file
    construct_blobs_and_file_file-Links fs p q =
        let same : construct_blobs_and_file_file faults blobs_file files_path fs
            ≡ construct_links faults blobs_file files_path fs =
          ground (arith, fine.make_blobs_dir, fine.make_files_dir) in
        subst (Links (kept_bytes (fs blobs_file) (fs files_path)) fs) (sym same)
          (by_case fs (fs blobs_file) (fs files_path) refl refl p q)

  -- Where bytes that were there are afterwards.
  abbrev pub AreKept : Option Node → Option Node → FileSystem → Type 0
  AreKept (some (regular bytes)) entry fs = fs blobs_file ≡ some (regular bytes)
  AreKept (some (link target)) entry fs = Unit {0}
  AreKept none (some (regular old)) fs =
      (fs files_path ≡ some (regular old)) ⊎ (fs blobs_file ≡ some (regular old))
  AreKept none (some (link target)) fs = Unit {0}
  AreKept none none fs = Unit {0}

  kept_case :
      faults.stat_blobs ≡ false
      → (fs : FileSystem) (place entry : Option Node) → fs blobs_file ≡ place
      → fs files_path ≡ entry
      → AreKept place entry (construct_blobs_and_file_file faults blobs_file files_path fs).1
  unfolding construct_blobs_and_file_file put_node
  kept_case seen fs (some (regular bytes)) entry ep ee = ground (
    arith,
    same_path files_path,
    same_path blobs_file,
    other_path blobs_file files_path apart,
    other_path files_path blobs_file (λ e. apart (sym e)),
  )
  kept_case seen fs (some (link target)) entry ep ee = tt
  kept_case seen fs none (some (regular old)) ep ee =
      elim (Bool-cases (
        faults.make_blobs_dir
        || (faults.make_files_dir || (faults.stat_files || (faults.lstat || faults.rename))))) [
          | inl stays ↦ inl (
              ground (
                arith,
                same_path files_path,
                same_path blobs_file,
                other_path blobs_file files_path apart,
                other_path files_path blobs_file (λ e. apart (sym e)),
              ))
          | inr moves ↦ inr (
              ground (
                arith,
                same_path files_path,
                same_path blobs_file,
                other_path blobs_file files_path apart,
                other_path files_path blobs_file (λ e. apart (sym e)),
              ))
        ]
  kept_case seen fs none (some (link target)) ep ee = tt
  kept_case seen fs none none ep ee = tt

  -- For two paths that differ, whatever calls fail, but for os.Stat of the path of the bytes: bytes that
  -- were at their path are there unchanged, and bytes that only an older version held are afterwards at
  -- their path or where they were.
  pub construct_blobs_and_file_file-AreKept :
      faults.stat_blobs ≡ false
      → (fs : FileSystem)
      → AreKept
          (fs blobs_file)
          (fs files_path)
          (construct_blobs_and_file_file faults blobs_file files_path fs).1
  construct_blobs_and_file_file-AreKept seen fs =
      kept_case seen fs (fs blobs_file) (fs files_path) refl refl
