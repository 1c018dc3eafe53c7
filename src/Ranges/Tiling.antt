-- ===== src/Ranges/Tiling.antt =====
-- What a list of tasks has to be: it covers a range from start to end with no gap and no overlap,
-- is numbered without a gap, and each task has a property.
use dingospeed.Base.{
  ℕ, ◌+◌, ◌*◌, ◌≤◌, ◌<◌, ◌≡◌, ◌≢◌, List, [], ◌∷◌, ◌++◌, true, not, ok, arith, length,
}
use dingospeed.Header.{DingCacheHeader}
use dingospeed.Task.{Config, DownloadTask, is_remote}
use dingospeed.Ranges.{has_block}

abbrev pub Tiles : ℕ → ℕ → List DownloadTask → Type 0
Tiles s e [] = s ≡ e
Tiles s e (t ∷ ts) = (t.range_start_pos ≡ s) × (s < t.range_end_pos) × Tiles t.range_end_pos e ts

abbrev pub Numbered : ℕ → List DownloadTask → Type 0
Numbered n [] = Unit {0}
Numbered n (t ∷ ts) = (t.task_no ≡ n) × Numbered (n + 1) ts

abbrev pub All {ℓ} : (DownloadTask → Type ℓ) → List DownloadTask → Type ℓ
All P [] = Unit {ℓ}
All P (t ∷ ts) = P t × All P ts

-- All of these at once, with `n'` the number after the last.
abbrev pub Plan : (DownloadTask → Type 0) → ℕ → ℕ → ℕ → ℕ → List DownloadTask → Type 0
Plan P s e n n' [] = (s ≡ e) × (n ≡ n')
Plan P s e n n' (t ∷ ts) =
    (t.range_start_pos ≡ s)
    × (s < t.range_end_pos)
    × (t.task_no ≡ n)
    × P t
    × Plan P t.range_end_pos e (n + 1) n' ts

-- The blocks that a cache task touches are in the file, those of a remote task are not.
abbrev pub IsRight : DingCacheHeader → DownloadTask → Type 0
IsRight h t =
    (i : ℕ)
    → i * h.block_size < t.range_end_pos
    → t.range_start_pos < (i + 1) * h.block_size
    → has_block h i ≡ ok (not (is_remote t))

-- A remote task is no longer than the configured size, unless that is 0.
abbrev pub IsShort : Config → DownloadTask → Type 0
IsShort c t =
    is_remote t ≡ true
    → c.remote_file_range_size ≢ 0
    → t.range_end_pos ≤ t.range_start_pos + c.remote_file_range_size

module _ (P : DownloadTask → Type 0) where
  pub Plan-append :
      (xs ys : List DownloadTask) (s m e a b d : ℕ)
      → Plan P s m a b xs
      → Plan P m e b d ys
      → Plan P s e a d (xs ++ ys)
  Plan-append [] ys s m e a b d (es, en) q = rw (es, en) q
  Plan-append (x ∷ xs) ys s m e a b d (h₀, h₁, h₂, h₃, rest) q =
      (h₀, h₁, h₂, h₃, Plan-append xs ys x.range_end_pos m e (a + 1) b d rest q)

  pub Plan-Tiles : (ts : List DownloadTask) (s e a b : ℕ) → Plan P s e a b ts → Tiles s e ts
  Plan-Tiles [] s e a b h = h.0
  Plan-Tiles (t ∷ ts) s e a b (h₀, h₁, h₂, h₃, rest) =
      (h₀, h₁, Plan-Tiles ts t.range_end_pos e (a + 1) b rest)

  pub Plan-Numbered :
      (ts : List DownloadTask) (s e a b : ℕ)
      → Plan P s e a b ts
      → Numbered a ts × (b ≡ a + length ts)
  Plan-Numbered [] s e a b h = (tt, omega arith)
  Plan-Numbered (t ∷ ts) s e a b (h₀, h₁, h₂, h₃, rest) =
      let (ns, eq) = Plan-Numbered ts t.range_end_pos e (a + 1) b rest in ((h₂, ns), omega arith)

  pub Plan-All : (ts : List DownloadTask) (s e a b : ℕ) → Plan P s e a b ts → All P ts
  Plan-All [] s e a b h = tt
  Plan-All (t ∷ ts) s e a b (h₀, h₁, h₂, h₃, rest) =
      (h₃, Plan-All ts t.range_end_pos e (a + 1) b rest)

pub Tiles-append :
    (xs ys : List DownloadTask) (s m e : ℕ) → Tiles s m xs → Tiles m e ys → Tiles s e (xs ++ ys)
Tiles-append [] ys s m e h q = rw h q
Tiles-append (x ∷ xs) ys s m e (h₀, h₁, rest) q =
    (h₀, h₁, Tiles-append xs ys x.range_end_pos m e rest q)

pub All-append {ℓ} :
    (P : DownloadTask → Type ℓ) (xs ys : List DownloadTask) → All P xs → All P ys → All P (xs ++ ys)
All-append P [] ys h q = q
All-append P (x ∷ xs) ys (h, rest) q = (h, All-append P xs ys rest q)

pub All-first {ℓ} :
    (P Q : DownloadTask → Type ℓ) (xs : List DownloadTask) → All (λ t. P t × Q t) xs → All P xs
All-first P Q [] h = tt
All-first P Q (x ∷ xs) (h, rest) = (h.0, All-first P Q xs rest)
