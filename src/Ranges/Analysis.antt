-- ===== src/Ranges/Analysis.antt =====
-- analysisFilePosition: how far a range is cached.
use dingospeed.Base.{
  ℕ, zero, suc, ◌+◌, ◌-◌, ◌*◌, ◌/◌, ◌≤◌, ◌<◌, ◌≡◌, ◌⊎◌, refl, ap, ◌∙◌, Bool, true, false, ok, arith,
  ltb, ltb→lt, tests, if◌then◌else◌, pos, Bool-cases, inl, inr,
}
use dingospeed.Header.{DingCacheHeader}
use dingospeed.Block.{block_bounds, block_unique, block_lt, block_reached, block_le}
use dingospeed.Ranges.{has_block, analysis_loop, analysis_file_position}
use dingospeed.Ranges.Presence.{IsUsable, has_block_known, not_zero, checked}

-- Every byte of the range lies in a block that is in the file.
abbrev pub AllPresent : DingCacheHeader → ℕ → ℕ → Type 0
AllPresent h a b = (q : ℕ) → a ≤ q → q < b → has_block h (q / h.block_size) ≡ ok true

-- `cur` is the first position of the range whose block is missing.
pub record StopsAt (h : DingCacheHeader) (s e cur : ℕ) : Type 0 where
  pub after : s ≤ cur
  pub before : cur < e
  pub present : AllPresent h s cur
  pub missing : has_block h (cur / h.block_size) ≡ ok false

abbrev pub Analysed : DingCacheHeader → ℕ → ℕ → Bool × ℕ → Type 0
Analysed h s e r =
    ((r.0 ≡ true) × (r.1 ≡ e) × AllPresent h s e) ⊎ ((r.0 ≡ false) × StopsAt h s e r.1)

module _ (h : DingCacheHeader) (u : IsUsable h) (s e : ℕ) (hs : s < e) (he : e ≤ h.file_size) where
  abbrev Passed : ℕ → Type 0
  Passed k = (i : ℕ) → i < k → s < (i + 1) * h.block_size → has_block h i ≡ ok true

  of_Passed : (k b : ℕ) → Passed k → ((q : ℕ) → q < b → q / h.block_size < k) → AllPresent h s b
  of_Passed k b passed below q lo hi =
      let (_, top) = block_bounds q h.block_size u.block_size in
      passed (q / h.block_size) (below q hi) (omega arith)

  block_below : (q k : ℕ) → q < k * h.block_size → q / h.block_size < k
  block_below q k lt =
      let (lo, _) = block_bounds q h.block_size u.block_size in
      block_lt (q / h.block_size) k h.block_size (omega arith)

  -- The answer at block `k`, the first one that is missing.
  missing_at :
      (k : ℕ)
      → s < (k + 1) * h.block_size
      → k * h.block_size < e
      → Passed k
      → has_block h k ≡ ok false
      → StopsAt h s e (if ltb (k * h.block_size) s then s else k * h.block_size)
  missing_at k reach inside passed absent = elim (Bool-cases (ltb (k * h.block_size) s)) [
    | inl below ↦ rw below (record {
      after = omega arith;
      before = hs;
      present = λ q lo hi. absurd (omega arith);
      missing = rw (block_unique s h.block_size k u.block_size (omega tests) reach) absent;
    })
    | inr above ↦ rw above (record {
      after = omega tests;
      before = inside;
      present = of_Passed k (k * h.block_size) passed (λ q hi. block_below q k hi);
      missing =
          rw
            (block_unique (k * h.block_size) h.block_size k u.block_size (omega arith)
              (omega (arith, u.block_size)))
            absent;
    })
  ]

  extend : (k : ℕ) → Passed k → has_block h k ≡ ok true → Passed (k + 1)
  extend k passed here i lt reach = elim (Bool-cases (ltb i k)) [
    | inl below ↦ passed i (ltb→lt i k below) reach
    | inr above ↦ let same : i ≡ k = omega tests in rw same here
  ]

  analysis_loop-Analysed :
      (rounds k : ℕ)
      → k + rounds ≡ (e - 1) / h.block_size + 1
      → s < (k + 1) * h.block_size
      → Passed k
      → Analysed h s e (analysis_loop h s e rounds k)
  unfolding analysis_loop
  analysis_loop-Analysed zero k ek reach passed = inl (
    refl,
    refl,
    of_Passed k e passed λ q hi.
        let (lo, _) = block_bounds q h.block_size u.block_size in
        omega (
          arith,
          (block_reached (q / h.block_size) e h.block_size u.block_size (omega arith)).0
              (omega arith),
        ),
  )
  analysis_loop-Analysed (suc rounds) k ek reach passed =
      let inside = (block_reached k e h.block_size u.block_size (omega arith)).1 (omega arith) in
      let (b, eb) = has_block_known h u e he k inside in
      elim (Bool-cases b) [
        | inl here ↦
            rw (eb ∙ ap ok here, analysis_loop)
              (analysis_loop-Analysed rounds (k + 1) (omega arith) (omega (arith, u.block_size))
                (extend k passed (eb ∙ ap ok here)))
        | inr gone ↦
            rw (eb ∙ ap ok gone, analysis_loop)
              (inr (refl, missing_at k reach inside passed (eb ∙ ap ok gone)))
      ]

  -- On a usable header and a range inside the file: either the answer is `true` with the range's
  -- end, and every byte of the range lies in a block that is in the file; or it is `false` with the
  -- first position of the range whose block is missing, every byte before it being present.
  pub analysis_file_position-Analysed :
      (cur : ℕ) × (complete : Bool) × (analysis_file_position h (pos s) (pos e)
        ≡ (complete, pos cur))
      × Analysed h s e (complete, cur)
  unfolding analysis_file_position
  analysis_file_position-Analysed =
      let (lo, hi) = block_bounds s h.block_size u.block_size in
      let r =
        analysis_loop h s e ((e - 1) / h.block_size + 1 - s / h.block_size) (s / h.block_size) in
      (
        r.1,
        r.0,
        rw (not_zero s e hs) (rw (checked s e h.file_size hs he)),
        analysis_loop-Analysed _ (s / h.block_size)
            (omega (
              arith,
              (block_reached (s / h.block_size) e h.block_size u.block_size (omega arith)).0
                  (omega arith),
            ))
            (omega arith)
            (λ i lt reach.
              absurd
                (omega (arith, block_le (i + 1) (s / h.block_size) h.block_size (omega arith)))),
      )
