-- ===== src/Ranges/Presence.antt =====
-- getContiguousRanges: what the tasks of a valid range are.
use dingospeed.Base.{
  ℕ, ◌+◌, ◌-◌, ◌*◌, ◌/◌, ◌≤◌, ◌<◌, ◌≡◌, refl, [], Bool, false, not, some, ok, arith, pos, length,
}
use dingospeed.Bitset.Laws.{IsValid, test_index-bit_at, bit_at}
use dingospeed.Header.{DingCacheHeader}
use dingospeed.Block.{block_bounds, block_lt, block_le, block_reached}
use dingospeed.Task.{Config, TaskParam}
use dingospeed.Ranges.{
  has_block, both_zero, check_positions, LoopState, ranges_loop, get_contiguous_ranges,
}
use dingospeed.Ranges.Tiling.{
  Tiles, Numbered, All, Plan, IsRight, IsShort, Plan-Tiles, Plan-Numbered, Plan-All,
}
use dingospeed.Ranges.Loop.{Inv, IsGood, ranges_loop-Plan, ranges_loop-prefix}

-- A header that the cache works with: blocks are not empty, and the mask has a bit for each.
pub record IsUsable (h : DingCacheHeader) : Type 0 where
  pub block_size : 0 < h.block_size
  pub mask : IsValid h.block_mask
  pub fits : h.file_size ≤ h.block_mask.size * h.block_size

module _ (h : DingCacheHeader) (u : IsUsable h) (e : ℕ) (he : e ≤ h.file_size) where
  -- Every block of the file has an answer.
  pub has_block_known : (i : ℕ) → i * h.block_size < e → (b : Bool) × (has_block h i ≡ ok b)
  unfolding has_block
  has_block_known i hi = (
    bit_at h.block_mask.bits i,
    test_index-bit_at h.block_mask i u.mask
        (block_lt i h.block_mask.size h.block_size (omega (arith, u.fits))),
  )

pub not_zero : (s e : ℕ) → s < e → both_zero (pos s) (pos e) ≡ false
not_zero s e h = ground arith

pub checked : (s e fs : ℕ) → s < e → e ≤ fs → check_positions (pos s) (pos e) fs ≡ some (s, e)
checked s e fs hs he = ground arith

module _ (c : Config) (p : TaskParam) (h : DingCacheHeader) (u : IsUsable h) (s e : ℕ) (hs : s < e)
    (he : e ≤ h.file_size) where
  start_known : (b : Bool) × (has_block h (s / h.block_size) ≡ ok b)
  start_known =
      let (lo, hi) = block_bounds s h.block_size u.block_size in
      has_block_known h u e he (s / h.block_size) (omega arith)

  -- The state in which the loop starts.
  abbrev first : Bool → LoopState
  first exists = record {
    range_start_pos = s;
    cur_pos = s;
    range_is_remote = not exists;
    task_no = p.task_no;
    tasks = [];
  }

  first-Inv : (b : Bool) → Inv c p h s e (s / h.block_size) (first b)
  first-Inv b =
      let (lo, hi) = block_bounds s h.block_size u.block_size in
      record {
        from = omega arith;
        inside = hs;
        plan = (refl, refl);
        passed = λ i hi' hr.
            absurd (omega (arith, block_le (i + 1) (s / h.block_size) h.block_size (omega arith)));
        here = λ _. (lo, omega arith, omega arith, hs, λ q. absurd (omega arith));
      }

  -- The call is its loop, from the first state.
  get_contiguous_ranges-loop :
      (ctx_err : ℕ → Bool) (b : Bool)
      → has_block h (s / h.block_size) ≡ ok b
      → get_contiguous_ranges c ctx_err h (pos s) (pos e) p
        ≡ ranges_loop c p ctx_err h e
            ((e - 1) / h.block_size + 1 - s / h.block_size)
            (s / h.block_size)
            (first b)
  unfolding get_contiguous_ranges
  get_contiguous_ranges-loop ctx_err b eb =
      rw (not_zero s e hs) (rw (checked s e h.file_size hs he) (rw eb))

  rounds :
      s / h.block_size + ((e - 1) / h.block_size + 1 - s / h.block_size)
      ≡ (e - 1) / h.block_size + 1
  rounds =
      let (lo, hi) = block_bounds s h.block_size u.block_size in
      omega (
        arith,
        (block_reached (s / h.block_size) e h.block_size u.block_size (omega arith)).0
            (omega arith),
      )

  get_contiguous_ranges-Plan :
      (ctx_err : ℕ → Bool)
      → ((i : ℕ) → ctx_err i ≡ false)
      → let r = get_contiguous_ranges c ctx_err h (pos s) (pos e) p in
        Plan (IsGood c p h s e) s e p.task_no r.1 r.0
  get_contiguous_ranges-Plan ctx_err live =
      let (b, eb) = start_known in
      rw (get_contiguous_ranges-loop ctx_err b eb) (
        ranges_loop-Plan c p h s e u.block_size he ctx_err _ (s / h.block_size) (first b) live
          (has_block_known h u e he) rounds (first-Inv b))

  -- On a usable header and a range inside the file, while the context lives, the tasks tile the
  -- range: the first starts at its start, each starts where the one before ends, none is empty, and
  -- the last ends at its end. They are numbered one by one from the parameters' task number, and the
  -- number left behind is the one after the last.
  pub get_contiguous_ranges-Tiles :
      (ctx_err : ℕ → Bool)
      → ((i : ℕ) → ctx_err i ≡ false)
      → let r = get_contiguous_ranges c ctx_err h (pos s) (pos e) p in
        Tiles s e r.0 × Numbered p.task_no r.0 × (r.1 ≡ p.task_no + length r.0)
  get_contiguous_ranges-Tiles ctx_err live =
      let plan = get_contiguous_ranges-Plan ctx_err live in
      let (numbered, next) = Plan-Numbered _ _ s e p.task_no _ plan in
      (Plan-Tiles _ _ s e p.task_no _ plan, numbered, next)

  -- On a usable header and a range inside the file, while the context lives, a cache task touches
  -- only blocks that are in the file, a remote task only blocks that are not, and a remote task is no
  -- longer than the configured range size unless that is 0.
  pub get_contiguous_ranges-IsRight :
      (ctx_err : ℕ → Bool)
      → ((i : ℕ) → ctx_err i ≡ false)
      → All (λ t. IsRight h t × IsShort c t) (get_contiguous_ranges c ctx_err h (pos s) (pos e) p).0
  get_contiguous_ranges-IsRight ctx_err live =
      Plan-All _ _ s e p.task_no _ (get_contiguous_ranges-Plan ctx_err live)

  -- Whenever the context ends on the way, the tasks still tile the range from its start up to some
  -- position that is not past its end.
  pub get_contiguous_ranges-prefix :
      (ctx_err : ℕ → Bool)
      → (m : ℕ) × (m ≤ e) × Tiles s m (get_contiguous_ranges c ctx_err h (pos s) (pos e) p).0
  get_contiguous_ranges-prefix ctx_err =
      let (b, eb) = start_known in
      rw (get_contiguous_ranges-loop ctx_err b eb) (
        ranges_loop-prefix c p h s e u.block_size he ctx_err _ (s / h.block_size) (first b)
          (has_block_known h u e he) rounds (first-Inv b))
