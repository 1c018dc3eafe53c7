-- ===== src/Ranges/Loop.antt =====
-- The loop of getContiguousRanges keeps a plan of the blocks that it has passed.
use dingospeed.Base.{
  ℕ, zero, suc, ◌+◌, ◌-◌, ◌*◌, ◌/◌, ◌≤◌, ◌<◌, ◌≡◌, refl, ap, ◌∙◌, Bool, false, not, ok, arith, ltb,
  ltb→lt, tests, Bool-cases, inl, inr, if◌then◌else◌,
}
use dingospeed.Header.{DingCacheHeader}
use dingospeed.Block.{get_block_info, block_unique, block_lt, block_reached}
use dingospeed.Task.{Config, TaskParam, DownloadTask, create_remote_task, create_cache_task}
use dingospeed.Ranges.{has_block, LoopState, close_range, range_step, ranges_loop, differ}
use dingospeed.Ranges.Tiling.{Plan, Tiles, Plan-append, Plan-Tiles, IsRight, IsShort}
use dingospeed.Ranges.Split.{split_remote_range-Plan}

not-not : (b : Bool) → b ≡ not (not b)
not-not b = ground arith

module _ (c : Config) (p : TaskParam) (h : DingCacheHeader) (s e : ℕ) where
  abbrev pub IsGood : DownloadTask → Type 0
  IsGood t = IsRight h t × IsShort c t

  -- Before block `k` is looked at.
  pub record Inv (k : ℕ) (st : LoopState) : Type 0 where
    pub from : s ≤ st.range_start_pos
    pub inside : st.range_start_pos < e
    pub plan : Plan IsGood s st.range_start_pos p.task_no st.task_no st.tasks
    pub passed :
        (i : ℕ)
        → i < k
        → st.range_start_pos < (i + 1) * h.block_size
        → has_block h i ≡ ok (not st.range_is_remote)
    pub here :
        k * h.block_size < e
        → (k * h.block_size ≤ st.cur_pos)
          × (st.cur_pos < (k + 1) * h.block_size)
          × (st.range_start_pos ≤ st.cur_pos)
          × (st.cur_pos < e)
          × (st.range_start_pos < st.cur_pos → st.cur_pos ≡ k * h.block_size)

  -- Closing a run whose blocks are all present, or all absent.
  close_range-Plan :
      (st : LoopState) (b : ℕ)
      → Plan IsGood s st.range_start_pos p.task_no st.task_no st.tasks
      → st.range_start_pos < b
      → ((i : ℕ)
          → i * h.block_size < b
          → st.range_start_pos < (i + 1) * h.block_size
          → has_block h i ≡ ok (not st.range_is_remote))
      → Plan IsGood s b p.task_no (close_range c p st b).task_no (close_range c p st b).tasks
  unfolding close_range create_remote_task create_cache_task
  close_range-Plan st b plan lt run = elim (Bool-cases st.range_is_remote) [
    | inl far ↦ rw far (
        Plan-append IsGood st.tasks _ s st.range_start_pos b p.task_no st.task_no _ plan (
          split_remote_range-Plan c p IsGood st.range_start_pos b st.task_no
            (λ m x y hx hxy hy short.
              (λ i hi hj. rw far at (run i (omega arith) (omega arith)), λ _ pos. short pos))
            lt))
    | inr near ↦ rw near (
        Plan-append IsGood st.tasks _ s st.range_start_pos b p.task_no st.task_no _ plan
          (refl, lt, refl, (λ i hi hj. rw near at (run i hi hj), λ e _. cc), (refl, refl)))
  ]

  -- The position after block `k`.
  next_pos :
      (k q : ℕ)
      → 0 < h.block_size
      → e ≤ h.file_size
      → k * h.block_size ≤ q
      → q < (k + 1) * h.block_size
      → (k + 1) * h.block_size < e
      → (get_block_info q h.block_size h.file_size).2 ≡ (k + 1) * h.block_size
  unfolding get_block_info
  next_pos k q hb he lo hi more = rw (block_unique q h.block_size k hb lo hi) (omega arith)

  module _ (hb : 0 < h.block_size) (he : e ≤ h.file_size) where
    -- The block before `k + 1` is `k` or one that was passed before.
    extend_passed :
        (k r : ℕ) (absent : Bool)
        → has_block h k ≡ ok (not absent)
        → ((i : ℕ) → i < k → r < (i + 1) * h.block_size → has_block h i ≡ ok (not absent))
        → (i : ℕ) → i < k + 1
        → r < (i + 1) * h.block_size
        → has_block h i ≡ ok (not absent)
    extend_passed k r absent now before i hi hr = elim (Bool-cases (ltb i k)) [
      | inl below ↦ before i (ltb→lt i k below) hr
      | inr above ↦ let same : i ≡ k = omega tests in rw same now
    ]

    -- What holds of the position `q` once it is the start of block `k + 1`.
    start_of_block :
        (k q r : ℕ)
        → q ≡ (k + 1) * h.block_size
        → r < (k + 1) * h.block_size
        → (k + 1) * h.block_size < e
        → ((k + 1) * h.block_size ≤ q)
          × (q < (k + 1 + 1) * h.block_size)
          × (r ≤ q)
          × (q < e)
          × (r < q → q ≡ (k + 1) * h.block_size)
    start_of_block k q r eq lt inside =
        (omega arith, omega arith, omega arith, omega arith, λ _. eq)

    -- The tasks up to the current position, when the kind changes at block `k`.
    maybe_close-Plan :
        (k : ℕ) (st : LoopState)
        → k * h.block_size < e
        → Inv k st
        → let closed =
            (if ltb st.range_start_pos st.cur_pos then close_range c p st st.cur_pos else st) in
          Plan IsGood s st.cur_pos p.task_no closed.task_no closed.tasks
    maybe_close-Plan k st inside v =
        let (lo, hi, ordered, below, aligned) = v.here inside in
        elim (Bool-cases (ltb st.range_start_pos st.cur_pos)) [
          | inl more ↦
              let start = aligned (ltb→lt _ _ more) in
              rw more (
                close_range-Plan st st.cur_pos v.plan (ltb→lt _ _ more)
                  λ i hi hr. v.passed i (block_lt i k h.block_size (omega arith)) hr)
          | inr none ↦
              let eq : st.cur_pos ≡ st.range_start_pos = omega tests in rw (none, eq) v.plan
        ]

    range_step-Inv :
        (k : ℕ) (st : LoopState) (absent : Bool)
        → has_block h k ≡ ok (not absent)
        → k * h.block_size < e
        → Inv k st
        → Inv (k + 1) (range_step c p h absent st)
    unfolding range_step
    range_step-Inv k st absent now inside v =
        let (lo, hi, ordered, below, aligned) = v.here inside in
        let next = next_pos k st.cur_pos hb he lo hi in
        let closed_plan = maybe_close-Plan k st inside v in
        elim (Bool-cases (differ st.range_is_remote absent)) [
          | inr same ↦
              let eq : st.range_is_remote ≡ absent = ground arith in
              rw (same, range_step)
                (record {
                  from = v.from;
                  inside = v.inside;
                  plan = v.plan;
                  passed =
                      extend_passed k st.range_start_pos st.range_is_remote (rw eq now) v.passed;
                  here =
                      λ more. start_of_block k _ st.range_start_pos (next more) (omega arith) more;
                })
          | inl switch ↦
              rw (switch, range_step)
                (record {
                  from = omega (arith, v.from);
                  inside = below;
                  plan = closed_plan;
                  passed = λ i hi hr.
                      let same : i ≡ k =
                        omega (arith, block_lt k (i + 1) h.block_size (omega arith)) in
                      rw same now;
                  here = λ more. start_of_block k _ st.cur_pos (next more) hi more;
                })
        ]

    pub ranges_loop-Plan :
        (ctx_err : ℕ → Bool) (rounds k : ℕ) (st : LoopState)
        → ((i : ℕ) → ctx_err i ≡ false)
        → ((i : ℕ) → i * h.block_size < e → (b : Bool) × (has_block h i ≡ ok b))
        → k + rounds ≡ (e - 1) / h.block_size + 1
        → Inv k st
        → let r = ranges_loop c p ctx_err h e rounds k st in Plan IsGood s e p.task_no r.1 r.0
    unfolding ranges_loop
    ranges_loop-Plan ctx_err zero k st live known ek v =
        close_range-Plan st e v.plan v.inside λ i hi hr.
          v.passed i
            (omega (arith, (block_reached i e h.block_size hb (omega (arith, v.inside))).0 hi)) hr
    ranges_loop-Plan ctx_err (suc rounds) k st live known ek v =
        let inside =
          (block_reached k e h.block_size hb (omega (arith, v.inside))).1 (omega arith) in
        let (b, eb) = known k inside in
        rw (live k) (
          rw eb (
            ranges_loop-Plan ctx_err rounds (k + 1) (range_step c p h (not b) st) live known
              (omega arith) (range_step-Inv k st (not b) (eb ∙ ap ok (not-not b)) inside v)))

    -- Whenever the context ends, the tasks so far tile the range up to some position.
    pub ranges_loop-prefix :
        (ctx_err : ℕ → Bool) (rounds k : ℕ) (st : LoopState)
        → ((i : ℕ) → i * h.block_size < e → (b : Bool) × (has_block h i ≡ ok b))
        → k + rounds ≡ (e - 1) / h.block_size + 1
        → Inv k st
        → (m : ℕ) × (m ≤ e) × Tiles s m (ranges_loop c p ctx_err h e rounds k st).0
    unfolding ranges_loop
    ranges_loop-prefix ctx_err zero k st known ek v = (
      e,
      omega arith,
      Plan-Tiles IsGood _ s e p.task_no _ (
          close_range-Plan st e v.plan v.inside λ i hi hr.
            v.passed i
              (omega (arith, (block_reached i e h.block_size hb (omega (arith, v.inside))).0 hi))
              hr),
    )
    ranges_loop-prefix ctx_err (suc rounds) k st known ek v =
        let inside =
          (block_reached k e h.block_size hb (omega (arith, v.inside))).1 (omega arith) in
        let (b, eb) = known k inside in
        elim (Bool-cases (ctx_err k)) [
          | inl done ↦ rw done (
            st.range_start_pos,
            omega (arith, v.inside),
            Plan-Tiles IsGood st.tasks s _ p.task_no _ v.plan,
          )
          | inr live ↦ rw live (
              rw eb (
                ranges_loop-prefix ctx_err rounds (k + 1) (range_step c p h (not b) st) known
                  (omega arith) (range_step-Inv k st (not b) (eb ∙ ap ok (not-not b)) inside v)))
        ]
