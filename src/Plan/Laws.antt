-- ===== src/Plan/Laws.antt =====
-- The tasks of a download tile the requested range, whichever way the plan goes.
use dingospeed.Base.{
  ℕ, ◌≤◌, ◌<◌, ◌≡◌, refl, ◌∙◌, String, List, [], ◌++◌, Bool, true, false, not, ◌&&◌, Option, some,
  none, Result, ok, err, arith, leb, ltb, ltb→lt, lt→ltb, tests, ◌==◌, pos, Bool-cases,
  Option-cases, inl, inr,
}
use dingospeed.Errors.{Error, model_file_not_exist}
use dingospeed.Header.{DingCacheHeader}
use dingospeed.Task.{Config, TaskParam, DownloadTask}
use dingospeed.Ranges.{get_contiguous_ranges, analysis_file_position}
use dingospeed.Ranges.Tiling.{Tiles, Tiles-append, All, All-append, All-first, IsRight, IsShort}
use dingospeed.Ranges.Presence.{
  IsUsable, get_contiguous_ranges-Tiles, get_contiguous_ranges-IsRight,
}
use dingospeed.Ranges.Analysis.{Analysed, analysis_file_position-Analysed}
use dingospeed.Plan.{
  SchedulerFileRequest, SchedulerFileResponse, ranges_from, cached_tasks, speed_tasks, local_task,
  scheduled, construct_task, scheduler_yes, get_request_domain_scheduler,
}

-- An empty range gives no tasks.
no_tasks :
    (c : Config) (ctx_err : ℕ → Bool) (h : DingCacheHeader) (s : ℕ) (p : TaskParam)
    → (get_contiguous_ranges c ctx_err h (pos s) (pos s) p).0 ≡ []
unfolding get_contiguous_ranges
no_tasks c ctx_err h s p = ground arith

module _ (c : Config) (instance_id : String)
    (schedule : SchedulerFileRequest → Option SchedulerFileResponse) (ctx_err : ℕ → ℕ → Bool)
    (h : DingCacheHeader) (u : IsUsable h) (live : (n k : ℕ) → ctx_err n k ≡ false) where
  -- The tasks tile the range; those from the cache touch only blocks that it has, and the others none.
  abbrev pub Covers : ℕ → ℕ → List DownloadTask → Type 0
  Covers s e tasks = Tiles s e tasks × All (IsRight h) tasks

  Covers-append :
      (xs ys : List DownloadTask) (s m e : ℕ)
      → Covers s m xs
      → Covers m e ys
      → Covers s e (xs ++ ys)
  Covers-append xs ys s m e (t, r) (t', r') =
      (Tiles-append xs ys s m e t t', All-append (IsRight h) xs ys r r')

  ranges_from-Tiles :
      (call : ℕ) (domain : String) (s e : ℕ) (p : TaskParam)
      → s ≤ e
      → e ≤ h.file_size
      → Covers s e (ranges_from c instance_id schedule ctx_err h call domain (pos s) (pos e) p).0
  unfolding ranges_from
  ranges_from-Tiles call domain s e p hs he = elim (Bool-cases (ltb s e)) [
    | inl more ↦
        let p' = record p { domain = domain } in
        let lt = ltb→lt s e more in
        (
          (get_contiguous_ranges-Tiles c p' h u s e lt he (ctx_err call) (live call)).0,
          All-first (IsRight h) (IsShort c) _
              (get_contiguous_ranges-IsRight c p' h u s e lt he (ctx_err call) (live call)),
        )
    | inr nothing ↦
        let eq : e ≡ s = omega tests in
        rw eq (rw (no_tasks c (ctx_err call) h s (record p { domain = domain })) (refl, tt))
  ]

  module _ (s e : ℕ) (hs : s < e) (he : e ≤ h.file_size) where
    cached_tasks-Tiles :
        (cur : ℕ) (p : TaskParam)
        → s ≤ cur
        → cur ≤ h.file_size
        → Covers s cur (cached_tasks c instance_id schedule ctx_err h (pos s) (pos cur) p).0
    unfolding cached_tasks
    cached_tasks-Tiles cur p lo hi = elim (Bool-cases (ltb s cur)) [
      | inl more ↦
          rw (lt→ltb 0 cur (omega tests)) (rw more (ranges_from-Tiles 0 p.domain s cur p lo hi))
      | inr nothing ↦ elim (Bool-cases (ltb 0 cur)) [
        | inl some_cached ↦ rw some_cached (rw nothing (omega tests, tt))
        | inr none_cached ↦ rw none_cached (omega tests, tt)
      ]
    ]

    speed_tasks-Tiles :
        (response : SchedulerFileResponse) (cur m : ℕ) (p : TaskParam)
        → response.max_offset ≡ pos m
        → cur ≤ m
        → s ≤ cur
        → cur < e
        → Covers s e
            (speed_tasks c instance_id schedule ctx_err h response (pos s) (pos cur) (pos e) p).0
    unfolding speed_tasks
    speed_tasks-Tiles response cur m p em hm lo hi = elim (Bool-cases (ltb m e)) [
      | inl split ↦ rw em (
          rw split (
            Covers-append _ _ s cur e (cached_tasks-Tiles cur p lo (omega arith)) (
              Covers-append _ _ cur m e (ranges_from-Tiles 1 _ cur m _ hm (omega tests))
                (ranges_from-Tiles 2 _ m e _ (omega tests) he))))
      | inr whole ↦ rw em (
          rw whole (
            Covers-append _ _ s cur e (cached_tasks-Tiles cur p lo (omega arith))
              (ranges_from-Tiles 1 _ cur e _ (omega arith) he)))
    ]

    -- An answer that names a node names none whose bytes end before the start of the request.
    abbrev pub NoShortfall : Type 0
    NoShortfall =
        (request : SchedulerFileRequest) (response : SchedulerFileResponse) (cur : ℕ)
        → schedule request ≡ some response
        → (response.scheduler_type == scheduler_yes) ≡ true
        → request.start_pos ≡ pos cur
        → (m : ℕ) × (response.max_offset ≡ pos m) × (cur ≤ m)

    -- Above the scheduler's minimum size, not cached whole, and the node offline.
    abbrev pub refused : TaskParam → Bool
    refused p =
        not (leb p.file_size c.minimum_file_size)
        && (not (analysis_file_position h (pos s) (pos e)).0 && not c.online)

    abbrev pub TilesOk : Result Error (List DownloadTask × TaskParam) → Type 0
    TilesOk r =
        (tasks : List DownloadTask) × (p' : TaskParam) × (r ≡ ok (tasks, p')) × Covers s e tasks

    local-TilesOk :
        (p : TaskParam)
        → TilesOk (ok (local_task c instance_id schedule ctx_err h (pos s) (pos e) p))
    unfolding local_task
    local-TilesOk p = (_, _, refl, ranges_from-Tiles 0 c.hf_url_base s e p (omega arith) he)

    scheduled-TilesOk :
        (response : SchedulerFileResponse) (cur : ℕ) (p : TaskParam)
        → ((response.scheduler_type == scheduler_yes) ≡ true
            → (m : ℕ) × (response.max_offset ≡ pos m) × (cur ≤ m))
        → s ≤ cur
        → cur < e
        → TilesOk
            (ok (scheduled c instance_id schedule ctx_err h response (pos s) (pos cur) (pos e) p))
    unfolding scheduled
    scheduled-TilesOk response cur p enough lo hi =
        elim (Bool-cases (response.scheduler_type == scheduler_yes)) [
          | inl node ↦
              let (m, em, hm) = enough node in
              rw node (_, _, refl, speed_tasks-Tiles response cur m _ em hm lo hi)
          | inr nobody ↦ rw nobody (local-TilesOk _)
        ]

    asked-TilesOk :
        NoShortfall
        → (cur : ℕ) (p : TaskParam) → s ≤ cur
        → cur < e
        → TilesOk
            (elim (get_request_domain_scheduler c instance_id schedule ctx_err h p
              (pos cur)
              (pos e)) [
                | none ↦ ok (local_task c instance_id schedule ctx_err h (pos s) (pos e) p)
                | some response ↦ ok (
                    scheduled c instance_id schedule ctx_err h response (pos s) (pos cur) (pos e) p)
              ])
    unfolding get_request_domain_scheduler
    asked-TilesOk honest cur p lo hi =
        elim (Option-cases
          (get_request_domain_scheduler c instance_id schedule ctx_err h p (pos cur) (pos e))) [
            | inl failed ↦ rw failed (local-TilesOk p)
            | inr (response, answer) ↦ rw answer (
                scheduled-TilesOk response cur p (λ node. honest _ response cur answer node refl) lo
                  hi)
          ]

    from_local :
        (p : TaskParam) {r : Result Error (List DownloadTask × TaskParam)}
        → r ≡ ok (local_task c instance_id schedule ctx_err h (pos s) (pos e) p)
        → TilesOk r
    from_local p eq = let (t, p', e', tl) = local-TilesOk p in (t, p', eq ∙ e', tl)

    stops_at :
        (cur : ℕ) (complete : Bool)
        → complete ≡ false
        → Analysed h s e (complete, cur)
        → (s ≤ cur) × (cur < e)
    stops_at cur complete part (inl (whole, _, _)) = cc
    stops_at cur complete part (inr (_, stop)) = (stop.after, stop.before)

    -- On a usable header and a range inside the file, while the context lives, and if the scheduler
    -- names no node whose bytes end before the first byte that it is asked for: when the file is above the scheduler's
    -- minimum, the range is not all cached and the node is offline, the call answers that the file
    -- does not exist; in every other case it returns tasks that tile the range, the ones that read
    -- from the cache touching only blocks that are there and the others only blocks that are not,
    -- whatever the settings, the scheduler's answer and the kind of request.
    pub construct_task-Tiles :
        NoShortfall
        → (is_inner_request : Bool) (p : TaskParam)
        → let r =
            construct_task c instance_id schedule ctx_err h (pos s) (pos e) is_inner_request p in
          (refused p ≡ true → r ≡ err model_file_not_exist) × (refused p ≡ false → TilesOk r)
    unfolding construct_task
    construct_task-Tiles honest inner p =
        let (cur, complete, eq, analysed) = analysis_file_position-Analysed h u s e hs he in
        (
          λ no_file. rw eq (ground (arith, eq)),
          λ served. elim (Bool-cases (leb p.file_size c.minimum_file_size)) [
            | inl small ↦ rw small (local-TilesOk p)
            | inr big ↦ elim (Bool-cases complete) [
              | inl whole ↦ from_local p (ground (arith, eq))
              | inr part ↦
                  let (lo, hi) = stops_at cur complete part analysed in
                  elim (Bool-cases (not inner && c.is_cluster)) [
                    | inl asks ↦
                        let (t, p', e', tl) = asked-TilesOk honest cur p lo hi in
                        (t, p', ground (arith, eq, e'), tl)
                    | inr alone ↦ from_local p (ground (arith, eq))
                  ]
            ]
          ],
        )
