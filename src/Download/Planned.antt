-- ===== src/Download/Planned.antt =====
-- From a request for a range to the bytes that the client reads.
use dingospeed.Base.{
  ℕ, ◌+◌, ◌*◌, ◌≤◌, ◌<◌, ◌≡◌, refl, sym, ap, ◌∙◌, inl, String, List, [], ◌∷◌, Bool, true, false,
  not, Option, some, none, Result, ok, pos, arith, length,
}
use mathlib.Core.Path.{subst}
use dingospeed.Errors.{Error}
use dingospeed.Header.{DingCacheHeader}
use dingospeed.Task.{Config, TaskParam, DownloadTask, Kind, cached, remote, is_remote}
use dingospeed.Ranges.{has_block}
use dingospeed.Ranges.Tiling.{Tiles, All, IsRight}
use dingospeed.Ranges.Presence.{IsUsable}
use dingospeed.Plan.{SchedulerFileRequest, SchedulerFileResponse, construct_task}
use dingospeed.Plan.Laws.{NoShortfall, refused, construct_task-Tiles}
use dingospeed.Cache.{DingCache}
use dingospeed.Cache.Blocks.{IsRightCache}
use dingospeed.Reader.{BlockCache, ReadSettings}
use dingospeed.Reader.Laws.{NoCollision, IsRightMemory}
use dingospeed.Manager.{DingCacheManager, get_ding_file}
use dingospeed.CacheRead.Laws.{joined, IsSegment}
use dingospeed.Stream.{Exchange, Event, ended, start, run, file_chunk_get}
use dingospeed.Stream.Steps.{AllQuiet}
use dingospeed.Stream.Answers.{IsOver, run-Answers}
use dingospeed.Download.{
  Surroundings, Network, out_tasks, Outcome, failed, sends, run_plan, plan_with, with_file,
  file_download,
}
use dingospeed.Download.Content.{IsFetched, HasSource, HaveSources, IsLive, out_tasks-IsSegment}

module _ (content : ℕ → ℕ) {M : Type 0} (cache : BlockCache M) (md5 : String → String)
    (settings : ReadSettings) (net : Network) (around : Surroundings M) (h : DingCacheHeader) where
  -- The file as a task finds it later: it holds the content, and every block that the plan saw.
  pub record IsLater (i : ℕ) : Type 0 where
    pub header : DingCacheHeader
    pub body : List ℕ
    pub right : IsRightCache content (around.worlds i) header body
    pub apart : NoCollision content (around.worlds i) header body right cache md5 settings
    pub memory :
        IsRightMemory content
          (around.worlds i)
          header
          body
          right
          cache
          md5
          settings
          (around.memories i)
    pub same_size : header.file_size ≡ h.file_size
    pub same_block_size : header.block_size ≡ h.block_size
    pub kept : (k : ℕ) → has_block h k ≡ ok true → has_block header k ≡ ok true

  abbrev FetchedKind : ℕ → DownloadTask → Kind → Type 0
  FetchedKind i t cached = Unit {0}
  FetchedKind i t (remote r) = IsFetched content cache md5 settings net around i t r

  -- For each remote task the servers send the content, and its fetch ends without an error.
  abbrev pub AllFetched : ℕ → List DownloadTask → Type 0
  AllFetched i [] = Unit {0}
  AllFetched i (t ∷ tasks) = FetchedKind i t t.kind × AllFetched (i + 1) tasks

  module _ (later : (i : ℕ) → IsLater i) where
    kind-HasSource :
        (i : ℕ) (t : DownloadTask) (kind : Kind)
        → t.kind ≡ kind
        → t.range_end_pos ≤ h.file_size
        → IsRight h t
        → FetchedKind i t kind
        → HasSource content cache md5 settings net around i t kind
    kind-HasSource i t cached e inside right f =
        let l = later i in
        let local : not (is_remote t) ≡ true = rw e refl in
        let same = l.same_block_size in
        record {
          header = l.header;
          body = l.body;
          right = l.right;
          apart = l.apart;
          memory = l.memory;
          inside = omega (arith, inside, l.same_size);
          present = λ k lo hi. l.kept k (
              right k (subst (λ b. k * b < t.range_end_pos) same lo)
                (subst (λ b. t.range_start_pos < (k + 1) * b) same hi)
              ∙ ap ok local);
        }
    kind-HasSource i t (remote r) e inside right f = f

    Tiles-le : (s e : ℕ) (tasks : List DownloadTask) → Tiles s e tasks → s ≤ e
    Tiles-le s e [] tiles = omega (arith, tiles)
    Tiles-le s e (t ∷ tasks) (at, more, tiles) =
        omega (arith, more, Tiles-le t.range_end_pos e tasks tiles)

    pub Tiles-HaveSources :
        (i s e : ℕ) (tasks : List DownloadTask)
        → Tiles s e tasks
        → All (IsRight h) tasks
        → e ≤ h.file_size
        → AllFetched i tasks
        → HaveSources content cache md5 settings net around i tasks
    Tiles-HaveSources i s e [] tiles right inside f = tt
    Tiles-HaveSources i s e (t ∷ tasks) (at, more, tiles) (r, rs) inside (f, fs) = (
      kind-HasSource i t t.kind refl (omega (arith, inside, Tiles-le t.range_end_pos e tasks tiles))
          r f,
      Tiles-HaveSources (i + 1) t.range_end_pos e tasks tiles rs inside fs,
    )

    --
    module _ (block_size capacity : ℕ) (c : Config) (instance_id : String)
        (schedule : SchedulerFileRequest → Option SchedulerFileResponse) (plan_err : ℕ → ℕ → Bool)
        (u : IsUsable h) (planning : (n k : ℕ) → plan_err n k ≡ false) (s e : ℕ) (hs : s < e)
        (he : e ≤ h.file_size)
        (honest : NoShortfall c instance_id schedule plan_err h u planning s e hs he)
        (live : IsLive content cache md5 settings net around) (p : TaskParam) (inner : Bool) where
      -- The plan of this request.
      abbrev planned : Result Error (List DownloadTask × TaskParam)
      planned = construct_task c instance_id schedule plan_err h (pos s) (pos e) inner p

      -- Its remote tasks are served, and what it sends fits into the response channel.
      abbrev pub IsServed : Type 0
      IsServed =
          (tasks : List DownloadTask) (p' : TaskParam)
          → planned ≡ ok (tasks, p')
          → AllFetched 0 tasks
            × (length (out_tasks cache md5 settings net around 0 tasks) ≤ capacity)

      abbrev pub outcome : DingCacheManager → Outcome
      outcome f =
          (file_download block_size c instance_id schedule plan_err cache md5 settings net around
            (pos s) (pos e) inner p f).0

      opened :
          (f f' : DingCacheManager) (file : DingCache)
          → get_ding_file block_size p.blobs_file p.file_size f ≡ (ok file, f')
          → file.header ≡ some h
          → outcome f
            ≡ run_plan block_size c instance_id schedule plan_err cache md5 settings net around
                planned
      unfolding file_download with_file plan_with
      opened f f' file got eh =
          ap
            (λ x.
              (with_file block_size c instance_id schedule plan_err cache md5 settings net around
                (pos s) (pos e) inner p x).0)
            got
          ∙ ap
              (λ x.
                run_plan block_size c instance_id schedule plan_err cache md5 settings net around (
                  plan_with block_size c instance_id schedule plan_err cache md5 settings net around
                    (pos s) (pos e) inner p x))
              eh

      -- The answer is the range.
      abbrev pub AnswersRange : Outcome → Type 0
      AnswersRange o =
          (x : Exchange) × (file_chunk_get o ≡ some x)
          × ((events : List Event) (t : Exchange)
              → AllQuiet events
              → run capacity events x ≡ some t
              → IsOver capacity t
              → (t.phase ≡ ended)
                × (t.status ≡ some 200)
                × IsSegment content s e (joined t.written))

      sends-AnswersRange :
          (tasks : List DownloadTask)
          → Tiles s e tasks × All (IsRight h) tasks
          → AllFetched 0 tasks
          → length (out_tasks cache md5 settings net around 0 tasks) ≤ capacity
          → AnswersRange (sends (out_tasks cache md5 settings net around 0 tasks))
      unfolding file_chunk_get
      sends-AnswersRange tasks (tiles, right) fetches room =
          let values = out_tasks cache md5 settings net around 0 tasks in
          let segment =
            out_tasks-IsSegment content cache md5 settings net around live 0 s e tasks tiles
              (Tiles-HaveSources 0 s e tasks tiles right he fetches) in
          (
            start none values,
            refl,
            λ events t quiet h over.
                let a =
                  (run-Answers capacity none values (inl refl) room events t quiet h).1 over in
                (a.over, a.status, subst (IsSegment content s e) (sym a.body) segment),
          )

      -- Of a range inside a file that GetDingFile gives with a usable header, while the context lives, if
      -- the scheduler names no node whose bytes end before the first byte that it is asked for, if the file that each task
      -- finds later holds the content and has at least the planned blocks, if each remote task is
      -- fetched without an error from servers that send the content, and if what the tasks send fits
      -- into the response channel: when the plan is refused the download fails with 404; in every other
      -- case, however its sender and the handler take turns while the client stays, when nothing more
      -- can happen the handler has returned with 200 and has written the content from the start of the
      -- range up to its end.
      pub file_download-AnswersRange :
          IsServed
          → (f f' : DingCacheManager) (file : DingCache)
          → get_ding_file block_size p.blobs_file p.file_size f ≡ (ok file, f')
          → file.header ≡ some h
          → (refused c instance_id schedule plan_err h u planning s e hs he p ≡ true
              → outcome f ≡ failed 404)
            × (refused c instance_id schedule plan_err h u planning s e hs he p ≡ false
                → AnswersRange (outcome f))
      unfolding run_plan
      file_download-AnswersRange served f f' file got eh =
          let (no_file, plan) =
            construct_task-Tiles c instance_id schedule plan_err h u planning s e hs he honest inner
              p in
          let shown = opened f f' file got eh in
          (
            λ r.
                shown
                ∙ ap
                    (run_plan block_size c instance_id schedule plan_err cache md5 settings net
                      around)
                    (no_file r),
            λ r.
                let (tasks, p', planned_ok, tiles) = plan r in
                let (fetches, room) = served tasks p' planned_ok in
                subst AnswersRange
                  (sym (
                    shown
                    ∙ ap
                        (run_plan block_size c instance_id schedule plan_err cache md5 settings net
                          around)
                        planned_ok))
                  (sends-AnswersRange tasks tiles fetches room),
          )
