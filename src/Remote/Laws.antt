-- ===== src/Remote/Laws.antt =====
-- A whole run of DoTask on the content's chunks: the file stays right.
use dingospeed.Base.{
  ℕ, ◌+◌, ◌*◌, ◌/◌, ◌%◌, ◌≤◌, ◌<◌, ◌≡◌, ◌≢◌, ◌⊎◌, refl, ap, ◌∙◌, List, [], ◌∷◌, Bool, true, arith,
  either_way, if◌then◌else◌, length, inl, inr,
}
use dingospeed.Bitset.{Bitset}
use dingospeed.Bitset.Laws.{bit_at}
use dingospeed.Header.{DingCacheHeader}
use dingospeed.Block.{get_block_info, block_bounds, block_le}
use dingospeed.Task.{DownloadTask}
use dingospeed.Cache.{World}
use dingospeed.Cache.Sync.{next_block}
use dingospeed.CacheRead.Laws.{IsSegment}
use dingospeed.Remote.{
  RemoteState, Status, download_break, add_report, initial, receive, receive_all, do_task,
}
use dingospeed.Remote.Store.{Good}
use dingospeed.Remote.Steps.{Inv, receive-Inv, receive_same}
use dingospeed.Remote.Finish.{finish-Finishes}

-- The chunks are the content's bytes from `p` on, none longer than a block.
abbrev pub Arrives : (ℕ → ℕ) → ℕ → ℕ → List (List ℕ) → Type 0
Arrives content block_size p [] = Unit {0}
Arrives content block_size p (c ∷ cs) =
    IsSegment content p (p + length c) c
    × (length c ≤ block_size)
    × Arrives content block_size (p + length c) cs

-- The position behind the last of them.
abbrev pub arrived : ℕ → List (List ℕ) → ℕ
arrived p [] = p
arrived p (c ∷ cs) = arrived (p + length c) cs

pub arrived_from : (p : ℕ) (cs : List (List ℕ)) → p ≤ arrived p cs
arrived_from p [] = omega arith
arrived_from p (c ∷ cs) = omega (arith, arrived_from (p + length c) cs)

module _ (content : ℕ → ℕ) (h : DingCacheHeader) (sync_process_interval : ℕ) (t : DownloadTask)
    (pos : 0 < h.block_size)
    (blocks : (i : ℕ) → i * h.block_size < h.file_size → i < h.block_number) where
  abbrev IsBetween : RemoteState → Type 0
  IsBetween = Inv content h sync_process_interval t pos blocks

  -- curBlock is the block of curPos once a chunk was received.
  abbrev IsKnown : RemoteState → Type 0
  IsKnown s = (s.cur_block ≡ s.cur_pos / h.block_size) ⊎ (length s.stream_cache ≡ 0)

  initial-Inv :
      (w : World)
      → Good content h w h.block_mask
      → t.range_start_pos ≤ h.file_size
      → IsBetween (initial sync_process_interval h.block_size h.file_size t w)
  unfolding initial get_block_info
  initial-Inv w g inside =
      let (lo, hi) = block_bounds t.range_start_pos h.block_size pos in
      record {
        mask = h.block_mask;
        good = g;
        after = omega arith;
        inside = inside;
        block = refl;
        start = refl;
        ends = refl;
        stream = record { size = omega (arith, lo); bytes = λ k lt. absurd (omega arith) };
        passed = λ i from lt. absurd (
            omega (
              arith,
              lo,
              from,
              pos,
              next_block i h.block_size,
              block_le (i + 1) (t.range_start_pos / h.block_size) h.block_size (omega (arith, lt)),
            ));
      }

  receive_all-Inv :
      (s : RemoteState) (chunks : List (List ℕ))
      → IsBetween s
      → IsKnown s
      → Arrives content h.block_size s.cur_pos chunks
      → arrived s.cur_pos chunks ≤ h.file_size
      → let s' = receive_all sync_process_interval h.block_size h.file_size t s chunks in
        IsBetween s' × IsKnown s' × (s'.cur_pos ≡ arrived s.cur_pos chunks)
  unfolding receive_all
  receive_all-Inv s [] v known right inside = (v, known, refl)
  receive_all-Inv s (c ∷ cs) v known (seg, short, rest) inside =
      let s₁ = receive sync_process_interval h.block_size h.file_size t s c in
      let (ep, eb) = receive_same content h sync_process_interval t pos blocks s c in
      let fits : s.cur_pos + length c ≤ h.file_size =
        omega (arith, inside, arrived_from (s.cur_pos + length c) cs) in
      let v₁ = receive-Inv content h sync_process_interval t pos blocks s c v seg short fits in
      let (v', k', e') = receive_all-Inv s₁ cs v₁ (inl (rw ep eb)) (rw ep rest) (rw ep inside) in
      (v', k', e' ∙ ap (λ p. arrived p cs) ep)

  -- Every chunk was received.
  Received : List (List ℕ) → RemoteState → Type 0
  Received chunks s = IsBetween s × IsKnown s × (s.cur_pos ≡ arrived t.range_start_pos chunks)

  add_report-Received :
      (chunks : List (List ℕ)) (s : RemoteState) (end_pos : ℕ) (status : Status)
      → Received chunks s
      → Received chunks (add_report s end_pos status)
  unfolding Received
  add_report-Received chunks s end_pos status (v, known, at) = (
    record {
      mask = v.mask;
      good = v.good;
      after = v.after;
      inside = v.inside;
      block = v.block;
      start = v.start;
      ends = v.ends;
      stream = v.stream;
      passed = v.passed;
    },
    known,
    at,
  )

  receive_all-Received :
      (w : World) (chunks : List (List ℕ))
      → Good content h w h.block_mask
      → Arrives content h.block_size t.range_start_pos chunks
      → arrived t.range_start_pos chunks ≤ h.file_size
      → Received chunks (
          receive_all sync_process_interval h.block_size h.file_size t
            (initial sync_process_interval h.block_size h.file_size t w)
            chunks)
  unfolding Received initial
  receive_all-Received w chunks g right inside =
      let v = initial-Inv w g (omega (arith, inside, arrived_from t.range_start_pos chunks)) in
      receive_all-Inv (initial sync_process_interval h.block_size h.file_size t w) chunks v
        (inr refl) right inside

  -- On an open cache whose present blocks hold the content, for a task that starts in the file, when
  -- the file size is no multiple of the block size and the chunks that arrive are the content's bytes
  -- from the start of the range on, none longer than a block and none past the file's end: however the
  -- run ends, the cache is left right, every present block holding the content, and each block that
  -- starts in the range and was passed by the chunks is present.
  pub do_task-Good :
      (w : World) (chunks : List (List ℕ)) (cancelled : Bool)
      → Good content h w h.block_mask
      → h.file_size % h.block_size ≢ 0
      → Arrives content h.block_size t.range_start_pos chunks
      → arrived t.range_start_pos chunks ≤ h.file_size
      → (mask' : Bitset) × Good content h
          (do_task sync_process_interval h.block_size h.file_size t w h.block_number chunks
            cancelled).world
          mask'
        × ((i : ℕ)
            → t.range_start_pos ≤ i * h.block_size
            → i < arrived t.range_start_pos chunks / h.block_size
            → bit_at mask'.bits i ≡ true)
  unfolding do_task Received
  do_task-Good w chunks cancelled g more right inside =
      let s =
        receive_all sync_process_interval h.block_size h.file_size t
          (initial sync_process_interval h.block_size h.file_size t w) chunks in
      let all = receive_all-Received w chunks g right inside in
      let stopped : RemoteState =
        (if cancelled then add_report s s.last_block_end_pos download_break else s) in
      let (v, known, at) =
        either_way (Received chunks) cancelled
          {x = add_report s s.last_block_end_pos download_break} {y = s}
          (λ _. add_report-Received chunks s s.last_block_end_pos download_break all) (λ _. all) in
      let (mask', good, keeps) =
        finish-Finishes content h sync_process_interval t pos blocks stopped v known more in
      (mask', good, λ i from lt. keeps i (v.passed i from (rw (v.block, at) lt)))
