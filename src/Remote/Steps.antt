-- ===== src/Remote/Steps.antt =====
-- What a fetched chunk does: the file stays right, and each block that was passed is in it.
use dingospeed.Base.{
  ℕ, ◌+◌, ◌-◌, ◌*◌, ◌/◌, ◌≤◌, ◌<◌, ◌≡◌, ◌≢◌, refl, ap, ◌∙◌, List, ◌++◌, true, arith, ltb, ◌==◌,
  tests, ltb→lt, le→ltb, if◌then◌else◌, length, take, drop, min, max, Bool-cases, inl, inr,
  length-take,
}
use dingospeed.Bitset.{Bitset}
use dingospeed.Bitset.Laws.{bit_at}
use dingospeed.Header.{DingCacheHeader}
use dingospeed.Block.{get_block_info, block_bounds, block_unique, block_le}
use dingospeed.Task.{DownloadTask}
use dingospeed.Cache.{write_block}
use dingospeed.Cache.Sync.{next_block}
use dingospeed.Cache.Blocks.{IsBlockOf}
use dingospeed.CacheRead.Laws.{IsSegment, IsSegment-append}
use dingospeed.Remote.{
  RemoteState, block_test, is_missing, progress, save_block, next_block_reached, receive,
}
use dingospeed.Remote.Store.{Good, Keeps, put_block, take-IsSegment, drop-IsSegment, start_at}

module _ (content : ℕ → ℕ) (h : DingCacheHeader) where
  module _ (sync_process_interval : ℕ) (t : DownloadTask) (pos : 0 < h.block_size)
      (blocks : (i : ℕ) → i * h.block_size < h.file_size → i < h.block_number) where
    -- Where the stream that is kept starts.
    abbrev pub kept_from : ℕ → ℕ
    kept_from block = max (block * h.block_size) t.range_start_pos

    -- Between two chunks.
    pub record Inv (s : RemoteState) : Type 0 where
      pub mask : Bitset
      pub good : Good content h s.world mask
      pub after : t.range_start_pos ≤ s.cur_pos
      pub inside : s.cur_pos ≤ h.file_size
      pub block : s.last_block ≡ s.cur_pos / h.block_size
      pub start : s.last_block_start_pos ≡ s.cur_pos / h.block_size * h.block_size
      pub ends :
          s.last_block_end_pos ≡ min ((s.cur_pos / h.block_size + 1) * h.block_size) h.file_size
      pub stream : IsSegment content (kept_from (s.cur_pos / h.block_size)) s.cur_pos s.stream_cache
      pub passed :
          (i : ℕ)
          → t.range_start_pos ≤ i * h.block_size
          → i < s.last_block
          → bit_at mask.bits i ≡ true

    -- A block that is taken off the stream leaves the positions alone.
    save_block_same :
        (s : RemoteState) (raw : List ℕ)
        → let s' = save_block sync_process_interval h.block_size h.file_size t s raw in
          (s'.cur_pos ≡ s.cur_pos)
          × (s'.world ≡ (
              if length raw == h.block_size
              then (if is_missing (block_test s.world s.last_block)
                  then (write_block s.last_block raw s.world).1
                  else s.world)
              else s.world))
          × (s'.cur_block ≡ s.cur_block)
    unfolding save_block progress
    save_block_same s raw = elim (Bool-cases (length raw == h.block_size)) [
      | inr short ↦ rw (short, save_block) (refl, refl, refl)
      | inl whole ↦ elim (Bool-cases (is_missing (block_test s.world s.last_block))) [
        | inr there ↦ rw (whole, save_block) (rw there (refl, refl, refl))
        | inl missing ↦ elim (Bool-cases (s.interval == sync_process_interval)) [
          | inl due ↦ rw (whole, save_block) (rw missing (rw (due, progress) (refl, refl, refl)))
          | inr not_due ↦
              rw (whole, save_block) (rw missing (rw (not_due, progress) (refl, refl, refl)))
        ]
      ]
    ]

    save_block-Good :
        (s : RemoteState) (raw : List ℕ) (mask : Bitset)
        → Good content h s.world mask
        → s.last_block * h.block_size < h.file_size
        → (length raw ≡ h.block_size → IsBlockOf content h s.last_block raw)
        → (mask' : Bitset) × Good content h
            (save_block sync_process_interval h.block_size h.file_size t s raw).world
            mask'
          × Keeps content h mask mask'
          × (length raw ≡ h.block_size → bit_at mask'.bits s.last_block ≡ true)
    save_block-Good s raw mask g inside right = elim (Bool-cases (length raw == h.block_size)) [
      | inr short ↦ (
        mask,
        rw ((save_block_same s raw).1) (rw short g),
        (λ i e. e),
        λ len. absurd (omega (tests, short, len)),
      )
      | inl whole ↦
          let len : length raw ≡ h.block_size = omega (tests, whole) in
          let (mask', good, keeps, here) =
            put_block content h s.world mask s.last_block raw g (blocks s.last_block inside) len
              (right len) in
          (mask', rw ((save_block_same s raw).1) (rw whole good), keeps, λ _. here)
    ]

    -- The state when a new block is reached: the stream goes into the next block, not past it.
    pub record AtNext (s : RemoteState) (mask : Bitset) : Type 0 where
      pub good : Good content h s.world mask
      pub start : s.last_block_start_pos ≡ s.last_block * h.block_size
      pub ends : s.last_block_end_pos ≡ (s.last_block + 1) * h.block_size
      pub from : t.range_start_pos < (s.last_block + 1) * h.block_size
      pub reached : (s.last_block + 1) * h.block_size ≤ s.cur_pos
      pub near : s.cur_pos < (s.last_block + 1) * h.block_size + h.block_size
      pub inside : s.cur_pos ≤ h.file_size
      pub stream : IsSegment content (kept_from s.last_block) s.cur_pos s.stream_cache
      pub passed :
          (i : ℕ)
          → t.range_start_pos ≤ i * h.block_size
          → i < s.last_block
          → bit_at mask.bits i ≡ true

    -- The state after it, with the number of bytes that are taken off.
    abbrev moved : RemoteState → ℕ → RemoteState
    moved s n =
        let saved =
          save_block sync_process_interval h.block_size h.file_size t s (take n s.stream_cache) in
        record saved {
          stream_cache = drop n s.stream_cache;
          last_block = s.cur_pos / h.block_size;
          last_block_start_pos = s.cur_pos / h.block_size * h.block_size;
          last_block_end_pos = min ((s.cur_pos / h.block_size + 1) * h.block_size) h.file_size;
        }

    next_block_reached-moved :
        (s : RemoteState) (n : ℕ)
        → s.last_block_end_pos - max s.last_block_start_pos t.range_start_pos ≡ n
        → n ≤ length s.stream_cache
        → next_block_reached sync_process_interval h.block_size h.file_size t s ≡ moved s n
    unfolding next_block_reached get_block_info
    next_block_reached-moved s n wanted fits =
        rw (wanted, next_block_reached) (rw (le→ltb (length s.stream_cache) n fits) refl)

    next_block_reached-Inv :
        (s : RemoteState) (mask : Bitset)
        → AtNext s mask
        → Inv (next_block_reached sync_process_interval h.block_size h.file_size t s)
    next_block_reached-Inv s mask a =
        let n : ℕ = (s.last_block + 1) * h.block_size - kept_from s.last_block in
        let next = next_block s.last_block h.block_size in
        let fits : n ≤ length s.stream_cache = omega (arith, a.stream.size, a.reached) in
        let wanted : s.last_block_end_pos - max s.last_block_start_pos t.range_start_pos ≡ n =
          rw (a.start, a.ends) refl in
        let cut : IsSegment content (kept_from s.last_block) (kept_from s.last_block + n)
            (take n s.stream_cache) =
          take-IsSegment content _ _ n s.stream_cache a.stream fits in
        let whole : length (take n s.stream_cache) ≡ h.block_size
            → IsBlockOf content h s.last_block (take n s.stream_cache) =
          (λ len k lt hq.
            let e : kept_from s.last_block + k ≡ s.last_block * h.block_size + k =
              omega (arith, cut.size, len, next, pos) in
            cut.bytes k (omega (arith, len, lt)) ∙ ap content e) in
        let (mask', good, keeps, here) =
          save_block-Good s (take n s.stream_cache) mask a.good
            (omega (arith, a.reached, a.inside, next, pos)) whole in
        let now : s.cur_pos / h.block_size ≡ s.last_block + 1 =
          block_unique s.cur_pos h.block_size (s.last_block + 1) pos a.reached
            (omega (arith, a.near, next_block (s.last_block + 1) h.block_size)) in
        let same = (save_block_same s (take n s.stream_cache)).0 in
        let off : kept_from s.last_block + n ≡ (s.last_block + 1) * h.block_size =
          omega (arith, next, a.from) in
        let kept : kept_from (s.last_block + 1) ≡ (s.last_block + 1) * h.block_size =
          omega (arith, a.from) in
        let rest : IsSegment content (kept_from s.last_block + n) s.cur_pos
            (drop n s.stream_cache) =
          drop-IsSegment content _ _ n s.stream_cache a.stream fits in
        rw (next_block_reached-moved s n wanted fits) (record {
          mask = mask';
          good = good;
          after = rw same (omega (arith, a.from, a.reached));
          inside = rw same a.inside;
          block = rw same refl;
          start = rw same refl;
          ends = rw same refl;
          stream = rw same (rw (now, kept) (start_at content off rest));
          passed = λ i from lt. elim (Bool-cases (ltb i s.last_block)) [
            | inl before ↦ keeps i (a.passed i from (ltb→lt _ _ before))
            | inr last ↦
                let e : i ≡ s.last_block = omega (tests, last, lt, now) in
                rw e (
                  here (
                    omega (
                      arith,
                      length-take n s.stream_cache,
                      a.stream.size,
                      a.reached,
                      next,
                      block_le s.last_block i h.block_size (omega (arith, e)),
                      block_le i s.last_block h.block_size (omega (arith, e)),
                      from,
                    )))
          ];
        })

    -- A chunk no longer than a block, with the content's bytes from where the stream is.
    pub receive-Inv :
        (s : RemoteState) (chunk : List ℕ)
        → Inv s
        → IsSegment content s.cur_pos (s.cur_pos + length chunk) chunk
        → length chunk ≤ h.block_size
        → s.cur_pos + length chunk ≤ h.file_size
        → Inv (receive sync_process_interval h.block_size h.file_size t s chunk)
    unfolding receive
    receive-Inv s chunk v seg short inside =
        let cur = s.cur_pos + length chunk in
        let (lo, hi) = block_bounds s.cur_pos h.block_size pos in
        let (lo', hi') = block_bounds cur h.block_size pos in
        let stream : IsSegment content (kept_from (s.cur_pos / h.block_size)) cur
            (s.stream_cache ++ chunk) =
          IsSegment-append content _ s.cur_pos cur s.stream_cache chunk v.stream seg in
        let next = next_block (s.cur_pos / h.block_size) h.block_size in
        elim (Bool-cases (cur / h.block_size == s.last_block)) [
          | inl same ↦
              let e : cur / h.block_size ≡ s.cur_pos / h.block_size =
                omega (tests, same, v.block) in
              rw (same, receive)
                (record {
                  mask = v.mask;
                  good = v.good;
                  after = omega (arith, v.after);
                  inside = inside;
                  block = omega (arith, v.block, e);
                  start = rw e v.start;
                  ends = rw e v.ends;
                  stream = rw e stream;
                  passed = v.passed;
                })
          | inr other ↦
              let above : s.cur_pos / h.block_size < cur / h.block_size =
                elim (Bool-cases (ltb (s.cur_pos / h.block_size) (cur / h.block_size))) [
                  | inl yes_above ↦ ltb→lt _ _ yes_above
                  | inr not_above ↦
                      let differs : cur / h.block_size ≢ s.last_block = omega (tests, other) in
                      let low : cur / h.block_size + 1 ≤ s.cur_pos / h.block_size =
                        omega (tests, not_above, differs, v.block) in
                      absurd (
                        omega (
                          arith,
                          block_le (cur / h.block_size + 1) (s.cur_pos / h.block_size) h.block_size
                              low,
                          next_block (cur / h.block_size) h.block_size,
                          lo,
                          hi',
                        ))
                ] in
              let reached : (s.cur_pos / h.block_size + 1) * h.block_size ≤ cur = omega (
                arith,
                block_le (s.cur_pos / h.block_size + 1) (cur / h.block_size) h.block_size
                    (omega (arith, above)),
                lo',
              ) in
              let ends' : s.last_block_end_pos ≡ (s.cur_pos / h.block_size + 1) * h.block_size =
                omega (arith, v.ends, reached, inside) in
              let ready : AtNext
                  (record s {
                    cur_block = cur / h.block_size;
                    stream_cache = s.stream_cache ++ chunk;
                    cur_pos = cur;
                  })
                  v.mask =
                record {
                  good = v.good;
                  start = rw v.block v.start;
                  ends = rw v.block ends';
                  from = rw v.block (omega (arith, v.after, hi, next));
                  reached = rw v.block reached;
                  near = rw v.block (omega (arith, hi, next, short));
                  inside = inside;
                  stream = rw v.block stream;
                  passed = v.passed;
                } in
              rw (other, receive) (next_block_reached-Inv _ v.mask ready)
        ]

    pub receive_same :
        (s : RemoteState) (chunk : List ℕ)
        → let s' = receive sync_process_interval h.block_size h.file_size t s chunk in
          (s'.cur_pos ≡ s.cur_pos + length chunk)
          × (s'.cur_block ≡ (s.cur_pos + length chunk) / h.block_size)
    unfolding receive next_block_reached
    receive_same s chunk =
        elim (Bool-cases ((s.cur_pos + length chunk) / h.block_size == s.last_block)) [
          | inl same ↦ rw (same, receive) (refl, refl)
          | inr other ↦
              let s' : RemoteState = record s {
                cur_block = (s.cur_pos + length chunk) / h.block_size;
                stream_cache = s.stream_cache ++ chunk;
                cur_pos = s.cur_pos + length chunk;
              } in
              rw (other, receive) ((save_block_same s' _).0, (save_block_same s' _).2)
        ]
