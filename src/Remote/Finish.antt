-- ===== src/Remote/Finish.antt =====
-- What DoTask does with the bytes that are left when no more chunks come.
use dingospeed.Base.{
  ℕ, ◌+◌, ◌-◌, ◌*◌, ◌/◌, ◌%◌, ◌<◌, ◌≡◌, ◌≢◌, ◌⊎◌, refl, ap, ◌∙◌, List, ◌++◌, true, false, arith,
  ◌==◌, ◌&&◌, tests, lt→ltb, eq→==, ne→==, either_way, if◌then◌else◌, length, replicate, Bool-cases,
  inl, inr, length-append, length-replicate,
}
use dingospeed.Bitset.{Bitset}
use dingospeed.Header.{DingCacheHeader}
use dingospeed.Block.{block_bounds, block_lt}
use dingospeed.Task.{DownloadTask}
use dingospeed.Disk.Bytes.{byte-append}
use dingospeed.Cache.{write_block}
use dingospeed.Cache.Sync.{next_block}
use dingospeed.Cache.Blocks.{IsBlockOf}
use dingospeed.Remote.{RemoteState, block_test, is_missing, last_part, finish_with, finish}
use dingospeed.Remote.Store.{Good, Keeps, put_block}
use dingospeed.Remote.Steps.{Inv, kept_from}

module _ (content : ℕ → ℕ) (h : DingCacheHeader) (sync_process_interval : ℕ) (t : DownloadTask)
    (pos : 0 < h.block_size)
    (blocks : (i : ℕ) → i * h.block_size < h.file_size → i < h.block_number) where
  abbrev pub IsBetween : RemoteState → Type 0
  IsBetween = Inv content h sync_process_interval t pos blocks

  -- curBlock is the block of curPos once a chunk was received.
  abbrev pub IsKnown : RemoteState → Type 0
  IsKnown s = (s.cur_block ≡ s.cur_pos / h.block_size) ⊎ (length s.stream_cache ≡ 0)

  -- What is left of the last block, filled up with zeros.
  last-IsBlockOf :
      (s : RemoteState)
      → IsBetween s
      → s.cur_block ≡ s.cur_pos / h.block_size
      → s.cur_block + 1 ≡ h.block_number
      → length s.stream_cache ≡ h.file_size % h.block_size
      → h.file_size % h.block_size ≢ 0
      → IsBlockOf content h s.cur_block
          (s.stream_cache ++ replicate (h.block_size - length s.stream_cache) 0)
  last-IsBlockOf s v eb last part more k lt hq =
      let (lo, hi) = block_bounds s.cur_pos h.block_size pos in
      let (flo, fhi) = block_bounds h.file_size h.block_size pos in
      let below : h.file_size / h.block_size < h.block_number =
        blocks (h.file_size / h.block_size) (omega (arith, flo, more)) in
      let upto : s.cur_pos / h.block_size < h.file_size / h.block_size + 1 =
        block_lt (s.cur_pos / h.block_size) (h.file_size / h.block_size + 1) h.block_size (
          omega (arith, lo, v.inside, fhi, next_block (h.file_size / h.block_size) h.block_size)) in
      let same : s.cur_pos / h.block_size ≡ h.file_size / h.block_size =
        omega (arith, below, upto, eb, last) in
      let starts : s.cur_pos / h.block_size * h.block_size
          ≡ h.file_size / h.block_size * h.block_size =
        ap (λ x. x * h.block_size) same in
      let kept : kept_from content h sync_process_interval t pos blocks (s.cur_pos / h.block_size)
          ≡ s.cur_pos / h.block_size * h.block_size =
        omega (arith, v.stream.size, part, v.inside, starts) in
      let block_start : s.cur_block * h.block_size ≡ s.cur_pos / h.block_size * h.block_size =
        ap (λ x. x * h.block_size) eb in
      let in_stream : k < length s.stream_cache = omega (arith, part, starts, block_start, hq) in
      let e : kept_from content h sync_process_interval t pos blocks (s.cur_pos / h.block_size) + k
          ≡ s.cur_block * h.block_size + k =
        omega (arith, kept, block_start) in
      byte-append s.stream_cache _ k
      ∙ rw (lt→ltb k (length s.stream_cache) in_stream) (v.stream.bytes k in_stream ∙ ap content e)

  finish_with_short :
      (s : RemoteState) (raw : List ℕ) (i : ℕ)
      → length raw ≢ h.block_size
      → (finish_with sync_process_interval h.block_size h.file_size t s (raw, i)).world ≡ s.world
  unfolding finish_with
  finish_with_short s raw i short =
      either_way (λ (x : RemoteState). x.world ≡ s.world) (length raw == 0) (λ _. refl)
        (λ _. rw (ne→== (length raw) h.block_size short) refl)

  finish_with_full :
      (s : RemoteState) (raw : List ℕ) (i : ℕ)
      → length raw ≡ h.block_size
      → (finish_with sync_process_interval h.block_size h.file_size t s (raw, i)).world
        ≡ (if is_missing (block_test s.world i) then (write_block i raw s.world).1 else s.world)
  unfolding finish_with
  finish_with_full s raw i full =
      let some_bytes : (length raw == 0) ≡ false =
        ne→== (length raw) 0 (omega (arith, full, pos)) in
      let whole : (length raw == h.block_size) ≡ true = eq→== (length raw) h.block_size full in
      elim (Bool-cases (is_missing (block_test s.world i))) [
        | inl missing ↦ rw (some_bytes, finish_with) (rw whole (rw missing refl))
        | inr there ↦ rw (some_bytes, finish_with) (rw whole (rw there refl))
      ]

  -- The stream is shorter than a block.
  stream_short : (s : RemoteState) → IsBetween s → length s.stream_cache < h.block_size
  stream_short s v =
      let (lo, hi) = block_bounds s.cur_pos h.block_size pos in omega (arith, v.stream.size, hi)

  last_part_padded :
      (s : RemoteState)
      → s.cur_block + 1 ≡ h.block_number
      → length s.stream_cache ≡ h.file_size % h.block_size
      → last_part sync_process_interval h.block_size h.file_size t s h.block_number
        ≡ (s.stream_cache ++ replicate (h.block_size - length s.stream_cache) 0, s.cur_block)
  unfolding last_part
  last_part_padded s last part =
      rw (eq→== (s.cur_block + 1) h.block_number last)
        (rw (eq→== (length s.stream_cache) (h.file_size % h.block_size) part) refl)

  -- In every other case the stream stays as it is.
  last_part_plain :
      (s : RemoteState)
      → (s.cur_block + 1 ≡ h.block_number → length s.stream_cache ≢ h.file_size % h.block_size)
      → (last_part sync_process_interval h.block_size h.file_size t s h.block_number).0
        ≡ s.stream_cache
  unfolding last_part
  last_part_plain s other = elim (Bool-cases (s.cur_block + 1 == h.block_number)) [
    | inl last ↦ rw last (
        rw
          (ne→== (length s.stream_cache) (h.file_size % h.block_size) (other (omega (tests, last))))
          refl)
    | inr inner ↦ rw inner refl
  ]

  abbrev pub Finishes : (s : RemoteState) → IsBetween s → Type 0
  Finishes s v =
      (mask' : Bitset) × Good content h
        (finish sync_process_interval h.block_size h.file_size t s h.block_number).world mask'
      × Keeps content h v.mask mask'

  finish_plain :
      (s : RemoteState) (v : IsBetween s)
      → (s.cur_block + 1 ≡ h.block_number → length s.stream_cache ≢ h.file_size % h.block_size)
      → Finishes s v
  unfolding finish
  finish_plain s v other =
      let part = last_part sync_process_interval h.block_size h.file_size t s h.block_number in
      let short : length part.0 ≢ h.block_size =
        rw (last_part_plain s other) (omega (arith, stream_short s v)) in
      (v.mask, rw (finish_with_short s part.0 part.1 short) v.good, λ i e. e)

  pub finish-Finishes :
      (s : RemoteState) (v : IsBetween s)
      → IsKnown s
      → h.file_size % h.block_size ≢ 0
      → Finishes s v
  unfolding finish
  finish-Finishes s v (inr nothing) more =
      finish_plain s v (λ _ part. more (omega (arith, part, nothing)))
  finish-Finishes s v (inl eb) more =
      elim (Bool-cases (
        s.cur_block + 1 == h.block_number && length s.stream_cache == h.file_size % h.block_size)) [
          | inr other ↦ finish_plain s v (λ last part. absurd (ground (arith, other, last, part)))
          | inl both ↦
              let last : s.cur_block + 1 ≡ h.block_number = ground (arith, both) in
              let part : length s.stream_cache ≡ h.file_size % h.block_size =
                ground (arith, both) in
              let raw = s.stream_cache ++ replicate (h.block_size - length s.stream_cache) 0 in
              let full : length raw ≡ h.block_size = omega (
                arith,
                stream_short s v,
                length-append s.stream_cache (replicate (h.block_size - length s.stream_cache) 0),
                length-replicate {A = ℕ} (h.block_size - length s.stream_cache) 0,
              ) in
              let (mask', good, keeps, _) =
                put_block content h s.world v.mask s.cur_block raw v.good (omega (arith, last)) full
                  (last-IsBlockOf s v eb last part more) in
              (
                mask',
                rw (last_part_padded s last part)
                    (rw (finish_with_full s raw s.cur_block full) good),
                keeps,
              )
        ]
