-- ===== src/CacheRead/Laws.antt =====
-- What a task that reads from the cache sends: the content of its range.
use dingospeed.Base.{
  ℕ, zero, suc, ◌+◌, ◌-◌, ◌*◌, ◌/◌, ◌≤◌, ◌<◌, ◌≡◌, refl, ap, ◌∙◌, String, List, [], ◌∷◌, ◌++◌, Bool,
  true, false, some, ok, arith, ltb, tests, ltb→lt, lt→ltb, le→ltb, length, take, drop, min, max,
  Bool-cases, inl, inr, length-append, length-take, length-drop, ne→==,
}
use dingospeed.Header.{DingCacheHeader}
use dingospeed.Block.{get_block_info, block_bounds, block_unique, block_reached}
use dingospeed.Task.{DownloadTask}
use dingospeed.Ranges.{has_block}
use dingospeed.Disk.Bytes.{byte, byte-append, byte-take, byte-drop}
use dingospeed.Cache.{World}
use dingospeed.Cache.Sync.{next_block, block_has_number}
use dingospeed.Cache.Blocks.{IsRightCache}
use dingospeed.Reader.{BlockCache, ReadSettings, read_block}
use dingospeed.Reader.Laws.{IsBlockAt, NoCollision, IsRightMemory, read_block-Reads}
use dingospeed.CacheRead.{Sent, finished, chunk_bounds, out_loop, out_from, out_result}

-- The chunks as one run of bytes.
abbrev pub joined : List (List ℕ) → List ℕ
joined [] = []
joined (c ∷ cs) = c ++ joined cs

-- The bytes of the content from `a` up to `b`.
pub record IsSegment (content : ℕ → ℕ) (a b : ℕ) (xs : List ℕ) : Type 0 where
  pub size : a + length xs ≡ b
  pub bytes : (k : ℕ) → k < length xs → byte xs k ≡ content (a + k)

pub IsSegment-append :
    (content : ℕ → ℕ) (a m b : ℕ) (xs ys : List ℕ)
    → IsSegment content a m xs
    → IsSegment content m b ys
    → IsSegment content a b (xs ++ ys)
IsSegment-append content a m b xs ys p q = record {
  size = omega (arith, p.size, q.size, length-append xs ys);
  bytes = λ k lt. elim (Bool-cases (ltb k (length xs))) [
    | inl first ↦ byte-append xs ys k ∙ rw first (p.bytes k (ltb→lt k (length xs) first))
    | inr later ↦
        let shift : m + (k - length xs) ≡ a + k = omega (tests, later, p.size) in
        byte-append xs ys k
        ∙ rw later (
            q.bytes (k - length xs) (omega (tests, later, lt, length-append xs ys))
            ∙ ap content shift)
  ];
}

-- A chunk cut from a block.
cut-IsSegment :
    (content : ℕ → ℕ) (h : DingCacheHeader) (i s n : ℕ) (raw : List ℕ)
    → IsBlockAt content h i raw
    → s + n ≤ h.block_size
    → i * h.block_size + s + n ≤ h.file_size
    → IsSegment content (i * h.block_size + s) (i * h.block_size + s + n) (take n (drop s raw))
cut-IsSegment content h i s n raw good fits inside =
    let len : length (take n (drop s raw)) ≡ n =
      omega (arith, length-take n (drop s raw), length-drop s raw, good.0) in
    record {
      size = omega (arith, len);
      bytes = λ k lt.
          let e : i * h.block_size + (s + k) ≡ i * h.block_size + s + k = omega arith in
          byte-take n (drop s raw) k
          ∙ rw (lt→ltb k n (omega (arith, len))) (
              byte-drop s raw k
              ∙ good.1 (s + k) (omega (arith, len)) (omega (arith, len))
              ∙ ap content e);
    }

module _ (content : ℕ → ℕ) (w : World) (h : DingCacheHeader) (body : List ℕ)
    (right : IsRightCache content w h body) {M : Type 0} (cache : BlockCache M)
    (md5 : String → String) (settings : ReadSettings)
    (apart : NoCollision content w h body right cache md5 settings) (ctx_err send_err : ℕ → Bool)
    (live : (k : ℕ) → (ctx_err k ≡ false) × (send_err k ≡ false)) (t : DownloadTask)
    (hs : t.range_start_pos < t.range_end_pos) (he : t.range_end_pos ≤ h.file_size)
    (present : (i : ℕ)
      → i * h.block_size < t.range_end_pos
      → t.range_start_pos < (i + 1) * h.block_size
      → has_block h i ≡ ok true) where
  abbrev IsRightHere : M → Type 0
  IsRightHere = IsRightMemory content w h body right cache md5 settings

  -- All is sent, from `cur` on.
  abbrev pub Delivers : ℕ → Sent M → Type 0
  Delivers cur r =
      IsSegment content cur t.range_end_pos (joined r.chunks)
      × (r.end ≡ finished t.range_end_pos)
      × IsRightHere r.memory

  -- The part of block `k` that lies in the range.
  abbrev from : ℕ → ℕ
  from k = max t.range_start_pos (k * h.block_size) - k * h.block_size

  abbrev size_in : ℕ → ℕ
  size_in k = min t.range_end_pos ((k + 1) * h.block_size) - k * h.block_size - from k

  bounds_in :
      (k cur n : ℕ)
      → cur / h.block_size ≡ k
      → n ≡ h.block_size
      → let info = get_block_info cur h.block_size h.file_size in
        chunk_bounds t info.1 info.2 n
        ≡ (from k, min t.range_end_pos ((k + 1) * h.block_size) - k * h.block_size)
  unfolding get_block_info chunk_bounds
  bounds_in k cur n ek en =
      let next = next_block k h.block_size in
      let whole : min t.range_end_pos (min ((k + 1) * h.block_size) h.file_size)
          ≡ min t.range_end_pos ((k + 1) * h.block_size) =
        omega (arith, he) in
      let fits : min t.range_end_pos ((k + 1) * h.block_size) - k * h.block_size ≤ n =
        omega (arith, next, en) in
      rw ek (
        rw whole (
          rw (le→ltb n (min t.range_end_pos ((k + 1) * h.block_size) - k * h.block_size) fits)
            refl))

  -- One round, on a block that is read.
  round :
      (rounds k cur : ℕ) (m : M) (raw : List ℕ)
      → 0 < h.block_size
      → cur / h.block_size ≡ k
      → k * h.block_size < t.range_end_pos
      → t.range_start_pos < (k + 1) * h.block_size
      → (read_block cache md5 settings k w m).0 ≡ ok (some raw)
      → length raw ≡ h.block_size
      → let chunk = take (size_in k) (drop (from k) raw) in
        let rest =
          out_loop cache md5 settings ctx_err send_err w t h rounds
            (k + 1)
            (cur + length chunk)
            (read_block cache md5 settings k w m).1 in
        out_loop cache md5 settings ctx_err send_err w t h (suc rounds) k cur m
        ≡ record { chunks = chunk ∷ rest.chunks; memory = rest.memory; end = rest.end }
  unfolding out_loop
  round rounds k cur m raw pos ek inside reach er el =
      let next = next_block k h.block_size in
      rw (live k).0 (
        rw (present k inside reach) (
          rw er (
            rw (bounds_in k cur (length raw) ek el) (
              rw (ne→== (length raw) 0 (omega (arith, el))) (
                rw (le→ltb (length raw) (from k) (omega (arith, el, next))) (
                  rw
                    (le→ltb (min t.range_end_pos ((k + 1) * h.block_size) - k * h.block_size)
                      (from k) (omega (arith, next, hs)))
                    (rw (live k).1 refl)))))))

  out_loop-Delivers :
      (rounds k cur : ℕ) (m : M)
      → k + rounds ≡ (t.range_end_pos - 1) / h.block_size + 1
      → t.range_start_pos < (k + 1) * h.block_size
      → cur ≡ min t.range_end_pos (max t.range_start_pos (k * h.block_size))
      → IsRightHere m
      → Delivers cur (out_loop cache md5 settings ctx_err send_err w t h rounds k cur m)
  unfolding out_loop
  out_loop-Delivers zero k cur m ek reach ec r =
      let shape = right.0.shape in
      let past =
        block_reached k t.range_end_pos h.block_size shape.block_size (omega (arith, hs)) in
      let e : cur ≡ t.range_end_pos = elim (Bool-cases (ltb (k * h.block_size) t.range_end_pos)) [
        | inl below ↦ absurd (omega (arith, past.0 (ltb→lt _ _ below), ek))
        | inr above ↦ omega (tests, above, ec)
      ] in
      (record { size = omega (arith, e); bytes = λ j lt. absurd (omega arith) }, ap finished e, r)
  out_loop-Delivers (suc rounds) k cur m ek reach ec r =
      let shape = right.0.shape in
      let next = next_block k h.block_size in
      let inside =
        (block_reached k t.range_end_pos h.block_size shape.block_size (omega (arith, hs))).1
          (omega (arith, ek)) in
      let in_block : cur / h.block_size ≡ k =
        block_unique cur h.block_size k shape.block_size (omega (arith, ec, inside, hs))
          (omega (arith, ec, reach, next, shape.block_size)) in
      let lt : k < h.block_number =
        block_has_number h k shape right.0.small (omega (arith, inside, he)) in
      let (raw, m', er, good, r') =
        (read_block-Reads content w h body right cache md5 settings apart k m lt r).0
          (present k inside reach) in
      let er₀ : (read_block cache md5 settings k w m).0 ≡ ok (some raw) = ap (λ x. x.0) er in
      let kept : IsRightHere (read_block cache md5 settings k w m).1 = rw (ap (λ x. x.1) er) r' in
      let segment =
        cut-IsSegment content h k (from k) (size_in k) raw good (omega (arith, next))
          (omega (arith, next, he, inside, hs)) in
      let cur_from : k * h.block_size + from k ≡ cur = omega (arith, ec, inside, hs) in
      let chunk = take (size_in k) (drop (from k) raw) in
      let (rest, ended, r'') =
        out_loop-Delivers rounds (k + 1) (cur + length chunk) _ (omega (arith, ek))
          (omega (arith, next_block (k + 1) h.block_size, reach))
          (omega (arith, segment.size, cur_from, next, reach, ec, inside, hs)) kept in
      rw (round rounds k cur m raw shape.block_size in_block inside reach er₀ good.0) (
        IsSegment-append content cur (cur + length chunk) t.range_end_pos chunk _
            (record {
              size = refl;
              bytes = λ j lj. segment.bytes j lj ∙ ap (λ a. content (a + j)) cur_from;
            })
            rest,
        ended,
        r'',
      )

  opened :
      (m : M)
      → out_result cache md5 settings ctx_err send_err w t m
        ≡ out_from cache md5 settings ctx_err send_err w t (some h) m
  unfolding out_result
  opened m = ap (λ x. out_from cache md5 settings ctx_err send_err w t x m) right.0.header

  -- On an open cache whose present blocks hold the content, with a store that is right for it, for a
  -- task whose range is not empty, lies in the file and touches only blocks that are present, and
  -- while the context lives: the task runs to its end, the chunks that it sends are, one after the
  -- other, the content's bytes from the start of the range up to its end, and the store stays right.
  pub out_result-Delivers :
      (m : M)
      → IsRightHere m
      → Delivers t.range_start_pos (out_result cache md5 settings ctx_err send_err w t m)
  unfolding out_from
  out_result-Delivers m r =
      let (lo, hi) = block_bounds t.range_start_pos h.block_size right.0.shape.block_size in
      let start = t.range_start_pos / h.block_size in
      let reached =
        block_reached start t.range_end_pos h.block_size right.0.shape.block_size
          (omega (arith, hs)) in
      rw (opened m) (
        out_loop-Delivers ((t.range_end_pos - 1) / h.block_size + 1 - start) start t.range_start_pos
          m (omega (arith, reached.0 (omega (arith, lo, hs))))
          (omega (arith, hi, next_block start h.block_size)) (omega (arith, lo, hs)) r)
