-- ===== src/Reader/Laws.antt =====
-- A block that is read is right, from the file or from memory, and memory stays right.
use dingospeed.Base.{
  ℕ, zero, suc, ◌+◌, ◌-◌, ◌*◌, ◌/◌, ◌<◌, ◌≡◌, refl, ◌∙◌, String, List, ◌++◌, true, false, Option,
  some, none, Result, ok, arith, ltb, leb, ◌==◌, leb, le→ltb, if◌then◌else◌, length, min,
  Bool-cases, Option-cases, either_way, inl, inr, length-append,
}
use dingospeed.Errors.{Error}
use dingospeed.Bitset.Laws.{bit_at, test_index-bit_at}
use dingospeed.Header.{DingCacheHeader, header_bytes, header_size}
use dingospeed.Header.RoundTrip.{length-header_bytes}
use dingospeed.Block.{block_unique}
use dingospeed.Ranges.{has_block}
use dingospeed.Disk.{read_into}
use dingospeed.Disk.Bytes.{byte-append, byte-read_into}
use dingospeed.Cache.{World, pad_block}
use dingospeed.Cache.Sync.{next_block, block_in_file}
use dingospeed.Cache.Blocks.{IsBlockOf, IsRightCache}
use dingospeed.Reader.{
  BlockCache, ReadSettings, get_block_key, drop_blocks, keep_block, read_ahead,
  read_block_and_cache, read_from_file, read_block,
}

-- A whole block, with the content's bytes as far as the file reaches.
abbrev pub IsBlockAt : (ℕ → ℕ) → DingCacheHeader → ℕ → List ℕ → Type 0
IsBlockAt content h i bytes = (length bytes ≡ h.block_size) × IsBlockOf content h i bytes

lt→leb : (i n : ℕ) → i < n → leb n i ≡ false
lt→leb i n h = ground arith

module _ (content : ℕ → ℕ) (w : World) (h : DingCacheHeader) (body : List ℕ)
    (right : IsRightCache content w h body) where
  has_block_bit : (i : ℕ) → i < h.block_number → has_block h i ≡ ok (bit_at h.block_mask.bits i)
  unfolding has_block
  has_block_bit i lt =
      test_index-bit_at h.block_mask i right.0.mask
        (block_in_file h i right.0.shape right.0.small lt).1

  -- The file has the bytes of a block that is present.
  read_raw :
      (i : ℕ)
      → i < h.block_number
      → bit_at h.block_mask.bits i ≡ true
      → (raw : List ℕ) × (read_into
            (header_bytes h ++ body)
            (header_size h + i * h.block_size)
            h.block_size
          ≡ ok raw)
        × IsBlockAt content h i raw
  read_raw i lt present =
      let s = right.0 in
      let (inside, _) = block_in_file h i s.shape s.small lt in
      let len = length-header_bytes h s.shape.magic in
      let (raw, e, el, eb) =
        byte-read_into (header_bytes h ++ body) (header_size h + i * h.block_size) h.block_size
          (omega (arith, len, length-append (header_bytes h) body, s.room, inside)) in
      (
        raw,
        e,
        (
          el,
          λ k hk hq.
              let same : (i * h.block_size + k) / h.block_size ≡ i =
                block_unique (i * h.block_size + k) h.block_size i s.shape.block_size (omega arith)
                  (omega (arith, next_block i h.block_size)) in
              let shift : header_size h + i * h.block_size + k - length (header_bytes h)
                  ≡ i * h.block_size + k =
                omega (arith, len) in
              eb k hk
              ∙ byte-append (header_bytes h) body (header_size h + i * h.block_size + k)
              ∙ rw
                  (le→ltb (header_size h + i * h.block_size + k) (length (header_bytes h))
                    (omega (arith, len)))
                  (rw shift (right.1 (i * h.block_size + k) hq (rw same present))),
        ),
      )

  -- The position after a block, when another block follows.
  position_next :
      (i : ℕ)
      → i + 1 < h.block_number
      → header_size h
          + i * h.block_size
          + min h.block_size (length (header_bytes h ++ body) - (header_size h + i * h.block_size))
        ≡ header_size h + (i + 1) * h.block_size
  position_next i lt =
      let s = right.0 in
      let (inside, _) = block_in_file h (i + 1) s.shape s.small lt in
      omega (
        arith,
        next_block i h.block_size,
        length-header_bytes h s.shape.magic,
        length-append (header_bytes h) body,
        s.room,
        inside,
      )

  pad_block_full : (raw : List ℕ) → length raw ≡ h.block_size → pad_block h raw ≡ raw
  unfolding pad_block
  pad_block_full raw e = rw (le→ltb (length raw) h.block_size (omega arith)) refl

  module _ {M : Type 0} (cache : BlockCache M) (md5 : String → String)
      (settings : ReadSettings) where
    abbrev key : ℕ → String
    key i = get_block_key cache md5 settings w.cache.path i

    -- No two blocks of the file have one key.
    abbrev pub NoCollision : Type 0
    NoCollision = (i j : ℕ) → i < h.block_number → j < h.block_number → key i ≡ key j → i ≡ j

    -- Every block of the file that is in memory is right.
    abbrev pub IsRightMemory : M → Type 0
    IsRightMemory m =
        (i : ℕ) (bytes : List ℕ)
        → i < h.block_number
        → cache.get m (key i) ≡ some bytes
        → IsBlockAt content h i bytes

    delete-IsRightMemory : (m : M) (k : String) → IsRightMemory m → IsRightMemory (cache.delete m k)
    delete-IsRightMemory m k r i bytes lt e = r i bytes lt (cache.get-delete m k (key i) bytes e)

    drop_blocks-IsRightMemory :
        (i j : ℕ) (m : M)
        → IsRightMemory m
        → IsRightMemory (drop_blocks cache md5 settings w.cache.path i j m)
    unfolding drop_blocks
    drop_blocks-IsRightMemory i zero m r = delete-IsRightMemory m _ r
    drop_blocks-IsRightMemory i (suc j) m r = elim (Bool-cases (ltb i (suc j))) [
      | inl before ↦ rw before (drop_blocks-IsRightMemory i j m r)
      | inr from ↦ rw from (drop_blocks-IsRightMemory i j _ (delete-IsRightMemory m _ r))
    ]

    module _ (apart : NoCollision) where
      keep_block-IsRightMemory :
          (i : ℕ) (block : List ℕ) (m : M)
          → i < h.block_number
          → IsBlockAt content h i block
          → IsRightMemory m
          → IsRightMemory (keep_block cache md5 settings w.cache.path i block m)
      unfolding keep_block
      keep_block-IsRightMemory i block m lt good r =
          let kept : IsRightMemory (cache.put m (key i) block) = (λ j bytes lj e.
            elim (cache.get-put m (key i) (key j) block bytes e) [
              | inl (same, eb) ↦ let eq = apart i j lt lj same in rw (← eq, ← eb) good
              | inr old ↦ r j bytes lj old
            ]) in
          elim (Bool-cases (ltb (settings.prefetch_blocks + 1) i)) [
            | inl again ↦ rw again (delete-IsRightMemory _ _ kept)
            | inr stay ↦ rw stay kept
          ]

      read_ahead-IsRightMemory :
          (rounds i position : ℕ) (m : M)
          → (i < h.block_number → position ≡ header_size h + i * h.block_size)
          → IsRightMemory m
          → IsRightMemory (
              read_ahead cache md5 settings w.cache.path h
                (header_bytes h ++ body)
                rounds
                i
                position
                m)
      unfolding read_ahead
      read_ahead-IsRightMemory zero i position m at r = r
      read_ahead-IsRightMemory (suc rounds) i position m at r =
          elim (Bool-cases (leb h.block_number i)) [
            | inl past ↦ rw past r
            | inr more ↦
                let lt : i < h.block_number = ground (arith, more) in
                let here = at lt in
                rw more (
                  rw (has_block_bit i lt) (elim (Bool-cases (bit_at h.block_mask.bits i)) [
                    | inr absent ↦ rw absent r
                    | inl present ↦
                        let (raw, e, good) = read_raw i lt present in
                        let read : read_into (header_bytes h ++ body) position h.block_size
                            ≡ ok raw =
                          rw here e in
                        rw present (
                          rw read (
                            rw (pad_block_full raw good.0) (
                              read_ahead-IsRightMemory rounds (i + 1) _ _
                                (λ next. rw here (position_next i next))
                                (keep_block-IsRightMemory i raw m lt good r))))
                  ]))
          ]

      read_block_and_cache-IsRightMemory :
          (i position : ℕ) (m : M)
          → (i + 1 < h.block_number → position ≡ header_size h + (i + 1) * h.block_size)
          → IsRightMemory m
          → IsRightMemory (
              read_block_and_cache cache md5 settings w.cache.path h
                (header_bytes h ++ body)
                position
                i
                m)
      unfolding read_block_and_cache
      read_block_and_cache-IsRightMemory i position m at r =
          either_way IsRightMemory settings.memory_low
            (λ _. read_ahead-IsRightMemory settings.prefetch_blocks (i + 1) position m at r)
            (λ _. r)

      -- The answer of a read of block `i` that finds it.
      abbrev pub Reads : ℕ → Result Error (Option (List ℕ)) × M → Type 0
      Reads i r =
          (bytes : List ℕ) × (m' : M) × (r ≡ (ok (some bytes), m'))
          × IsBlockAt content h i bytes
          × IsRightMemory m'

      read_from_file_present :
          (i : ℕ) (m : M) (raw : List ℕ)
          → i < h.block_number
          → bit_at h.block_mask.bits i ≡ true
          → read_into (header_bytes h ++ body) (header_size h + i * h.block_size) h.block_size
            ≡ ok raw
          → length raw ≡ h.block_size
          → let file = header_bytes h ++ body in
            let offset = header_size h + i * h.block_size in
            read_from_file cache md5 settings w h i m ≡ (
              ok (some raw),
              if settings.enabled
                  then read_block_and_cache cache md5 settings w.cache.path h file
                      (offset + min h.block_size (length file - offset))
                      i
                      m
                  else m,
            )
      unfolding read_from_file
      read_from_file_present i m raw lt present e el =
          rw (has_block_bit i lt, read_from_file)
            (rw present (rw right.0.file (rw e (rw (pad_block_full raw el) refl))))

      read_from_file-Reads :
          (i : ℕ) (m : M)
          → i < h.block_number
          → bit_at h.block_mask.bits i ≡ true
          → IsRightMemory m
          → Reads i (read_from_file cache md5 settings w h i m)
      read_from_file-Reads i m lt present r =
          let (raw, e, good) = read_raw i lt present in
          let ahead = read_block_and_cache-IsRightMemory i _ m (λ next. position_next i next) r in
          rw (read_from_file_present i m raw lt present e good.0) (
            either_way (λ m'. Reads i (ok (some raw), m')) settings.enabled
              (λ _. (raw, _, refl, good, ahead)) (λ _. (raw, m, refl, good, r)))

      from_memory-Reads :
          (i : ℕ) (m : M) (block : List ℕ)
          → i < h.block_number
          → cache.get m (key i) ≡ some block
          → IsRightMemory m
          → Reads i (
            ok (some block),
            if i == h.block_number - 1
                then drop_blocks cache md5 settings w.cache.path i settings.prefetch_blocks m
                else m,
          )
      from_memory-Reads i m block lt found r = elim (Bool-cases (i == h.block_number - 1)) [
        | inl last ↦ rw last (
          block,
          _,
          refl,
          r i block lt found,
          drop_blocks-IsRightMemory i settings.prefetch_blocks m r,
        )
        | inr inner ↦ rw inner (block, m, refl, r i block lt found, r)
      ]

      -- What is done once the store has answered.
      abbrev answered : ℕ → M → Option (List ℕ) → Result Error (Option (List ℕ)) × M
      answered i m (some block) = (
        ok (some block),
        if i == h.block_number - 1
            then drop_blocks cache md5 settings w.cache.path i settings.prefetch_blocks m
            else m,
      )
      answered i m none = read_from_file cache md5 settings w h i m

      read_block-opened :
          (i : ℕ) (m : M)
          → i < h.block_number
          → read_block cache md5 settings i w m
            ≡ answered i m (if settings.enabled then cache.get m (key i) else none)
      unfolding read_block
      read_block-opened i m lt =
          rw right.0.opened (rw right.0.header (rw (lt→leb i h.block_number lt) refl))

      -- On an open cache whose present blocks hold the content, with a store whose blocks of this
      -- file are right and under keys of their own, whatever the settings: reading a block of the
      -- file that is present gives a whole block with the content's bytes, read from memory or from
      -- the file, and the store that is left, with the blocks that were read ahead, is right again.
      -- Reading a block that is neither present nor in the store gives no block and no error, and
      -- leaves the store as it was.
      pub read_block-Reads :
          (i : ℕ) (m : M)
          → i < h.block_number
          → IsRightMemory m
          → (has_block h i ≡ ok true → Reads i (read_block cache md5 settings i w m))
            × (has_block h i ≡ ok false
                → cache.get m (key i) ≡ none
                → read_block cache md5 settings i w m ≡ (ok none, m))
      unfolding read_from_file
      read_block-Reads i m lt r = (
        λ there.
            let present : bit_at h.block_mask.bits i ≡ true = cc (has_block_bit i lt, there) in
            let file = read_from_file-Reads i m lt present r in
            rw (read_block-opened i m lt) (
              either_way (λ found. Reads i (answered i m found)) settings.enabled
                (λ _. elim (Option-cases (cache.get m (key i))) [
                  | inl missing ↦ rw missing file
                  | inr (block, found) ↦ rw found (from_memory-Reads i m block lt found r)
                ])
                (λ _. file)),
        λ gone missing.
            let file : read_from_file cache md5 settings w h i m ≡ (ok none, m) =
              rw (gone, read_from_file) refl in
            rw (read_block-opened i m lt) (
              either_way (λ found. answered i m found ≡ (ok none, m)) settings.enabled
                (λ _. rw missing file) (λ _. file)),
      )
