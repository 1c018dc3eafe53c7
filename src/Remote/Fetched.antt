-- ===== src/Remote/Fetched.antt =====
-- A remote task as a whole: the range is fetched from the servers and written to the cache file.
use dingospeed.Base.{
  ℕ, ◌+◌, ◌-◌, ◌*◌, ◌/◌, ◌%◌, ◌≤◌, ◌<◌, ◌≡◌, ◌≢◌, refl, sym, ap, ◌∙◌, String, List, [], ◌∷◌, ◌++◌,
  Bool, true, Result, ok, arith, length, length-append, append-nil, lt→ltb, le→ltb,
}
use mathlib.Core.Path.{subst}
use dingospeed.Bitset.{Bitset}
use dingospeed.Bitset.Laws.{bit_at}
use dingospeed.Header.{DingCacheHeader}
use dingospeed.Task.{DownloadTask}
use dingospeed.Cache.{World}
use dingospeed.Disk.Bytes.{byte, byte-append}
use dingospeed.Http.{Connection}
use dingospeed.Fetch.{Server, FetchError, get_file_range_from_remote}
use dingospeed.Fetch.Laws.{IsHonest, get_file_range_from_remote-IsSegment}
use dingospeed.CacheRead.Laws.{IsSegment, joined}
use dingospeed.Remote.{do_task}
use dingospeed.Remote.Store.{Good}
use dingospeed.Remote.Laws.{Arrives, arrived, arrived_from, do_task-Good}

abbrev pub NoneLonger : ℕ → List (List ℕ) → Type 0
NoneLonger n [] = Unit {0}
NoneLonger n (c ∷ cs) = (length c ≤ n) × NoneLonger n cs

first-IsSegment :
    (content : ℕ → ℕ) (a b : ℕ) (c rest : List ℕ)
    → IsSegment content a b (c ++ rest)
    → IsSegment content a (a + length c) c
first-IsSegment content a b c rest p = record {
  size = refl;
  bytes = λ k lt.
      sym (byte-append c rest k ∙ rw (lt→ltb k (length c) lt) refl)
      ∙ p.bytes k (omega (arith, lt, length-append c rest));
}

rest-IsSegment :
    (content : ℕ → ℕ) (a b : ℕ) (c rest : List ℕ)
    → IsSegment content a b (c ++ rest)
    → IsSegment content (a + length c) b rest
rest-IsSegment content a b c rest p = record {
  size = omega (arith, p.size, length-append c rest);
  bytes = λ k lt.
      let k' = length c + k in
      let e : k' - length c ≡ k = omega arith in
      let here : byte (c ++ rest) k' ≡ byte rest k =
        byte-append c rest k' ∙ rw (le→ltb k' (length c) (omega arith)) (ap (byte rest) e) in
      let shift : a + k' ≡ a + length c + k = omega arith in
      sym here ∙ p.bytes k' (omega (arith, lt, length-append c rest)) ∙ ap content shift;
}

IsSegment-Arrives :
    (content : ℕ → ℕ) (n a b : ℕ) (cs : List (List ℕ))
    → IsSegment content a b (joined cs)
    → NoneLonger n cs
    → Arrives content n a cs × (arrived a cs ≡ b)
IsSegment-Arrives content n a b [] p short = (tt, omega (arith, p.size))
IsSegment-Arrives content n a b (c ∷ cs) p (short, rest) =
    let (arrives, at) =
      IsSegment-Arrives content n (a + length c) b cs (rest-IsSegment content a b c (joined cs) p)
        rest in
    ((first-IsSegment content a b c (joined cs) p, short, arrives), at)

-- The first of the chunks that arrive.
Arrives-first :
    (content : ℕ → ℕ) (n a : ℕ) (xs ys : List (List ℕ))
    → Arrives content n a (xs ++ ys)
    → Arrives content n a xs × (arrived a xs ≤ arrived a (xs ++ ys))
Arrives-first content n a [] ys p = (tt, arrived_from a ys)
Arrives-first content n a (x ∷ xs) ys (segment, short, rest) =
    let (first, before) = Arrives-first content n (a + length x) xs ys rest in
    ((segment, short, first), before)

module _ (content : ℕ → ℕ) (h : DingCacheHeader) (sync_process_interval : ℕ) (t : DownloadTask)
    (pos : 0 < h.block_size)
    (blocks : (i : ℕ) → i * h.block_size < h.file_size → i < h.block_number) (server : Server)
    (connection : Connection) (honest : IsHonest content t.range_end_pos server) (is_cluster : Bool)
    (official_domain : String) (attempts : ℕ) where
  -- On an open cache whose present blocks hold the content, for a task of a range in the file, when the
  -- file size is no multiple of the block size: if the fetch of the range from servers that send the
  -- content ends without an error, and none of its chunks is longer than a block, then after the task
  -- every present block holds the content, also if the receiver sees that the context is done after
  -- some of the chunks; and if it takes them all, up to the close of the channel, each block that starts
  -- in the range and ends in it is present.
  pub fetched-Good :
      (decompress : List ℕ → Result FetchError (List ℕ)) (domain : String) (w : World)
      → Good content h w h.block_mask
      → h.file_size % h.block_size ≢ 0
      → t.range_start_pos ≤ t.range_end_pos
      → t.range_end_pos ≤ h.file_size
      → let r =
          get_file_range_from_remote t.range_start_pos t.range_end_pos server connection is_cluster
            official_domain attempts decompress domain in
        r.0 ≡ ok tt
        → NoneLonger h.block_size r.1
        → (taken missed : List (List ℕ)) (cancelled : Bool) → r.1 ≡ taken ++ missed
        → (mask' : Bitset) × Good content h
            (do_task sync_process_interval h.block_size h.file_size t w h.block_number taken
              cancelled).world
            mask'
          × ((i : ℕ)
              → missed ≡ []
              → t.range_start_pos ≤ i * h.block_size
              → i < t.range_end_pos / h.block_size
              → bit_at mask'.bits i ≡ true)
  fetched-Good decompress domain w good more order inside fine short taken missed cancelled split =
      let chunks =
        (get_file_range_from_remote t.range_start_pos t.range_end_pos server connection is_cluster
          official_domain attempts decompress domain).1 in
      let segment =
        get_file_range_from_remote-IsSegment content t.range_start_pos t.range_end_pos server
          connection honest is_cluster official_domain attempts decompress domain order fine in
      let (arrives, at) =
        IsSegment-Arrives content h.block_size t.range_start_pos t.range_end_pos chunks segment
          short in
      let (first, before) =
        Arrives-first content h.block_size t.range_start_pos taken missed
          (subst (λ cs. Arrives content h.block_size t.range_start_pos cs) split arrives) in
      let end : arrived t.range_start_pos (taken ++ missed) ≡ t.range_end_pos =
        sym (ap (arrived t.range_start_pos) split) ∙ at in
      let (mask', right, present) =
        do_task-Good content h sync_process_interval t pos blocks w taken cancelled good more first
          (omega (arith, before, end, inside)) in
      (
        mask',
        right,
        λ i all from lt.
            let whole : arrived t.range_start_pos taken ≡ t.range_end_pos =
              ap (arrived t.range_start_pos)
                (sym (append-nil taken) ∙ ap (λ cs. taken ++ cs) (sym all))
              ∙ end in
            present i from (rw whole lt),
      )
