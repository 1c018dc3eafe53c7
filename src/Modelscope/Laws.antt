-- ===== src/Modelscope/Laws.antt =====
-- What a request for a file of ModelScope gets.
use mathlib.Core.Path.{subst}
use dingospeed.Base.{
  ℕ, ◌+◌, ◌-◌, ◌≤◌, ◌<◌, ◌≡◌, refl, sym, ap, ◌∙◌, inl, inr, List, [], ◌++◌, true, false, ◌&&◌,
  Option, some, none, pos, arith, tests, ltb, ltb→lt, le→ltb, leb, if◌then◌else◌, length, take,
  drop, Bool-cases, length-drop,
}
use dingospeed.CacheRead.Laws.{joined, IsSegment, IsSegment-append}
use dingospeed.Remote.Store.{take-IsSegment, drop-IsSegment}
use dingospeed.Modelscope.{
  Reply, Official, Served, finished, CopyEnd, CopyState, complete, cache_end, write_cache_data,
  after_copy, copy_reply, total, handle_file_download, serve_rest, after_round, read_round,
  read_done,
}
use dingospeed.Modelscope.Reads.{read_round_all, copy_chunk_size_same}
use dingospeed.Modelscope.Copy.{copy_loop-Appends}

-- One past the last byte that is asked for.
abbrev pub stop_of : ℕ → Option ℕ → ℕ
stop_of size none = size
stop_of size (some client_end) = client_end + 1

module _ (content : ℕ → ℕ) (size chunk_size : ℕ) (positive : 0 < chunk_size)
    (official : Official) where
  -- What the site answers to a request that begins inside the file.
  pub record IsHonest (client_end : Option ℕ) (start : ℕ) (reply : Reply) : Type 0 where
    pub status : reply.status ≡ 206
    pub offset : reply.offset ≡ start
    pub whole : reply.broken ≡ false
    pub bytes : IsSegment content start (stop_of size client_end) (joined reply.body)

  -- The client has the range, and the file is still the beginning of the content.
  pub record Delivers (start stop : ℕ) (r : Served) : Type 0 where
    pub ending : r.ending ≡ finished
    pub sent : IsSegment content start stop r.sent
    pub file : IsSegment content 0 (length r.file) r.file

  after_copy-Delivers :
      (start at stop : ℕ) (file sent : List ℕ) (body : List (List ℕ)) (r : CopyEnd × CopyState)
      → (r.0 ≡ complete) × (r.1.file ≡ file ++ joined body) × (r.1.sent ≡ [] ++ joined body)
      → IsSegment content start at sent
      → IsSegment content 0 at file
      → IsSegment content at stop (joined body)
      → Delivers start stop (after_copy sent r)
  unfolding after_copy
  after_copy-Delivers start at stop file sent body (complete, s) (e, ef, es) before kept more =
      record {
        ending = refl;
        sent =
            subst (IsSegment content start stop) (ap (λ l. sent ++ l) (sym es))
              (IsSegment-append content start at stop sent (joined body) before more);
        file =
            let whole = IsSegment-append content 0 at stop file (joined body) kept more in
            let len : stop ≡ length s.file =
              omega (arith, whole.size, ap (λ (l : List ℕ). length l) ef) in
            subst (λ n. IsSegment content 0 n s.file) len
              (subst (IsSegment content 0 stop) (sym ef) whole);
      }
  after_copy-Delivers start at stop file sent body (other, s) (e, ef, es) before kept more =
      absurd (cc e)

  copy_reply-Delivers :
      (start : ℕ) (client_end : Option ℕ) (file sent : List ℕ) (reply : Reply)
      → IsSegment content start (length file) sent
      → IsSegment content 0 (length file) file
      → IsHonest client_end (length file) reply
      → Delivers start (stop_of size client_end) (copy_reply chunk_size file sent (some reply))
  unfolding copy_reply
  copy_reply-Delivers start client_end file sent reply before kept honest =
      let begins : CopyState = record { file = file; sent = []; written = 0; body = reply.body } in
      let fuel = length file + total reply.body + 1 in
      let appends =
        copy_loop-Appends chunk_size positive reply.offset reply.broken fuel file [] 0 reply.body
          (omega (arith, honest.offset)) (omega arith) in
      let in_time : leb 200 reply.status && ltb reply.status 300 ≡ true =
        ground (arith, honest.status) in
      let ends = ap (λ b. if b then CopyEnd.interrupted else complete) honest.whole in
      rw in_time (
        after_copy-Delivers start (length file) (stop_of size client_end) file sent reply.body _
          (appends.0 ∙ ends, appends.1, appends.2) before kept honest.bytes)

  -- The bytes that the cache gives, up to `last`.
  cut :
      (file : List ℕ) (start last : ℕ)
      → IsSegment content 0 (length file) file
      → start ≤ last
      → last < length file
      → IsSegment content start (last + 1) (take (last + 1 - start) (drop start file))
  cut file start last kept lo hi =
      let rest = drop-IsSegment content 0 (length file) start file kept (omega (arith, lo, hi)) in
      let taken =
        take-IsSegment content (0 + start) (length file) (last + 1 - start) (drop start file) rest
          (omega (arith, length-drop start file, lo, hi)) in
      let from : 0 + start ≡ start = omega arith in
      let to : 0 + start + (last + 1 - start) ≡ last + 1 = omega (arith, lo) in
      subst (λ a. IsSegment content a (last + 1) (take (last + 1 - start) (drop start file))) from
        (subst (λ b. IsSegment content (0 + start) b (take (last + 1 - start) (drop start file))) to
          taken)

  -- The site answers for what is behind the end of the file.
  abbrev pub Answers : Option ℕ → ℕ → Type 0
  Answers client_end start =
      start < stop_of size client_end
      → (reply : Reply) × (official start client_end ≡ some reply) × IsHonest client_end start reply

  remaining :
      (start : ℕ) (client_end : Option ℕ) (file sent : List ℕ)
      → IsSegment content start (length file) sent
      → IsSegment content 0 (length file) file
      → Answers client_end (length file)
      → length file < stop_of size client_end
      → Delivers start
          (stop_of size client_end)
          (copy_reply chunk_size file sent (official (length file) client_end))
  remaining start client_end file sent before kept answers more =
      let (reply, e, honest) = answers more in
      rw e (copy_reply-Delivers start client_end file sent reply before kept honest)

  nothing-IsSegment : (a : ℕ) → IsSegment content a a []
  nothing-IsSegment a = record { size = omega arith; bytes = λ k lt. absurd (omega arith) }

  cached :
      (last start : ℕ) (file : List ℕ)
      → start ≤ last
      → last < length file
      → read_round (pos chunk_size) (drop start file) (last + 1 - start)
        ≡ read_done (take (last + 1 - start) (drop start file))
  cached last start file lo hi =
      read_round_all chunk_size positive (drop start file) (last + 1 - start)
        (omega (arith, lo, hi, length-drop start file))

  from_cache :
      (file : List ℕ) (start : ℕ) (client_end : Option ℕ)
      → IsSegment content 0 (length file) file
      → start < length file
      → start < stop_of size client_end
      → Answers client_end (length file)
      → (client_end ≡ none → length file < size)
      → Delivers start
          (stop_of size client_end)
          (handle_file_download (pos chunk_size) official file start client_end)
  unfolding handle_file_download write_cache_data cache_end serve_rest after_round
  from_cache file start none kept inside some_asked answers unfinished =
      let last = length file - 1 in
      let there : ltb 0 (length file) && ltb start (length file) ≡ true = ground (arith, inside) in
      let to : last + 1 ≡ length file = omega (arith, inside) in
      let bytes = cut file start last kept (omega (arith, inside)) (omega (arith, inside)) in
      rw (there, copy_chunk_size_same chunk_size positive)
        (rw
          (
            le→ltb last start (omega (arith, inside)),
            cached last start file (omega (arith, inside)) (omega (arith, inside)),
          )
          (remaining start none file _
            (subst (λ b. IsSegment content start b (take (last + 1 - start) (drop start file))) to
              bytes)
            kept answers (unfinished refl)))
  from_cache file start (some end) kept inside some_asked answers unfinished =
      let there : ltb 0 (length file) && ltb start (length file) ≡ true = ground (arith, inside) in
      elim (Bool-cases (ltb end (length file - 1))) [
        | inl early ↦
            let bytes =
              cut file start end kept (omega (arith, some_asked)) (omega (tests, early)) in
            let reached : leb end (start + length (take (end + 1 - start) (drop start file)) - 1)
                ≡ true =
              ground (arith, bytes.size) in
            rw (there, copy_chunk_size_same chunk_size positive)
              (rw early (
                rw
                  (
                    le→ltb end start (omega (arith, some_asked)),
                    cached end start file (omega (arith, some_asked)) (omega (tests, early)),
                  )
                  (rw reached (record { ending = refl; sent = bytes; file = kept }))))
        | inr late ↦
            let last = length file - 1 in
            let bytes = cut file start last kept (omega (arith, inside)) (omega (arith, inside)) in
            let sent = take (last + 1 - start) (drop start file) in
            let reached = start + length sent in
            let full : reached ≡ length file = omega (arith, bytes.size, inside) in
            let at_end =
              subst (λ b. IsSegment content start b sent) full
                (subst (λ b. IsSegment content start b sent) (sym bytes.size) bytes) in
            rw (there, copy_chunk_size_same chunk_size positive)
              (rw late (
                rw
                  (
                    le→ltb last start (omega (arith, inside)),
                    cached last start file (omega (arith, inside)) (omega (arith, inside)),
                  )
                  (elim (Bool-cases (leb end (reached - 1))) [
                    | inl satisfied ↦
                        let stop : length file ≡ end + 1 =
                          ground (arith, satisfied, late, full, inside) in
                        rw satisfied (record {
                          ending = refl;
                          sent = subst (λ b. IsSegment content start b sent) stop at_end;
                          file = kept;
                        })
                    | inr waits ↦
                        let beyond : length file < end + 1 = ground (arith, waits, full) in
                        let past : reached ≤ end = ground (arith, waits) in
                        rw waits (
                          rw (le→ltb end reached past) (
                            subst
                              (λ a.
                                Delivers start (end + 1)
                                  (copy_reply chunk_size file sent (official a (some end))))
                              (sym full)
                              (remaining start (some end) file sent at_end kept answers beyond)))
                  ])))
      ]

  -- When the chunk size of the settings is positive, the cache file is the beginning of the content, the
  -- client's range begins inside it or at its
  -- end and is not empty, the site answers for what is behind the end of the file, and, if no end is
  -- asked for, the file is not whole: the client gets the content from the start of its range to the end
  -- that it asks for, or to the end of the content, and the cache file is again a beginning of it.
  pub handle_file_download-Delivers :
      (file : List ℕ) (start : ℕ) (client_end : Option ℕ)
      → IsSegment content 0 (length file) file
      → start ≤ length file
      → start < stop_of size client_end
      → Answers client_end (length file)
      → (client_end ≡ none → length file < size)
      → Delivers start
          (stop_of size client_end)
          (handle_file_download (pos chunk_size) official file start client_end)
  unfolding handle_file_download
  handle_file_download-Delivers file start client_end kept near some_asked answers unfinished =
      elim (Bool-cases (ltb start (length file))) [
        | inl inside ↦
            from_cache file start client_end kept (ltb→lt _ _ inside) some_asked answers unfinished
        | inr behind ↦
            let at : start ≡ length file = omega (tests, behind, near) in
            let no_cache : ltb 0 (length file) && ltb start (length file) ≡ false =
              ground (arith, behind) in
            rw (no_cache, copy_chunk_size_same chunk_size positive)
              (subst
                (λ a.
                  Delivers start (stop_of size client_end)
                    (copy_reply chunk_size file [] (official a client_end)))
                (sym at)
                (remaining start client_end file []
                  (subst (λ b. IsSegment content start b []) at (nothing-IsSegment start)) kept
                  answers (omega (arith, at, some_asked))))
      ]
