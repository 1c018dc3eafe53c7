-- ===== src/Fetch/Laws.antt =====
-- What a fetch sends when the servers send the content.
use dingospeed.Base.{
  ℕ, zero, suc, ◌+◌, ◌≤◌, ◌<◌, ◌≡◌, refl, ◌∙◌, String, List, [], ◌∷◌, Bool, true, false, not,
  Result, ok, ◌&&◌, either_way, length, arith,
}
use dingospeed.Http.{Connection, is_inner_domain, get_stream_domain, retry_request}
use dingospeed.CacheRead.Laws.{IsSegment, joined, IsSegment-append}
use dingospeed.Fetch.Chunks.{Took, take_chunks-Took}
use dingospeed.Fetch.{
  Ending, finished, broken, done_before_read, done_while_sending, Reply, Answer, unreachable,
  replied, Server, FetchState, FetchError, is_success, take_chunks, resume, end_body, read_reply,
  answer_request, request_once, fetch_rounds, fetch_start, end_fetch, get_file_range_from_remote,
}

-- The servers have the content: an answer without an encoding, whose bytes are the content's from the
-- first that was asked for on, and not more than were asked for.
pub record IsHonest (content : ℕ → ℕ) (end_pos : ℕ) (server : Server) : Type 0 where
  pub plain :
      (n : ℕ) (domain : String) (a : ℕ) (reply : Reply)
      → server n domain a end_pos ≡ replied reply
      → reply.encoded ≡ false
  pub honours :
      (n : ℕ) (domain : String) (a : ℕ) (reply : Reply)
      → server n domain a end_pos ≡ replied reply
      → is_success reply.status ≡ true
      → a < end_pos
      → (m : ℕ) × IsSegment content a m (joined reply.chunks) × (m ≤ end_pos)

module _ (content : ℕ → ℕ) (start_pos end_pos : ℕ) where
  -- What was sent is the content's from the start of the range on, or it is more than the range.
  record IsSound (s : FetchState) : Type 0 where
    plain : s.content_encoded ≡ false
    right :
        start_pos + s.chunk_byte_len ≤ end_pos
        → IsSegment content start_pos (start_pos + s.chunk_byte_len) (joined s.sent)
    fresh : s.chunk_byte_len ≡ 0 → s.range_start ≡ start_pos

  record Inv (s : FetchState) : Type 0 where
    sound : IsSound s
    aimed : s.context_done ≡ false → s.range_start ≡ start_pos + s.chunk_byte_len

  resume-Inv : (s : FetchState) → IsSound s → Inv (resume start_pos end_pos s)
  unfolding resume
  resume-Inv s v = record {
    sound = record {
      plain = ground (arith, v.plain);
      right = λ h. ground (arith, v.right);
      fresh = λ none_yet. ground (arith, v.fresh);
    };
    aimed = λ live. ground (arith, v.fresh);
  }

  -- After a request: it may be repeated when it failed.
  abbrev After : Bool × FetchState → Type 0
  After (failed, s) = IsSound s × (failed ≡ true → Inv s)

  end_body-After :
      (e : Ending) (s : FetchState) → IsSound s → After (end_body start_pos end_pos e s)
  unfolding end_body
  end_body-After finished s v = (v, λ e. cc)
  end_body-After broken s v = let i = resume-Inv s v in (i.sound, λ e. i)
  end_body-After done_before_read s v =
      (record { plain = v.plain; right = v.right; fresh = v.fresh }, λ e. cc)
  end_body-After done_while_sending s v =
      let stopped : IsSound (record s { context_done = true }) = record {
        plain = v.plain;
        right = v.right;
        fresh = v.fresh;
      } in
      (stopped, λ e. record { sound = stopped; aimed = λ live. cc })

  IsSegment-or_none :
      (bs : List ℕ) (a : ℕ)
      → a + length bs ≤ end_pos
      → (a < end_pos → (m : ℕ) × IsSegment content a m bs × (m ≤ end_pos))
      → (m : ℕ) × IsSegment content a m bs
  IsSegment-or_none [] a h honest =
      (a, record { size = omega arith; bytes = λ k lt. absurd (omega arith) })
  IsSegment-or_none (b ∷ bs) a h honest =
      let (m, segment, bound) = honest (omega arith) in (m, segment)

  -- The chunks of an honest answer go on where the last one ended.
  Took-IsSound :
      (s t : FetchState) (bs : List ℕ)
      → IsSound s
      → Took s t bs
      → (start_pos + s.chunk_byte_len < end_pos
          → (m : ℕ) × IsSegment content (start_pos + s.chunk_byte_len) m bs × (m ≤ end_pos))
      → IsSound t
  Took-IsSound s t bs v k honest = record {
    plain = k.plain;
    fresh = λ none_yet. k.same_start ∙ v.fresh (omega (arith, none_yet, k.counted));
    right = λ h.
        let (m, segment) =
          IsSegment-or_none bs (start_pos + s.chunk_byte_len) (omega (arith, h, k.counted))
            honest in
        let e : m ≡ start_pos + t.chunk_byte_len = omega (arith, k.counted, segment.size) in
        rw (k.all_sent, ← e)
          (IsSegment-append content start_pos _ m (joined s.sent) bs
            (v.right (omega (arith, k.counted))) segment);
  }

  -- An answer, on what was known when it was asked for.
  read_reply-After :
      (reply : Reply) (s : FetchState)
      → Inv s
      → reply.encoded ≡ false
      → (is_success reply.status ≡ true
          → s.range_start < end_pos
          → (m : ℕ) × IsSegment content s.range_start m (joined reply.chunks) × (m ≤ end_pos))
      → After (read_reply start_pos end_pos reply s)
  unfolding read_reply
  read_reply-After reply s v plain honours =
      let seen = record s { content_encoded = reply.encoded } in
      let unread : IsSound seen = record {
        plain = plain;
        right = v.sound.right;
        fresh = v.sound.fresh;
      } in
      let took = take_chunks-Took seen reply.chunks plain in
      let t = take_chunks seen reply.chunks in
      either_way After (not (is_success reply.status)) (λ bad. (unread, λ e. cc))
        (λ good.
          either_way After s.context_done (λ done. (unread, λ e. cc))
            (λ live. end_body-After reply.ending t (
              Took-IsSound seen t (joined reply.chunks) unread took (λ inside.
                rw (← v.aimed live)
                  (honours (ground (arith, good)) (omega (arith, inside, v.aimed live)))))))

  ended :
      (failed : Bool) (s : FetchState) (decompress : List ℕ → Result FetchError (List ℕ))
      → IsSound s
      → let r = end_fetch start_pos end_pos decompress (failed, s) in
        r.0 ≡ ok tt → IsSegment content start_pos end_pos (joined r.1)
  unfolding end_fetch
  ended true s decompress v h = ground arith
  ended false s decompress v h = rw v.plain (
      let all : start_pos + s.chunk_byte_len ≡ end_pos = ground (arith, h, v.plain) in
      rw (← all) (v.right (omega (arith, all))))

  module _ (server : Server) (connection : Connection)
      (honest : IsHonest content end_pos server) where
    answer_request-After :
        (answer : Answer) (s : FetchState) (n : ℕ) (domain : String)
        → server n domain s.range_start end_pos ≡ answer
        → Inv s
        → After (answer_request start_pos end_pos answer s)
    unfolding answer_request
    answer_request-After unreachable s n domain e v = (v.sound, λ _. v)
    answer_request-After (replied reply) s n domain e v =
        read_reply-After reply s v (honest.plain n domain s.range_start reply e)
          (honest.honours n domain s.range_start reply e)

    request_once-After :
        (s : FetchState) → Inv s → After (request_once start_pos end_pos server connection s)
    unfolding request_once
    request_once-After s v =
        answer_request-After _ (record s { requests = s.requests + 1 }) s.requests
          (get_stream_domain connection s.domain) refl
          (record {
            sound = record { plain = v.sound.plain; right = v.sound.right; fresh = v.sound.fresh };
            aimed = v.aimed;
          })

    retried-After :
        (n : ℕ) (s : FetchState)
        → Inv s
        → After (retry_request (request_once start_pos end_pos server connection) n s)
    unfolding retry_request
    retried-After zero s v = (v.sound, λ e. v)
    retried-After (suc n) s v =
        let (failed, t) = request_once start_pos end_pos server connection s in
        let (sound, again) = request_once-After s v in
        either_way After failed (λ bad. retried-After n t (again bad)) (λ good. (sound, λ e. cc))

    module _ (is_cluster : Bool) (official_domain : String) (attempts : ℕ) where
      fetch_rounds-After :
          (rounds : ℕ) (s : FetchState)
          → Inv s
          → After (
              fetch_rounds start_pos end_pos server connection is_cluster official_domain attempts
                rounds s)
      unfolding fetch_rounds
      fetch_rounds-After zero s v = (v.sound, λ e. v)
      fetch_rounds-After (suc rounds) s v =
          let (failed, t) =
            retry_request (request_once start_pos end_pos server connection) attempts s in
          let (sound, again) = retried-After attempts s v in
          either_way After (failed && (is_cluster && is_inner_domain t.domain))
            (λ bad. fetch_rounds-After rounds _ (
              resume-Inv (record t { domain = official_domain })
                (record { plain = sound.plain; right = sound.right; fresh = sound.fresh })))
            (λ good. (sound, again))

      -- When the servers send the content and a fetch of a range ends without an error, the chunks that
      -- it sent are the content's bytes of that range, whatever requests failed before or broke off.
      pub get_file_range_from_remote-IsSegment :
          (decompress : List ℕ → Result FetchError (List ℕ)) (domain : String)
          → start_pos ≤ end_pos
          → let r =
              get_file_range_from_remote start_pos end_pos server connection is_cluster
                official_domain attempts decompress domain in
            r.0 ≡ ok tt → IsSegment content start_pos end_pos (joined r.1)
      unfolding get_file_range_from_remote fetch_start
      get_file_range_from_remote-IsSegment decompress domain order h =
          let (failed, s) =
            fetch_rounds start_pos end_pos server connection is_cluster official_domain attempts 2
              (fetch_start start_pos end_pos domain) in
          let first : IsSound (fetch_start start_pos end_pos domain) = record {
            plain = refl;
            right = λ h. record { size = omega arith; bytes = λ k lt. absurd (omega arith) };
            fresh = λ e. refl;
          } in
          let (sound, again) =
            fetch_rounds-After 2 _ (record { sound = first; aimed = λ live. omega arith }) in
          ended failed s decompress sound h
