-- ===== src/Fetch/Recovery.antt =====
-- A fetch gets over requests that fail.
use dingospeed.Base.{
  ℕ, zero, suc, ◌+◌, ◌<◌, ◌≡◌, refl, sym, ap, ◌∙◌, String, List, Bool, true, false, not, Result, ok,
  ◌⊎◌, inl, inr, either_way, length, arith,
}
use mathlib.Core.Path.{subst}
use dingospeed.Http.{Connection, get_stream_domain, retry_request}
use dingospeed.CacheRead.Laws.{joined}
use dingospeed.Fetch.Chunks.{Took, take_chunks-Took}
use dingospeed.Fetch.{
  finished, broken, Reply, Answer, unreachable, replied, Server, FetchState, FetchError, is_success,
  take_chunks, resume, end_body, read_reply, answer_request, request_once, fetch_rounds,
  fetch_start, end_fetch, get_file_range_from_remote,
}

module _ (end_pos : ℕ) where
  -- A readable answer for the bytes from `a` on.
  pub record IsReadable (reply : Reply) : Type 0 where
    pub success : is_success reply.status ≡ true
    pub plain : reply.encoded ≡ false

  abbrev pub Falls : ℕ → Server → ℕ → Type 0
  Falls a server n =
      (domain : String)
      → (server n domain a end_pos ≡ unreachable)
        ⊎ ((reply : Reply) × (server n domain a end_pos ≡ replied reply)
            × IsReadable reply
            × (reply.ending ≡ broken)
            × (a + length (joined reply.chunks) < end_pos))

  -- The n-th request fails: no answer, or a body that breaks off before the end of the range.
  abbrev pub IsFailing : Server → ℕ → Type 0
  IsFailing server n = (a : ℕ) → a < end_pos → Falls a server n

  abbrev pub Serves : ℕ → Server → ℕ → Type 0
  Serves a server n =
      (domain : String)
      → (reply : Reply) × (server n domain a end_pos ≡ replied reply)
        × IsReadable reply
        × (reply.ending ≡ finished)
        × (a + length (joined reply.chunks) ≡ end_pos)

  -- The n-th request is answered with as many bytes as it asks for.
  abbrev pub IsServing : Server → ℕ → Type 0
  IsServing server n = (a : ℕ) → a < end_pos → Serves a server n

module _ (start_pos end_pos : ℕ) where
  -- Between two requests of a fetch that goes on.
  record IsReady (s : FetchState) : Type 0 where
    live : s.context_done ≡ false
    plain : s.content_encoded ≡ false
    aimed : s.range_start ≡ start_pos + s.chunk_byte_len
    inside : start_pos + s.chunk_byte_len < end_pos

  abbrev IsComplete : Bool × FetchState → Type 0
  IsComplete (failed, s) =
      (failed ≡ false) × (s.content_encoded ≡ false) × (start_pos + s.chunk_byte_len ≡ end_pos)

  abbrev Fails : ℕ → Bool × FetchState → Type 0
  Fails n (failed, s) = (failed ≡ true) × IsReady s × (s.requests ≡ suc n)

  abbrev seen : Reply → FetchState → FetchState
  seen reply s = record s { content_encoded = reply.encoded }

  read_reply_live :
      (reply : Reply) (s : FetchState)
      → is_success reply.status ≡ true
      → s.context_done ≡ false
      → read_reply start_pos end_pos reply s
        ≡ end_body start_pos end_pos reply.ending (take_chunks (seen reply s) reply.chunks)
  unfolding read_reply
  read_reply_live reply s good live =
      let wanted =
        end_body start_pos end_pos reply.ending (take_chunks (seen reply s) reply.chunks) in
      either_way (λ r. r ≡ wanted) (not (is_success reply.status))
        (λ bad. absurd (ground (arith, good, bad)))
        (λ _.
          either_way (λ r. r ≡ wanted) s.context_done (λ done. absurd (ground (arith, live, done)))
            (λ _. refl))

  resume-IsReady :
      (s t : FetchState) (bs : List ℕ)
      → IsReady s
      → Took s t bs
      → s.range_start + length bs < end_pos
      → IsReady (resume start_pos end_pos t)
  unfolding resume
  resume-IsReady s t bs r took short = record {
    live = ground (arith, took.same_context, r.live);
    plain = ground (arith, took.plain);
    aimed = ground (arith, took.counted, took.same_start, r.aimed);
    inside = ground (arith, took.counted, short, r.aimed);
  }

  resume_requests : (t : FetchState) → (resume start_pos end_pos t).requests ≡ t.requests
  unfolding resume
  resume_requests t = ground arith

  read_broken :
      (reply : Reply) (s : FetchState) (n : ℕ)
      → IsReady s
      → s.requests ≡ suc n
      → IsReadable end_pos reply
      → reply.ending ≡ broken
      → s.range_start + length (joined reply.chunks) < end_pos
      → Fails n (read_reply start_pos end_pos reply s)
  unfolding end_body
  read_broken reply s n r e readable cut short =
      let took = take_chunks-Took (seen reply s) reply.chunks readable.plain in
      let t = take_chunks (seen reply s) reply.chunks in
      let ready : IsReady (seen reply s) = record {
        live = r.live;
        plain = readable.plain;
        aimed = r.aimed;
        inside = r.inside;
      } in
      subst (Fails n)
        (sym (
          read_reply_live reply s readable.success r.live
          ∙ ap (λ x. end_body start_pos end_pos x t) cut))
        (
          refl,
          resume-IsReady (seen reply s) t (joined reply.chunks) ready took short,
          resume_requests t ∙ took.same_requests ∙ e,
        )

  read_whole :
      (reply : Reply) (s : FetchState)
      → IsReady s
      → IsReadable end_pos reply
      → reply.ending ≡ finished
      → s.range_start + length (joined reply.chunks) ≡ end_pos
      → IsComplete (read_reply start_pos end_pos reply s)
  unfolding end_body
  read_whole reply s r readable whole size =
      let took = take_chunks-Took (seen reply s) reply.chunks readable.plain in
      let t = take_chunks (seen reply s) reply.chunks in
      subst IsComplete
        (sym (
          read_reply_live reply s readable.success r.live
          ∙ ap (λ x. end_body start_pos end_pos x t) whole))
        (refl, took.plain, omega (arith, took.counted, size, r.aimed))

  module _ (server : Server) (connection : Connection) where
    abbrev once : FetchState → Bool × FetchState
    once = request_once start_pos end_pos server connection

    once-Fails :
        (s : FetchState)
        → IsReady s
        → IsFailing end_pos server s.requests
        → Fails s.requests (once s)
    unfolding request_once answer_request
    once-Fails s r failing =
        let next = record s { requests = s.requests + 1 } in
        let ready : IsReady next = record {
          live = r.live;
          plain = r.plain;
          aimed = r.aimed;
          inside = r.inside;
        } in
        let answer : FetchState → Answer =
          λ s. server s.requests (get_stream_domain connection s.domain) s.range_start end_pos in
        elim (failing s.range_start (omega (arith, r.aimed, r.inside))
          (get_stream_domain connection s.domain)) [
            | inl none_came ↦
                subst (λ a. Fails s.requests (answer_request start_pos end_pos a next))
                  (sym none_came) (refl, ready, omega arith)
            | inr (reply, came, readable, cut, short) ↦
                subst (λ a. Fails s.requests (answer_request start_pos end_pos a next)) (sym came)
                  (read_broken reply next s.requests ready (omega arith) readable cut short)
          ]

    once-IsComplete :
        (s : FetchState) → IsReady s → IsServing end_pos server s.requests → IsComplete (once s)
    unfolding request_once answer_request
    once-IsComplete s r serving =
        let next = record s { requests = s.requests + 1 } in
        let ready : IsReady next = record {
          live = r.live;
          plain = r.plain;
          aimed = r.aimed;
          inside = r.inside;
        } in
        let (reply, came, readable, whole, size) =
          serving s.range_start (omega (arith, r.aimed, r.inside))
            (get_stream_domain connection s.domain) in
        subst (λ a. IsComplete (answer_request start_pos end_pos a next)) (sym came)
          (read_whole reply next ready readable whole size)

    retry_request-IsComplete :
        (attempts k : ℕ) (s : FetchState)
        → IsReady s
        → k < attempts
        → ((i : ℕ) → i < k → IsFailing end_pos server (s.requests + i))
        → IsServing end_pos server (s.requests + k)
        → IsComplete (retry_request once attempts s)
    unfolding retry_request
    retry_request-IsComplete zero k s r lt failing serving = absurd (omega arith)
    retry_request-IsComplete (suc attempts) zero s r lt failing serving =
        let here : IsServing end_pos server s.requests =
          subst (IsServing end_pos server) (omega arith) serving in
        let (good, plain, size) = once-IsComplete s r here in
        either_way IsComplete (once s).0 (λ bad. absurd (ground (arith, good, bad)))
          (λ _. (refl, plain, size))
    retry_request-IsComplete (suc attempts) (suc k) s r lt failing serving =
        let here : IsFailing end_pos server s.requests =
          subst (IsFailing end_pos server) (omega arith) (failing 0 (omega arith)) in
        let (bad, ready, count) = once-Fails s r here in
        let rest =
          retry_request-IsComplete attempts k (once s).1 ready (omega arith)
            (λ i below.
              subst (IsFailing end_pos server) (omega (arith, count))
                (failing (suc i) (omega arith)))
            (subst (IsServing end_pos server) (omega (arith, count)) serving) in
        either_way IsComplete (once s).0 (λ _. rest) (λ good. absurd (ground (arith, good, bad)))

    -- When the first requests fail, without an answer or with a body that breaks off before the end,
    -- and the next one is answered with all that it asks for, and there are attempts enough for them,
    -- the fetch of a range that is not empty ends without an error.
    pub get_file_range_from_remote_recovers :
        (is_cluster : Bool) (official_domain : String) (attempts k : ℕ)
        (decompress : List ℕ → Result FetchError (List ℕ)) (domain : String)
        → start_pos < end_pos
        → k < attempts
        → ((i : ℕ) → i < k → IsFailing end_pos server i)
        → IsServing end_pos server k
        → (get_file_range_from_remote start_pos end_pos server connection is_cluster official_domain
            attempts decompress domain).0
          ≡ ok tt
    unfolding get_file_range_from_remote fetch_start fetch_rounds end_fetch
    get_file_range_from_remote_recovers is_cluster official_domain attempts k decompress domain
          order lt failing serving =
        let s = fetch_start start_pos end_pos domain in
        let ready : IsReady s = record {
          live = refl;
          plain = refl;
          aimed = omega arith;
          inside = omega arith;
        } in
        let (good, plain, size) =
          retry_request-IsComplete attempts k s ready lt
            (λ i below. subst (IsFailing end_pos server) (omega arith) (failing i below))
            (subst (IsServing end_pos server) (omega arith) serving) in
        ground (arith, good, plain, size)
