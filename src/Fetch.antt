-- ===== src/Fetch.antt =====
-- getFileRangeFromRemote of internal/downloader/remote_task.go: the bytes of a range, from servers.
-- The servers are a parameter: their answer to the n-th request, for a domain, from the first byte
-- asked for to the one behind the last. GetStream's and the transport's errors are one answer.
-- The context is done from some moment on, which an answer tells; no error is a myerr.Error here.
pub mod Chunks
pub mod Laws
pub mod Recovery
use dingospeed.Base.{
  ℕ, zero, suc, ◌+◌, String, List, [], ◌∷◌, ◌++◌, Bool, true, false, not, Result, ok, err, panicked,
  ltb, ◌==◌, ◌&&◌, ◌||◌, if◌then◌else◌, length,
}
use dingospeed.Http.{Connection, is_inner_domain, get_stream_domain, retry_request}

-- How a body ends: io.EOF, an error of Read, or the context, seen before a Read or while a chunk
-- waits to be sent; that chunk is not among the chunks.
pub data Ending : Type 0 where
  finished broken done_before_read done_while_sending : Ending

pub record Reply : Type 0 where
  pub status : ℕ
  -- the Content-Encoding, false when there is none
  pub encoded : Bool
  pub chunks : List (List ℕ)
  pub ending : Ending

pub data Answer : Type 0 where
  unreachable : Answer
  replied : Reply → Answer

abbrev pub Server : Type 0
Server = ℕ → String → ℕ → ℕ → Answer

-- The variables of the function, with what went into the channel; `range_start` is what the range
-- header asks from.
pub record FetchState : Type 0 where
  pub raw_data : List ℕ
  pub chunk_byte_len : ℕ
  pub content_encoded : Bool
  pub range_start : ℕ
  pub domain : String
  pub context_done : Bool
  pub requests : ℕ
  pub sent : List (List ℕ)

pub data FetchError : Type 0 where
  get_stream_err decompress_err block_incomplete : FetchError

abbrev pub is_success : ℕ → Bool
is_success code = code == 200 || code == 206

-- A chunk that was read: an empty one is passed over.
unfoldable pub take_chunk : FetchState → List ℕ → FetchState
take_chunk s chunk =
    if ltb 0 (length chunk)
    then (if s.content_encoded
        then record s {
          raw_data = s.raw_data ++ chunk;
          chunk_byte_len = s.chunk_byte_len + length chunk;
        }
        else record s {
          sent = s.sent ++ (chunk ∷ []);
          chunk_byte_len = s.chunk_byte_len + length chunk;
        })
    else s

unfoldable pub take_chunks : FetchState → List (List ℕ) → FetchState
take_chunks s [] = s
take_chunks s (chunk ∷ chunks) = take_chunks (take_chunk s chunk) chunks

module _ (start_pos end_pos : ℕ) where
  unfoldable pub fetch_start : String → FetchState
  fetch_start domain = record {
    raw_data = [];
    chunk_byte_len = 0;
    content_encoded = false;
    range_start = start_pos;
    domain = domain;
    context_done = false;
    requests = 0;
    sent = [];
  }

  -- `headers["range"]` from here on, when some bytes came.
  unfoldable pub resume : FetchState → FetchState
  resume s =
      if ltb 0 s.chunk_byte_len then record s { range_start = start_pos + s.chunk_byte_len } else s

  unfoldable pub end_body : Ending → FetchState → Bool × FetchState
  unfolding resume
  end_body finished s = (false, s)
  end_body broken s = (true, resume s)
  end_body done_before_read s = (false, record s { context_done = true })
  end_body done_while_sending s = (true, record s { context_done = true })

  -- The function that GetStream calls with a response.
  unfoldable pub read_reply : Reply → FetchState → Bool × FetchState
  unfolding take_chunks end_body
  read_reply reply s =
      let seen = record s { content_encoded = reply.encoded } in
      let body = end_body reply.ending (take_chunks seen reply.chunks) in
      if not (is_success reply.status)
      then (false, seen)
      else if s.context_done
      then (false, seen)
      else body

  unfoldable pub answer_request : Answer → FetchState → Bool × FetchState
  answer_request unreachable s = (true, s)
  answer_request (replied reply) s = read_reply reply s

  -- The test on the length at the end.
  abbrev pub expect_length : ℕ → Result FetchError (Unit {0})
  expect_length len = if start_pos + len == end_pos then ok tt else err block_incomplete

  -- What follows the loop. `decompress` is DecompressData for the encoding that was seen.
  unfoldable pub end_fetch :
      (List ℕ → Result FetchError (List ℕ))
      → Bool × FetchState
      → Result FetchError (Unit {0}) × List (List ℕ)
  end_fetch decompress (true, s) = (err get_stream_err, s.sent)
  end_fetch decompress (false, s) =
      if s.content_encoded
      then elim (decompress s.raw_data) [
        | ok final_data ↦ (expect_length (length final_data), s.sent ++ (final_data ∷ []))
        | err e ↦ (err e, s.sent)
        | panicked ↦ (panicked, s.sent)
      ]
      else (expect_length s.chunk_byte_len, s.sent)

  module _ (server : Server) (connection : Connection) where
    unfoldable pub request_once : FetchState → Bool × FetchState
    unfolding answer_request
    request_once s =
        answer_request
          (server s.requests (get_stream_domain connection s.domain) s.range_start end_pos)
          (record s { requests = s.requests + 1 })

    module _ (is_cluster : Bool) (official_domain : String) (attempts : ℕ) where
      -- The rounds that are left: from another node of the cluster the code turns to the hub.
      unfoldable pub fetch_rounds : ℕ → FetchState → Bool × FetchState
      unfolding request_once resume
      fetch_rounds zero s = (true, s)
      fetch_rounds (suc rounds) s =
          let (failed, s') = retry_request request_once attempts s in
          let again = fetch_rounds rounds (resume (record s' { domain = official_domain })) in
          if failed && (is_cluster && is_inner_domain s'.domain) then again else (failed, s')

      -- The error of getFileRangeFromRemote, and the chunks that it sent.
      unfoldable pub get_file_range_from_remote :
          (List ℕ → Result FetchError (List ℕ))
          → String
          → Result FetchError (Unit {0}) × List (List ℕ)
      unfolding fetch_rounds end_fetch fetch_start
      get_file_range_from_remote decompress domain =
          end_fetch decompress (fetch_rounds 2 (fetch_start domain))
