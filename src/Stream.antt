-- ===== src/Stream.antt =====
-- FileChunkGet of internal/dao/file_dao.go with ResponseStream of pkg/util/http_util.go: the response
-- channel between the goroutine of FileDownload and the handler that writes to the client.
-- The two take turns in any order, as events. FileDownload closes both of its channels as it returns.
-- The writer is a Flusher; what a failed write adds to the answer is not modelled.
pub mod Steps
pub mod Answers
use dingospeed.Base.{
  ℕ, List, [], ◌∷◌, ◌++◌, Bool, true, false, Option, some, none, ltb, if◌then◌else◌, length,
}
use dingospeed.Download.{Outcome, failed, crashed, sends}

-- The handler: before the error channel tells, in its loop, or returned.
pub data Phase : Type 0 where
  awaiting streaming ended : Phase

pub record Exchange : Type 0 where
  -- what FileDownload has still to send, and the status of its error
  pub unsent : List (List ℕ)
  pub failure : Option ℕ
  pub returned : Bool
  -- the response channel
  pub buffer : List (List ℕ)
  pub phase : Phase
  pub status : Option ℕ
  pub written : List (List ℕ)

pub data Event : Type 0 where
  send return_ read_error receive context_done write_failed : Event

unfoldable pub start : Option ℕ → List (List ℕ) → Exchange
start failure values = record {
  unsent = values;
  failure = failure;
  returned = false;
  buffer = [];
  phase = awaiting;
  status = none;
  written = [];
}

-- A send waits while the channel is full.
unfoldable pub send_value : ℕ → Exchange → List (List ℕ) → Option Exchange
send_value capacity s [] = none
send_value capacity s (x ∷ xs) =
    if ltb (length s.buffer) capacity
    then some (record s { unsent = xs; buffer = s.buffer ++ x ∷ [] })
    else none

unfoldable pub return_from : Exchange → List (List ℕ) → Bool → Option Exchange
return_from s [] false = some (record s { returned = true })
return_from s [] true = none
return_from s (x ∷ xs) returned = none

-- `<-fileErrCh` waits for an error, or for the channel to be closed.
unfoldable pub await_error : Exchange → Phase → Bool → Option ℕ → Option Exchange
await_error s awaiting true none = some (record s { phase = streaming; status = some 200 })
await_error s awaiting true (some code) = some (record s { phase = ended; status = some code })
await_error s awaiting false failure = none
await_error s streaming returned failure = none
await_error s ended returned failure = none

-- An empty chunk is flushed and not written. A closed channel ends the loop when it is empty.
unfoldable pub receive_value : Exchange → Phase → List (List ℕ) → Bool → Option Exchange
receive_value s streaming ([] ∷ xs) returned = some (record s { buffer = xs })
receive_value s streaming ((b ∷ bs) ∷ xs) returned =
    some (record s { buffer = xs; written = s.written ++ (b ∷ bs) ∷ [] })
receive_value s streaming [] true = some (record s { phase = ended })
receive_value s streaming [] false = none
receive_value s awaiting buffer returned = none
receive_value s ended buffer returned = none

-- The context ends the sender and the loop, but not the wait for the error channel.
unfoldable pub end_context : Exchange → Phase → Exchange
end_context s streaming = record s { unsent = []; phase = ended }
end_context s awaiting = record s { unsent = [] }
end_context s ended = record s { unsent = [] }

unfoldable pub fail_write : Exchange → Phase → List (List ℕ) → Option Exchange
fail_write s streaming (x ∷ xs) = some (record s { buffer = xs; phase = ended })
fail_write s streaming [] = none
fail_write s awaiting buffer = none
fail_write s ended buffer = none

-- The next state, or none when the event cannot happen. The capacity is RespChanSize.
unfoldable pub step : ℕ → Event → Exchange → Option Exchange
unfolding send_value return_from await_error receive_value end_context fail_write
step capacity send s = send_value capacity s s.unsent
step capacity return_ s = return_from s s.unsent s.returned
step capacity read_error s = await_error s s.phase s.returned s.failure
step capacity receive s = receive_value s s.phase s.buffer s.returned
step capacity context_done s = some (end_context s s.phase)
step capacity write_failed s = fail_write s s.phase s.buffer

abbrev pub and_then : Option Exchange → (Exchange → Option Exchange) → Option Exchange
and_then none next = none
and_then (some s) next = next s

unfoldable pub run : ℕ → List Event → Exchange → Option Exchange
unfolding step
run capacity [] s = some s
run capacity (e ∷ events) s = and_then (step capacity e s) (run capacity events)

-- How a download begins to answer; a crash leaves no answer.
unfoldable pub file_chunk_get : Outcome → Option Exchange
unfolding start
file_chunk_get (failed code) = some (start (some code) [])
file_chunk_get crashed = none
file_chunk_get (sends values) = some (start none values)
