-- ===== src/Tests/Fetched.antt =====
-- A task that fetches a whole file of three blocks.
use mathlib.Core.Path.{subst}
use dingospeed.Base.{
  List, [], append-nil, ℕ, zero, suc, sym, ◌*◌, ◌/◌, ◌≤◌, ◌<◌, ◌≡◌, refl, String, true, false, ok,
  arith,
}
use dingospeed.Bitset.{Bitset}
use dingospeed.Bitset.Laws.{bit_at}
use dingospeed.CacheRead.Laws.{IsSegment, joined}
use dingospeed.Http.{retry_request}
use dingospeed.Fetch.{
  Reply, Server, unreachable, replied, finished, read_reply, take_chunk, get_file_range_from_remote,
}
use dingospeed.Fetch.Laws.{IsHonest}
use dingospeed.Remote.{do_task}
use dingospeed.Remote.Store.{Good}
use dingospeed.Remote.Fetched.{NoneLonger, fetched-Good}
use dingospeed.Tests.{content}
use dingospeed.Tests.Cache.{fresh_header, fresh_world, ten_zeros, fresh_world-IsRightCache}
use dingospeed.Tests.Remote.{SameBytes, SameBytes-IsSegment, chunks, whole_task, fresh_blocks}
use dingospeed.Tests.Fetch.{direct, keep_bytes, replied_inj}

abbrev whole_reply : Reply
whole_reply = record { status = 206; encoded = false; chunks = chunks; ending = finished }

-- It answers for the whole file alone.
abbrev file_server : Server
file_server n domain zero b = replied whole_reply
file_server n domain (suc a) b = unreachable

whole_bytes : SameBytes 0 (joined chunks)
whole_bytes = (refl, (refl, (refl, (refl, (refl, (refl, (refl, (refl, (refl, (refl, tt))))))))))

Whole : ℕ → Reply → Type 0
Whole a reply =
    (reply.encoded ≡ false) × ((m : ℕ) × IsSegment content a m (joined reply.chunks) × (m ≤ 10))

file_server-Whole :
    (n : ℕ) (domain : String) (a : ℕ) (reply : Reply)
    → file_server n domain a 10 ≡ replied reply
    → Whole a reply
unfolding Whole
file_server-Whole n domain zero reply e =
    subst (λ r. Whole 0 r) (replied_inj whole_reply reply e)
      (refl, (10, SameBytes-IsSegment 0 (joined chunks) whole_bytes, omega arith))
file_server-Whole n domain (suc a) reply e = absurd (ground (arith, e))

file_server-IsHonest : IsHonest content 10 file_server
unfolding Whole
file_server-IsHonest = record {
  plain = λ n domain a reply e. (file_server-Whole n domain a reply e).0;
  honours = λ n domain a reply e success inside. (file_server-Whole n domain a reply e).1;
}

fetched_ok :
    (get_file_range_from_remote 0 10 file_server direct false "https://huggingface.co" 3 keep_bytes
      "https://huggingface.co").0
    ≡ ok tt
unfolding get_file_range_from_remote retry_request read_reply take_chunk
fetched_ok = refl

fetched_chunks :
    (get_file_range_from_remote 0 10 file_server direct false "https://huggingface.co" 3 keep_bytes
      "https://huggingface.co").1
    ≡ chunks
unfolding get_file_range_from_remote retry_request read_reply take_chunk
fetched_chunks = refl

short_chunks : NoneLonger 4 chunks
short_chunks = (omega arith, (omega arith, (omega arith, tt)))

fetched-Good_example :
    (mask' : Bitset) × Good content fresh_header
      (do_task 1 4 10 whole_task fresh_world 3
        (get_file_range_from_remote 0 10 file_server direct false "https://huggingface.co" 3
          keep_bytes "https://huggingface.co").1
        true).world
      mask'
    × ((i : ℕ)
        → ◌≡◌ {A = List (List ℕ)} [] []
        → 0 ≤ i * 4
        → i < 10 / 4
        → bit_at mask'.bits i ≡ true)
fetched-Good_example =
    fetched-Good content fresh_header 1 whole_task (omega arith) fresh_blocks file_server direct
      file_server-IsHonest false "https://huggingface.co" 3 keep_bytes "https://huggingface.co"
      fresh_world (record { body = ten_zeros; right = fresh_world-IsRightCache }) (omega arith)
      (omega arith) (omega arith) fetched_ok
      (subst (NoneLonger 4) (sym fetched_chunks) short_chunks) _ [] true (sym (append-nil _))
