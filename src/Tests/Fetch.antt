-- ===== src/Tests/Fetch.antt =====
-- A fetch from a server that breaks off its first answer.
use dingospeed.Base.{
  ℕ, zero, suc, ◌-◌, ◌≤◌, ◌<◌, ◌≡◌, refl, ap, inr, arith, List, [], ◌∷◌, String, true, false,
  Result, ok, replicate, length-replicate, append-nil,
}
use mathlib.Core.Path.{subst}
use dingospeed.Disk.Bytes.{byte}
use dingospeed.Http.{Connection}
use dingospeed.CacheRead.Laws.{IsSegment, joined}
use dingospeed.Fetch.{
  Answer, unreachable, Reply, FetchError, Server, replied, finished, broken,
  get_file_range_from_remote,
}
use dingospeed.Fetch.Laws.{IsHonest, get_file_range_from_remote-IsSegment}
use dingospeed.Fetch.Recovery.{IsFailing, IsServing, get_file_range_from_remote_recovers}

-- A content of sevens.
abbrev sevens : ℕ → ℕ
sevens i = 7

abbrev pub direct : Connection
direct = record {
  proxy_is_available = true;
  dynamic_proxy_enabled = false;
  hf_url_base = "https://huggingface.co";
  bp_hf_url_base = "https://hf-mirror.com";
}

-- Nothing of the first answer arrives, all of each later one.
abbrev server : Server
server zero domain a b =
    replied (record { status = 206; encoded = false; chunks = []; ending = broken })
server (suc n) domain a b =
    replied (record {
      status = 206;
      encoded = false;
      chunks = replicate (b - a) 7 ∷ [];
      ending = finished;
    })

abbrev pub keep_bytes : List ℕ → Result FetchError (List ℕ)
keep_bytes bytes = ok bytes

reply_of : Answer → Reply → Reply
reply_of (replied r) d = r
reply_of unreachable d = d

pub replied_inj : (x y : Reply) → replied x ≡ replied y → x ≡ y
unfolding reply_of
replied_inj x y h = ap (λ a. reply_of a x) h

byte-replicate_seven : (n k : ℕ) → k < n → byte (replicate n 7) k ≡ 7
byte-replicate_seven zero k h = absurd (omega arith)
byte-replicate_seven (suc n) zero h = refl
byte-replicate_seven (suc n) (suc k) h = byte-replicate_seven n k (omega arith)

sevens-IsSegment : (a b : ℕ) → a < b → IsSegment sevens a b (joined (replicate (b - a) 7 ∷ []))
sevens-IsSegment a b h = rw (append-nil {A = ℕ} (replicate (b - a) 7)) (record {
  size = omega (arith, h, length-replicate {A = ℕ} (b - a) 7);
  bytes = λ k lt.
      byte-replicate_seven (b - a) k (omega (arith, lt, length-replicate {A = ℕ} (b - a) 7));
})

no-IsSegment : (a : ℕ) → IsSegment sevens a a (joined [])
no-IsSegment a = record { size = omega arith; bytes = λ k lt. absurd (omega arith) }

server_plain :
    (n : ℕ) (domain : String) (a : ℕ) (reply : Reply)
    → server n domain a 10 ≡ replied reply
    → reply.encoded ≡ false
server_plain zero domain a reply e = subst (λ r. r.encoded ≡ false) (replied_inj _ reply e) refl
server_plain (suc n) domain a reply e = subst (λ r. r.encoded ≡ false) (replied_inj _ reply e) refl

server_honours :
    (n : ℕ) (domain : String) (a : ℕ) (reply : Reply)
    → server n domain a 10 ≡ replied reply
    → a < 10
    → (m : ℕ) × IsSegment sevens a m (joined reply.chunks) × (m ≤ 10)
server_honours zero domain a reply e h =
    subst (λ r. (m : ℕ) × IsSegment sevens a m (joined r.chunks) × (m ≤ 10)) (replied_inj _ reply e)
      (a, no-IsSegment a, omega arith)
server_honours (suc n) domain a reply e h =
    subst (λ r. (m : ℕ) × IsSegment sevens a m (joined r.chunks) × (m ≤ 10)) (replied_inj _ reply e)
      (10, sevens-IsSegment a 10 h, omega arith)

server-IsHonest : IsHonest sevens 10 server
server-IsHonest = record {
  plain = server_plain;
  honours = λ n domain a reply e ok_status h. server_honours n domain a reply e h;
}

first_fails : IsFailing 10 server 0
first_fails a h domain = inr (_, refl, record { success = refl; plain = refl }, refl, omega arith)

second_serves : IsServing 10 server 1
second_serves a h domain = (
  _,
  refl,
  record { success = refl; plain = refl },
  refl,
  omega (arith, (sevens-IsSegment a 10 h).size),
)

only_first_fails : (i : ℕ) → i < 1 → IsFailing 10 server i
only_first_fails zero h = first_fails
only_first_fails (suc i) h = absurd (omega arith)

get_file_range_from_remote_recovers_example :
    (get_file_range_from_remote 4 10 server direct false "https://huggingface.co" 3 keep_bytes
      "https://huggingface.co").0
    ≡ ok tt
get_file_range_from_remote_recovers_example =
    get_file_range_from_remote_recovers 4 10 server direct false "https://huggingface.co" 3 1
      keep_bytes "https://huggingface.co" (omega arith) (omega arith) only_first_fails second_serves

fetch_ok :
    (get_file_range_from_remote 4 10 server direct false "https://huggingface.co" 3 keep_bytes
      "https://huggingface.co").0
    ≡ ok tt
fetch_ok =
    get_file_range_from_remote_recovers 4 10 server direct false "https://huggingface.co" 3 1
      keep_bytes "https://huggingface.co" (omega arith) (omega arith) only_first_fails second_serves

get_file_range_from_remote-IsSegment_example : IsSegment sevens 4 10 (
    joined
      (get_file_range_from_remote 4 10 server direct false "https://huggingface.co" 3 keep_bytes
        "https://huggingface.co").1)
get_file_range_from_remote-IsSegment_example =
    get_file_range_from_remote-IsSegment sevens 4 10 server direct server-IsHonest false
      "https://huggingface.co" 3 keep_bytes "https://huggingface.co" (omega arith) fetch_ok
