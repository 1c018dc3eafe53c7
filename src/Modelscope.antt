-- ===== src/Modelscope.antt =====
-- internal/service/modelscope_service.go: a file of ModelScope, from the cache file of this node and,
-- behind its end, from the official site. The cache file has no header: what it has is its beginning.
-- The client stays, no other request fetches the same file meanwhile, and calls of the operating system
-- do not fail. What the official site answers is an argument; `none` is an end of the range that is -1.
pub mod Copy
pub mod Reads
pub mod Laws
use dingospeed.Base.{
  ℕ, zero, suc, ◌+◌, ◌-◌, ◌*◌, ◌/◌, List, [], ◌∷◌, ◌++◌, Bool, true, false, not, ◌&&◌, ◌||◌, Option,
  some, none, ℤ, pos, negsuc, ltb, leb, ◌==◌, if◌then◌else◌, length, take, drop, min,
}
use dingospeed.Disk.{write_at}

-- CalculateBlockInfo: the number of a block, its first and its last byte.
unfoldable pub calculate_block_info : ℕ → ℕ → ℕ × ℕ × ℕ
calculate_block_info offset chunk_size =
    let block_num = offset / chunk_size in
    let block_start = block_num * chunk_size in
    (block_num, block_start, block_start + chunk_size - 1)

-- IsBlockComplete, by the size of the file alone.
unfoldable pub is_block_complete : List ℕ → ℕ → ℕ → Bool
is_block_complete file block_num chunk_size =
    let block_start = block_num * chunk_size in
    if leb (length file) block_start
    then false
    else ltb (block_start + chunk_size - 1) (length file)

-- The cache file, what the client was sent, and the body as it comes in.
pub record CopyState : Type 0 where
  pub file : List ℕ
  pub sent : List ℕ
  pub written : ℕ
  pub body : List (List ℕ)

pub data CopyEnd : Type 0 where
  complete interrupted out_of_fuel : CopyEnd

-- A Read of up to `n` bytes.
unfoldable pub read_body : ℕ → List ℕ → List (List ℕ) → List (List ℕ)
read_body n c cs = if ltb n (length c) then drop n c ∷ cs else cs

-- The loop of copyResponseToCacheAndClient; `broken` says how the body ends.
unfoldable pub copy_loop : ℕ → ℕ → Bool → ℕ → CopyState → CopyEnd × CopyState
unfolding calculate_block_info is_block_complete read_body
copy_loop chunk_size current_offset broken zero s = (out_of_fuel, s)
copy_loop chunk_size current_offset broken (suc fuel) s =
    let offset = current_offset + s.written in
    let info = calculate_block_info offset chunk_size in
    let size = info.2 - offset + 1 in
    let skip =
      copy_loop chunk_size current_offset broken fuel (record s { written = s.written + size }) in
    if is_block_complete s.file info.0 chunk_size then skip else elim s.body [
      | [] ↦ (if broken then interrupted else complete, s)
      | c ∷ cs ↦ copy_loop chunk_size current_offset broken fuel (record {
        file = write_at s.file offset (take size c);
        sent = s.sent ++ take size c;
        written = s.written + length (take size c);
        body = read_body size c cs;
      })
    ]

-- The answer of the official site to a request from some byte on, to the last one that is asked for.
pub record Reply : Type 0 where
  pub status : ℕ
  -- the first byte of the Content-Range, 0 when there is none
  pub offset : ℕ
  pub body : List (List ℕ)
  pub broken : Bool

abbrev pub Official : Type 0
Official = ℕ → Option ℕ → Option Reply

-- What the client gets, and how it ends. An answer that is no success is told to the client as JSON,
-- and the nil response that goes with it is then used.
pub data Ending : Type 0 where
  finished failed nil_response crashed unending : Ending

pub record Served : Type 0 where
  pub sent : List ℕ
  pub ending : Ending
  pub file : List ℕ

-- The last byte that the cache gives.
unfoldable pub cache_end : ℕ → Option ℕ → ℕ
cache_end size none = size - 1
cache_end size (some client_end) = if ltb client_end (size - 1) then client_end else size - 1

-- The bytes that a round of writeCacheData reads, a panic, or no end of the round.
pub data RoundRead : Type 0 where
  read_done : List ℕ → RoundRead
  read_panics read_never_ends : RoundRead

-- The reads of one round, with a buffer of `n` bytes, while `left` bytes are wanted of the rest of the
-- file. A Read into no bytes gives 0 and no error.
unfoldable pub read_cached : ℕ → ℕ → List ℕ → ℕ → List ℕ → Option (List ℕ)
read_cached n zero rest left sent = none
read_cached n (suc fuel) rest left sent =
    let read_size = if ltb n left then n else left in
    let chunk = take read_size rest in
    let more = read_cached n fuel (drop read_size rest) (left - length chunk) (sent ++ chunk) in
    if left == 0
    then some sent
    else if ltb 0 read_size && length chunk == 0
    then some sent
    else more

-- The buffer has the size of the settings; `make` panics below 0. Each Read into some bytes leaves one
-- byte less at least, so a round that has not ended after `left` of them never does.
unfoldable pub read_round : ℤ → List ℕ → ℕ → RoundRead
unfolding read_cached
read_round (negsuc k) rest left = read_panics
read_round (pos n) rest left = elim (read_cached n (left + 1) rest left []) [
  | none ↦ read_never_ends
  | some bytes ↦ read_done bytes
]

-- What the cache gave, and whether the call waited for more until it gave up.
pub data CacheData : Type 0 where
  gave : List ℕ → Bool → CacheData
  cache_panics cache_never_ends : CacheData

unfoldable pub after_round : ℕ → Option ℕ → RoundRead → CacheData
after_round client_start client_end read_panics = cache_panics
after_round client_start client_end read_never_ends = cache_never_ends
after_round client_start none (read_done bytes) = gave bytes false
after_round client_start (some end) (read_done bytes) =
    gave bytes (not (ltb end (client_start + length bytes)))

-- writeCacheData on a file that does not change: the bytes from the client's start on. After a round
-- that leaves something to wait for, nothing more comes.
unfoldable pub write_cache_data : ℤ → List ℕ → ℕ → Option ℕ → CacheData
unfolding cache_end read_round after_round
write_cache_data chunk_size file client_start client_end =
    let last = cache_end (length file) client_end in
    let round = read_round chunk_size (drop client_start file) (last + 1 - client_start) in
    if ltb last client_start then gave [] true else after_round client_start client_end round

-- downloadAndWriteRemaining, after `sent` went to the client.
unfoldable pub after_copy : List ℕ → CopyEnd × CopyState → Served
after_copy sent (complete, s) = record { sent = sent ++ s.sent; ending = finished; file = s.file }
after_copy sent (interrupted, s) = record { sent = sent ++ s.sent; ending = failed; file = s.file }
after_copy sent (out_of_fuel, s) = record { sent = sent ++ s.sent; ending = failed; file = s.file }

abbrev pub total : List (List ℕ) → ℕ
total [] = 0
total (c ∷ cs) = suc (length c + total cs)

unfoldable pub copy_reply : ℕ → List ℕ → List ℕ → Option Reply → Served
unfolding copy_loop after_copy
copy_reply chunk_size file sent none = record { sent = sent; ending = nil_response; file = file }
copy_reply chunk_size file sent (some reply) =
    if leb 200 reply.status && ltb reply.status 300
    then after_copy sent (
        copy_loop chunk_size reply.offset reply.broken (length file + total reply.body + 1)
          (record { file = file; sent = []; written = 0; body = reply.body }))
    else record { sent = sent; ending = nil_response; file = file }

-- The size of a block in copyResponseToCacheAndClient.
unfoldable pub copy_chunk_size : ℤ → ℕ
copy_chunk_size (negsuc k) = 8388608
copy_chunk_size (pos n) = if n == 0 then 8388608 else n

-- What follows the bytes from the cache. A round that does not end reads no bytes.
unfoldable pub serve_rest : ℕ → Official → List ℕ → ℕ → Option ℕ → CacheData → Served
unfolding copy_reply
serve_rest chunk_size official file client_start client_end (gave bytes need_remote_download) =
    let reached = client_start + length bytes in
    let satisfied : Bool = (elim client_end [ none ↦ false | some end ↦ leb end (reached - 1) ]) in
    let actual_start = if need_remote_download then reached else length file in
    if satisfied
    then record { sent = bytes; ending = finished; file = file }
    else copy_reply chunk_size file bytes (official actual_start client_end)
serve_rest chunk_size official file client_start client_end cache_panics = record {
  sent = [];
  ending = crashed;
  file = file;
}
serve_rest chunk_size official file client_start client_end cache_never_ends = record {
  sent = [];
  ending = unending;
  file = file;
}

-- HandleFileDownload from the Range header on; an empty cache file was removed before. `chunk_size` is
-- config.SysConfig.Modelscope.ChunkSize.
unfoldable pub handle_file_download : ℤ → Official → List ℕ → ℕ → Option ℕ → Served
unfolding write_cache_data serve_rest copy_chunk_size
handle_file_download chunk_size official file client_start client_end =
    let n = copy_chunk_size chunk_size in
    if ltb 0 (length file) && ltb client_start (length file)
    then serve_rest n official file client_start client_end
        (write_cache_data chunk_size file client_start client_end)
    else copy_reply n file [] (official client_start client_end)
