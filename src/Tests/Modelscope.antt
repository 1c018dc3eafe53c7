-- ===== src/Tests/Modelscope.antt =====
-- Requests for a file of ten bytes of which the node has four.
use dingospeed.Base.{ℕ, zero, suc, ◌≡◌, refl, List, [], ◌∷◌, false, some, none, pos, arith}
use dingospeed.Disk.{write_at}
use dingospeed.CacheRead.Laws.{IsSegment, joined}
use dingospeed.Modelscope.Copy.{copy_loop_ends}
use dingospeed.Modelscope.{
  read_cached, Reply, Official, nil_response, unending, copy_loop, complete, handle_file_download,
}
use dingospeed.Modelscope.Laws.{IsHonest, Delivers, handle_file_download-Delivers}
use dingospeed.Tests.{content}
use dingospeed.Tests.Remote.{SameBytes, SameBytes-IsSegment}

abbrev four_bytes : List ℕ
four_bytes = 1 ∷ 4 ∷ 7 ∷ 10 ∷ []

abbrev rest_reply : Reply
rest_reply = record {
  status = 206;
  offset = 4;
  body = (13 ∷ 16 ∷ []) ∷ (19 ∷ 22 ∷ 25 ∷ 28 ∷ []) ∷ [];
  broken = false;
}

-- It has what is behind byte 4, and refuses other starts.
abbrev site : Official
site a client_end = some rest_reply

rest_bytes : SameBytes 4 (joined rest_reply.body)
rest_bytes = (refl, (refl, (refl, (refl, (refl, (refl, tt))))))

four_bytes-IsSegment : IsSegment content 0 4 four_bytes
four_bytes-IsSegment = SameBytes-IsSegment 0 four_bytes (refl, (refl, (refl, (refl, tt))))

rest_reply-IsHonest : IsHonest content 10 3 (omega arith) site none 4 rest_reply
rest_reply-IsHonest = record {
  status = refl;
  offset = refl;
  whole = refl;
  bytes = SameBytes-IsSegment 4 (joined rest_reply.body) rest_bytes;
}

handle_file_download-Delivers_example :
    Delivers content 10 3
      (omega arith)
      site
      2
      10
      (handle_file_download (pos 3) site four_bytes 2 none)
handle_file_download-Delivers_example =
    handle_file_download-Delivers content 10 3 (omega arith) site four_bytes 2 none
      four_bytes-IsSegment (omega arith) (omega arith)
      (λ more. (rest_reply, refl, rest_reply-IsHonest)) (λ e. omega arith)

-- The whole file is there and no end is asked for: the site refuses what is behind the end.
abbrev refusing : Official
refusing a client_end = some (record { status = 416; offset = 0; body = []; broken = false })

whole_file_fails : (handle_file_download (pos 3) refusing four_bytes 0 none).ending ≡ nil_response
unfolding handle_file_download
whole_file_fails = refl

-- A range that begins behind the end of the file leaves a hole.
abbrev far_site : Official
far_site a client_end =
    some (record { status = 206; offset = 6; body = (19 ∷ 22 ∷ []) ∷ []; broken = false })

hole :
    (handle_file_download (pos 3) far_site four_bytes 6 (some 7)).file
    ≡ 1 ∷ 4 ∷ 7 ∷ 10 ∷ 0 ∷ 0 ∷ 19 ∷ 22 ∷ []
unfolding handle_file_download write_at
hole = refl

-- An answer from the first byte on, although the first block is there.
copy_loop_ends_example :
    (copy_loop 3 0 false 14
      (record { file = four_bytes; sent = []; written = 0; body = rest_reply.body })).0
    ≡ complete
copy_loop_ends_example =
    copy_loop_ends 3 (omega arith) 0 false 14 four_bytes [] 0 rest_reply.body (omega arith)

-- With no chunk size in the settings, reading the cached bytes does not end.
unset_chunk_size : (handle_file_download (pos 0) refusing four_bytes 0 none).ending ≡ unending
unfolding handle_file_download
unset_chunk_size = refl

-- Nor does it with more rounds.
never_read : (fuel : ℕ) → read_cached 0 fuel four_bytes 4 [] ≡ none
unfolding read_cached
never_read zero = refl
never_read (suc fuel) = never_read fuel
