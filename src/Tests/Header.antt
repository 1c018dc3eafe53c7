-- ===== src/Tests/Header.antt =====
-- Runs of the bit set, of the header and of a write to a file.
use dingospeed.Base.{◌+◌, ◌*◌, ◌^◌, ◌≤◌, ◌<◌, ◌≡◌, refl, [], ◌∷◌, ◌++◌, ok, arith}
use dingospeed.Bitset.{new_bitset}
use dingospeed.Header.{header_bytes, read_header, header_of, read_magic, read_bits, valid_header}
use dingospeed.Header.Codec.{u64_bytes, take_u64}
use dingospeed.Header.RoundTrip.{read_header-header_bytes}
use dingospeed.Block.{get_block_info, get_block_info_bounds}
use dingospeed.Tests.{small_header, small_header-IsWellFormed}

read_header-header_bytes_example :
    read_header (header_bytes small_header ++ (7 ∷ 8 ∷ [])) ≡ ok small_header
read_header-header_bytes_example =
    read_header-header_bytes small_header (7 ∷ 8 ∷ []) small_header-IsWellFormed

small_file_read : read_header (header_bytes small_header) ≡ ok small_header
unfolding read_header header_bytes read_magic take_u64 u64_bytes read_bits new_bitset valid_header
    header_of
small_file_read = refl

get_block_info_bounds_example :
    let info = get_block_info 9 4 10 in
    (info.1 ≤ 9)
    × (9 < info.2)
    × (info.2 ≤ 10)
    × (info.2 ≤ info.1 + 4)
    × ((info.0 + 1) * 4 < 2 ^ 63)
get_block_info_bounds_example =
    get_block_info_bounds 9 4 10 (omega arith) (omega arith) (omega arith)
