-- ===== src/Header.antt =====
-- internal/downloader/file_header.go: the header of a cache file and its bytes.
-- A file is the list of its bytes; the fields are uint64, and their arithmetic wraps.
pub mod Codec
pub mod RoundTrip
use dingospeed.Base.{
  ℕ, zero, suc, ◌+◌, ◌-◌, ◌*◌, ◌/◌, ◌%◌, ◌^◌, List, [], ◌∷◌, ◌++◌, Bool, not, ◌&&◌, Result, ok, err,
  ◌>>=◌, ◌>>◌, guard, ltb, ◌==◌, if◌then◌else◌, length, take, replicate,
}
use dingospeed.Errors.{
  Error, read_magic_err, not_olah_file, eof, zero_block_size, file_too_large, older_version,
  newer_version,
}
use dingospeed.Bitset.{Bitset, new_bitset}
use Codec.{u64_bytes, take_u64}

abbrev pub current_olah_cache_version : ℕ
current_olah_cache_version = 8

-- Not an `abbrev`: a bit set of this size is never to be computed.
unfoldable pub default_block_mask_max : ℕ
default_block_mask_max = 1024 * 1024

-- 'O', 'L', 'A', 'H'
abbrev pub magic_number : List ℕ
magic_number = b'O' ∷ b'L' ∷ b'A' ∷ b'H' ∷ []

pub record DingCacheHeader : Type 0 where
  pub magic : List ℕ
  pub version : ℕ
  pub block_size : ℕ
  pub file_size : ℕ
  pub block_mask_size : ℕ
  pub block_number : ℕ
  pub block_mask : Bitset

-- `(fileSize + blockSize - 1) / blockSize` on uint64.
abbrev pub count_blocks : ℕ → ℕ → ℕ
count_blocks file_size block_size = (file_size + block_size + (2 ^ 64 - 1)) % 2 ^ 64 / block_size

unfoldable pub new_header : ℕ → ℕ → ℕ → DingCacheHeader
new_header version block_size file_size = record {
  magic = magic_number;
  version = version;
  block_size = block_size;
  file_size = file_size;
  block_mask_size = default_block_mask_max;
  block_number = count_blocks file_size block_size;
  block_mask = new_bitset default_block_mask_max;
}

abbrev pub header_size : DingCacheHeader → ℕ
header_size h = 36 + length h.block_mask.bits

unfoldable pub valid_header : DingCacheHeader → Result Error (Unit {0})
valid_header h =
    if ltb (h.block_mask_size * h.block_size % 2 ^ 64) h.file_size
    then err file_too_large
    else if ltb h.version current_olah_cache_version
    then err older_version
    else if ltb current_olah_cache_version h.version
    then err newer_version
    else ok tt

-- The first `f.Read`: any byte at all is no error, and fewer than four are no magic number.
unfoldable pub read_magic : List ℕ → Result Error (List ℕ)
read_magic [] = err read_magic_err
read_magic (o ∷ l ∷ a ∷ h ∷ rest) =
    if o == b'O' && l == b'L' && a == b'A' && h == b'H' then ok rest else err not_olah_file
read_magic (o ∷ rest) = err not_olah_file

-- The last `f.Read`, into a slice of `n` zeros: a short read is no error, unless it is empty.
unfoldable pub read_bits : ℕ → List ℕ → Result Error (List ℕ)
read_bits zero rest = ok []
read_bits (suc n) [] = err eof
read_bits (suc n) (b ∷ rest) = ok (take (suc n) ((b ∷ rest) ++ replicate (suc n) 0))

-- The header that `Read` fills in, with the bits that it has read.
unfoldable pub header_of : ℕ → ℕ → ℕ → ℕ → List ℕ → DingCacheHeader
header_of version block_size file_size block_mask_size bits = record {
  magic = magic_number;
  version = version;
  block_size = block_size;
  file_size = file_size;
  block_mask_size = block_mask_size;
  block_number = count_blocks file_size block_size;
  block_mask = record { size = (new_bitset block_mask_size).size; bits = bits };
}

unfoldable pub read_header : List ℕ → Result Error DingCacheHeader
read_header file = do
  r₀ ← read_magic file
  (version, r₁) ← take_u64 r₀
  (block_size, r₂) ← take_u64 r₁
  (file_size, r₃) ← take_u64 r₂
  (block_mask_size, r₄) ← take_u64 r₃
  guard (not (block_size == 0)) zero_block_size
  bits ← read_bits (length (new_bitset block_mask_size).bits) r₄
  let h = header_of version block_size file_size block_mask_size bits
  valid_header h
  ok h

-- What `Write` sends to the file, from its start.
unfoldable pub header_bytes : DingCacheHeader → List ℕ
header_bytes h =
    h.magic
    ++ (u64_bytes h.version
        ++ (u64_bytes h.block_size
            ++ (u64_bytes h.file_size ++ (u64_bytes h.block_mask_size ++ h.block_mask.bits))))
