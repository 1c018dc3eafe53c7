-- ===== src/Header/RoundTrip.antt =====
-- Headers survive a write and a read, and what a read accepts is consistent.
use dingospeed.Base.{
  ℕ, suc, zero, ◌+◌, ◌*◌, ◌/◌, ◌%◌, ◌^◌, ◌≤◌, ◌<◌, ◌≡◌, refl, ap, ◌∙◌, List, [], ◌∷◌, ◌++◌, ok,
  ◌>>=◌, ◌>>◌, guard, not, ◌==◌, when_ok, arith, ne→==, append_assoc, length, take, replicate,
  length-append, length-take, length-replicate,
}
use dingospeed.Errors.{zero_block_size}
use dingospeed.Bitset.{new_bitset}
use dingospeed.Header.Codec.{u64_bytes, take_u64, take_u64-u64_bytes, length-u64_bytes}
use dingospeed.Header.{
  DingCacheHeader, magic_number, count_blocks, current_olah_cache_version, header_size,
  valid_header, read_magic, read_bits, header_of, read_header, header_bytes,
}

-- What the constructors and the reader establish.
pub record IsWellFormed (h : DingCacheHeader) : Type 0 where
  pub magic : h.magic ≡ magic_number
  pub version : h.version ≡ current_olah_cache_version
  pub block_size : 0 < h.block_size
  pub block_size_u64 : h.block_size < 2 ^ 64
  pub file_size : h.file_size < 2 ^ 64
  pub mask_size : h.block_mask_size + 7 < 2 ^ 64
  pub capacity : h.file_size ≤ h.block_mask_size * h.block_size % 2 ^ 64
  pub block_number : h.block_number ≡ count_blocks h.file_size h.block_size
  pub mask : h.block_mask.size ≡ h.block_mask_size
  pub bits : length h.block_mask.bits ≡ (h.block_mask_size + 7) / 8

pub length-header_bytes :
    (h : DingCacheHeader) → h.magic ≡ magic_number → length (header_bytes h) ≡ header_size h
unfolding header_bytes
length-header_bytes h e = rw e (simp (length-append, length-u64_bytes) (omega arith))

take-append_all : (xs ys : List ℕ) (n : ℕ) → length xs ≡ n → take n (xs ++ ys) ≡ xs
take-append_all [] ys zero e = refl
take-append_all [] ys (suc n) e = absurd (omega arith)
take-append_all (x ∷ xs) ys zero e = absurd (omega arith)
take-append_all (x ∷ xs) ys (suc n) e = ap (◌∷◌ x) (take-append_all xs ys n (omega arith))

read_bits_full :
    (n : ℕ) (bits rest : List ℕ) → length bits ≡ n → read_bits n (bits ++ rest) ≡ ok bits
unfolding read_bits
read_bits_full zero [] rest e = refl
read_bits_full (suc n) [] rest e = absurd (omega arith)
read_bits_full zero (b ∷ bits) rest e = absurd (omega arith)
read_bits_full (suc n) (b ∷ bits) rest e = rw (append_assoc bits rest (replicate (suc n) 0)) (
    ap (λ (t : List ℕ). ok (b ∷ t))
      (take-append_all bits (rest ++ replicate (suc n) 0) n (omega arith)))

length-new_bitset : (n : ℕ) → length (new_bitset n).bits ≡ (n + 7) % 2 ^ 64 / 8
unfolding new_bitset
length-new_bitset n = length-replicate {A = ℕ} ((n + 7) % 2 ^ 64 / 8) 0

size-new_bitset : (n : ℕ) → (new_bitset n).size ≡ n
unfolding new_bitset
size-new_bitset n = refl

pub valid_header_ok :
    (h : DingCacheHeader)
    → h.file_size ≤ h.block_mask_size * h.block_size % 2 ^ 64
    → h.version ≡ current_olah_cache_version
    → valid_header h ≡ ok tt
unfolding valid_header
valid_header_ok h capacity version = ground arith

-- On the fields of a well-formed header `Read` fills in that header.
header_of_self :
    (h : DingCacheHeader)
    → IsWellFormed h
    → header_of h.version h.block_size h.file_size h.block_mask_size h.block_mask.bits ≡ h
unfolding header_of
header_of_self h w = ground (arith, size-new_bitset h.block_mask_size)

-- `Read` with its parts shut: what it does to four numbers and the bits.
read_fields :
    (v bs fs n : ℕ) (bits rest : List ℕ)
    → v < 2 ^ 64
    → bs < 2 ^ 64
    → fs < 2 ^ 64
    → n < 2 ^ 64
    → 0 < bs
    → length bits ≡ length (new_bitset n).bits
    → valid_header (header_of v bs fs n bits) ≡ ok tt
    → read_header (
        magic_number
        ++ (u64_bytes v ++ (u64_bytes bs ++ (u64_bytes fs ++ (u64_bytes n ++ (bits ++ rest))))))
      ≡ ok (header_of v bs fs n bits)
read_fields v bs fs n bits rest hv hb hf hn pos len valid =
    unfold read_header read_magic in
    rw (take_u64-u64_bytes v _ hv) (
      rw (take_u64-u64_bytes bs _ hb) (
        rw (take_u64-u64_bytes fs _ hf) (
          rw (take_u64-u64_bytes n _ hn)
            (rw (ne→== bs 0 (omega arith)) (rw (read_bits_full _ bits rest len) (rw valid))))))

header_bytes-append :
    (h : DingCacheHeader) (rest : List ℕ)
    → h.magic ≡ magic_number
    → header_bytes h ++ rest
      ≡ magic_number
        ++ (u64_bytes h.version
            ++ (u64_bytes h.block_size
                ++ (u64_bytes h.file_size
                    ++ (u64_bytes h.block_mask_size ++ (h.block_mask.bits ++ rest)))))
unfolding header_bytes
header_bytes-append h rest e = rw e (simp append_assoc)

-- A well-formed header that `Write` put at the start of a file is what `Read` returns, whatever
-- follows it in the file.
pub read_header-header_bytes :
    (h : DingCacheHeader) (rest : List ℕ)
    → IsWellFormed h
    → read_header (header_bytes h ++ rest) ≡ ok h
read_header-header_bytes h rest w =
    let same = header_of_self h w in
    rw (header_bytes-append h rest w.magic) (
      read_fields h.version h.block_size h.file_size h.block_mask_size h.block_mask.bits rest
        (omega (arith, w.version)) w.block_size_u64 w.file_size (omega (arith, w.mask_size))
        w.block_size (omega (arith, w.bits, w.mask_size, length-new_bitset h.block_mask_size))
        (rw same (valid_header_ok h w.capacity w.version))
      ∙ ap ok same)

length-take_le : (n : ℕ) (xs : List ℕ) → n ≤ length xs → length (take n xs) ≡ n
length-take_le n xs h = omega (arith, length-take n xs)

length-read_bits : (n : ℕ) (rest bits : List ℕ) → read_bits n rest ≡ ok bits → length bits ≡ n
unfolding read_bits
length-read_bits zero rest bits e = ground arith
length-read_bits (suc n) [] bits e = cc
length-read_bits (suc n) (b ∷ rest) bits e = ground (
  arith,
  length-take n (rest ++ replicate (suc n) 0),
  length-append rest (replicate (suc n) 0),
  length-replicate {A = ℕ} n 0,
)

-- What `Read` has checked of the header that it returns.
pub record IsAccepted (h : DingCacheHeader) : Type 0 where
  pub version : h.version ≡ current_olah_cache_version
  pub block_size : 0 < h.block_size
  pub capacity : h.file_size ≤ h.block_mask_size * h.block_size % 2 ^ 64
  pub block_number : h.block_number ≡ count_blocks h.file_size h.block_size
  pub mask : h.block_mask.size ≡ h.block_mask_size
  pub bits : length h.block_mask.bits ≡ (h.block_mask_size + 7) % 2 ^ 64 / 8

checked :
    (v bs fs n : ℕ) (r : List ℕ) (h : DingCacheHeader)
    → (do
      guard (not (bs == 0)) zero_block_size
      bits ← read_bits (length (new_bitset n).bits) r
      valid_header (header_of v bs fs n bits)
      ok (header_of v bs fs n bits))
      ≡ ok h
    → IsAccepted h
unfolding valid_header header_of
checked v bs fs n r h e = when_ok (guard (not (bs == 0)) zero_block_size) _ e λ _ pos e₁.
    when_ok (read_bits (length (new_bitset n).bits) r) _ e₁ λ bits eb e₂.
      ground (arith, pos, e₂, length-read_bits _ r bits eb, length-new_bitset n, size-new_bitset n)

-- What `Read` accepts of any file has the current version, a block size that is not 0, a file that
-- fits its mask, and the block count and the mask that belong to these.
pub read_header-IsAccepted :
    (file : List ℕ) (h : DingCacheHeader) → read_header file ≡ ok h → IsAccepted h
unfolding read_header
read_header-IsAccepted file h e = when_ok (read_magic file) _ e λ r₀ _ e₀.
    when_ok (take_u64 r₀) _ e₀ λ (v, r₁) _ e₁. when_ok (take_u64 r₁) _ e₁ λ (bs, r₂) _ e₂.
      when_ok (take_u64 r₂) _ e₂
        λ (fs, r₃) _ e₃. when_ok (take_u64 r₃) _ e₃ λ (n, r₄) _ e₄. checked v bs fs n r₄ h e₄
