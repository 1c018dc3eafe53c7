-- ===== src/CacheContent/RoundTrip.antt =====
-- An answer that was kept is read back.
use dingospeed.Base.{
  ℕ, ◌/◌, ◌%◌, ◌<◌, ◌≡◌, ◌≢◌, refl, ap, ◌∙◌, String, List, [], ◌∷◌, Option, some, if◌then◌else◌,
  arith, same_key, string_keyed, string_same_iff, either_way,
}
use dingospeed.CacheContent.{
  CacheContent, Files, hex_digit, hex_encode, hex_value, hex_pair, hex_decode, decode_content,
  version_snapshot, write_cache_request, read_cache_request,
}

hex_value-hex_digit : (n : ℕ) → n < 16 → hex_value (hex_digit n) ≡ some n
unfolding hex_value hex_digit
hex_value-hex_digit n h = ground arith

abbrev pub IsBytes : List ℕ → Type 0
IsBytes [] = Unit {0}
IsBytes (b ∷ bs) = (b < 256) × IsBytes bs

pub hex_decode-hex_encode : (bs : List ℕ) → IsBytes bs → hex_decode (hex_encode bs) ≡ some bs
unfolding hex_decode hex_encode hex_pair
hex_decode-hex_encode [] h = refl
hex_decode-hex_encode (b ∷ bs) (small, h) =
    rw
      (
        hex_value-hex_digit (b / 16) (omega arith),
        hex_value-hex_digit (b % 16) (omega arith),
        hex_decode-hex_encode bs h,
      )
      (ap (λ n. some (n ∷ bs)) (omega arith))

module _ (status : ℕ) (headers : List (String × String)) (content : List ℕ) where
  abbrev written : CacheContent
  written = record {
    version = version_snapshot;
    status_code = status;
    headers = headers;
    content = hex_encode content;
  }

  -- What is written under a path is read back there.
  pub read_written :
      (files : Files) (path : String)
      → IsBytes content
      → read_cache_request (write_cache_request files path status headers content) path
        ≡ some (written, content)
  unfolding read_cache_request write_cache_request decode_content
  read_written files path small =
      let here : (if same_key path path then some written else files path) ≡ some written =
        either_way (λ o. o ≡ some written) (same_key path path) (λ _. refl)
          (λ differs. absurd (ground (arith, differs, string_same_iff path path))) in
      ap decode_content here ∙ rw (hex_decode-hex_encode content small, decode_content) refl

  -- Another path has what it had.
  pub write_elsewhere :
      (files : Files) (path other : String)
      → path ≢ other
      → write_cache_request files path status headers content other ≡ files other
  unfolding write_cache_request
  write_elsewhere files path other apart =
      either_way (λ (o : Option CacheContent). o ≡ files other) (same_key path other)
        (λ same. absurd (apart ((string_same_iff path other).0 same))) (λ _. refl)

-- What is written under a path is read back there, its bytes unchanged, and what is read under
-- another path stays as it was.
pub read_cache_request-write_cache_request :
    (files : Files) (path : String) (status : ℕ) (headers : List (String × String))
    (content : List ℕ) (other : String)
    → IsBytes content
    → path ≢ other
    → let files' = write_cache_request files path status headers content in
      (read_cache_request files' path
        ≡ some (
          record {
            version = version_snapshot;
            status_code = status;
            headers = headers;
            content = hex_encode content;
          },
          content,
        ))
      × (read_cache_request files' other ≡ read_cache_request files other)
unfolding read_cache_request
read_cache_request-write_cache_request files path status headers content other small apart = (
  read_written status headers content files path small,
  ap decode_content (write_elsewhere status headers content files path other apart),
)
