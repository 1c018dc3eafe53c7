-- ===== src/CacheContent.antt =====
-- WriteCacheRequest and ReadCacheRequest of internal/dao/file_dao.go: answers of the hub kept in files,
-- their bodies in hexadecimal. The JSON around them is the library's, and read back as it was written.
pub mod RoundTrip
use dingospeed.Base.{
  ℕ, ◌+◌, ◌-◌, ◌*◌, ◌/◌, ◌%◌, String, List, [], ◌∷◌, Bool, ◌&&◌, Option, some, none, ltb, leb, ◌==◌,
  if◌then◌else◌, same_key, string_keyed,
}

pub record CacheContent : Type 0 where
  pub version : ℕ
  pub status_code : ℕ
  pub headers : List (String × String)
  -- the codes of the characters of the string
  pub content : List ℕ

-- hex.EncodeToString, with the digits 0 to 9 and a to f
unfoldable pub hex_digit : ℕ → ℕ
hex_digit n = if ltb n 10 then 48 + n else 87 + n

unfoldable pub hex_encode : List ℕ → List ℕ
unfolding hex_digit
hex_encode [] = []
hex_encode (b ∷ bs) = hex_digit (b / 16) ∷ hex_digit (b % 16) ∷ hex_encode bs

-- hex.DecodeString, which takes upper case as well
unfoldable pub hex_value : ℕ → Option ℕ
hex_value c =
    if leb 48 c && leb c 57
    then some (c - 48)
    else if leb 97 c && leb c 102
    then some (c - 87)
    else if leb 65 c && leb c 70
    then some (c - 55)
    else none

unfoldable pub hex_pair : Option ℕ → Option ℕ → Option (List ℕ) → Option (List ℕ)
hex_pair (some a) (some b) (some rest) = some ((a * 16 + b) ∷ rest)
hex_pair (some a) (some b) none = none
hex_pair (some a) none rest = none
hex_pair none b rest = none

unfoldable pub hex_decode : List ℕ → Option (List ℕ)
unfolding hex_value hex_pair
hex_decode [] = some []
hex_decode (c ∷ []) = none
hex_decode (c ∷ d ∷ rest) = hex_pair (hex_value c) (hex_value d) (hex_decode rest)

-- The files, by path.
abbrev pub Files : Type 0
Files = String → Option CacheContent

-- consts.VersionSnapshot
abbrev pub version_snapshot : ℕ
version_snapshot = 1

unfoldable pub write_cache_request : Files → String → ℕ → List (String × String) → List ℕ → Files
unfolding hex_encode
write_cache_request files api_path status_code headers content path =
    if same_key api_path path
    then some (record {
      version = version_snapshot;
      status_code = status_code;
      headers = headers;
      content = hex_encode content;
    })
    else files path

-- What is read, with OriginContent.
unfoldable pub decode_content : Option CacheContent → Option (CacheContent × List ℕ)
unfolding hex_decode
decode_content none = none
decode_content (some c) = elim (hex_decode c.content) [
  | none ↦ none
  | some origin_content ↦ some (c, origin_content)
]

unfoldable pub read_cache_request : Files → String → Option (CacheContent × List ℕ)
unfolding decode_content
read_cache_request files api_path = decode_content (files api_path)
