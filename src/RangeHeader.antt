-- ===== src/RangeHeader.antt =====
-- The Range header: parseRangeParams and constructRespHeader of internal/dao/file_dao.go, with Atoi64
-- of pkg/util/util.go.
pub mod Decimal
pub mod RoundTrip
use Prim.Native.Char.{code}
use Prim.Native.String.{◌++◌}
use text.Mathlib.Text.{starts_with, ◌==◌ as str_eq}
use dingospeed.Base.{
  ℕ, zero, suc, ◌+◌, ◌-◌, ◌*◌, ◌^◌, String, List, [], ◌∷◌, Bool, ◌&&◌, Option, some, none, Result,
  ok, err, panicked, ltb, leb, ◌==◌, if◌then◌else◌, print_ℕ, split_at,
}
use dingospeed.Http.{contains}
use dingospeed.Repo.{first_part}

unfoldable pub digits_value : String → ℕ → Option ℕ
digits_value String.[] value = some value
digits_value (String.◌∷◌ c s) value =
    let rest = digits_value s (value * 10 + (code c - 48)) in
    if leb 48 (code c) && leb (code c) 57 then rest else none

unfoldable pub unsigned_value : String → ℕ
unfolding digits_value
unsigned_value s =
    if str_eq s ""
    then 0
    else elim (digits_value s 0) [ none ↦ 0 | some n ↦ if ltb n (2 ^ 63) then n else 0 ]

-- Atoi64 of a text without a '-'.
unfoldable pub atoi64 : String → ℕ
unfolding unsigned_value
atoi64 String.[] = 0
atoi64 (String.◌∷◌ c s) =
    if code c == b'+' then unsigned_value s else unsigned_value (String.◌∷◌ c s)

unfoldable pub drop_chars : ℕ → String → String
drop_chars zero s = s
drop_chars (suc n) String.[] = ""
drop_chars (suc n) (String.◌∷◌ c s) = drop_chars n s

-- fileRange[6:] and what is before a "/".
unfoldable pub range_parts : String → List String
unfolding drop_chars
range_parts file_range =
    let range = (if contains file_range "/" then first_part file_range else file_range) in
    split_at b'-' (if starts_with range "bytes=" then drop_chars 6 range else range)

-- The first and the last byte; `file_size` is not 0. Any other number of parts is a panic.
unfoldable pub range_of : List String → ℕ → Result (Unit {0}) (ℕ × ℕ)
unfolding atoi64
range_of (first ∷ last ∷ []) file_size =
    ok (atoi64 first, if atoi64 last == 0 then file_size - 1 else atoi64 last)
range_of _ file_size = panicked

unfoldable pub parse_range_params : String → ℕ → Result (Unit {0}) (ℕ × ℕ)
unfolding range_parts range_of
parse_range_params file_range file_size = range_of (range_parts file_range) file_size

-- The header that a fetch sends (remote_task.go), and the one that stands for the whole file.
unfoldable pub range_header : ℕ → ℕ → String
range_header first last = "bytes=" ++ (print_ℕ first ++ ("-" ++ print_ℕ last))

pub record PathsInfo : Type 0 where
  pub type : String
  pub oid : String
  pub size : ℕ
  pub lfs_oid : String
  pub path : String
  pub x_xet_hash : String
  pub location : String
  pub link : String

unfoldable pub requested_range : String → ℕ → Result (Unit {0}) (ℕ × ℕ)
unfolding parse_range_params range_header
requested_range head_range size =
    let asked : String = (if str_eq head_range "" then range_header 0 (size - 1) else head_range) in
    if ltb 0 size
    then (elim (parse_range_params asked size) [
      | ok (start_pos, end_pos) ↦ ok (start_pos, end_pos + 1)
      | err e ↦ err e
      | panicked ↦ panicked
    ])
    else ok (0, 0)

-- The headers of the answer as pairs; `length` is util.Itoa(endPos - startPos), which may be negative.
unfoldable pub resp_headers : String → PathsInfo → String → List (String × String)
resp_headers length info commit =
    let etag : String = (if str_eq info.lfs_oid "" then info.oid else info.lfs_oid) in
    let located : List (String × String) =
      ("Location", info.location) ∷ ("X-Xet-Hash", info.x_xet_hash) ∷ ("Link", info.link) ∷ [] in
    let linked : List (String × String) =
      ("X-Linked-Etag", etag)
      ∷ ("X-Linked-Size", print_ℕ info.size)
      ∷ (if str_eq info.location "" then [] else located) in
    ("content-length", length)
    ∷ (if str_eq commit "" then linked else ("x-repo-commit", commit) ∷ linked)
