-- ===== src/Tests/Access.antt =====
-- A user who is allowed asks twice, and one who is not.
use text.Mathlib.Text.{◌==◌ as str_eq}
use dingospeed.Base.{
  ℕ, ◌≡◌, refl, ap, arith, [], ◌∷◌, String, Bool, true, false, Option, some, none, ok,
  if◌then◌else◌, string_same_iff, string_keyed,
}
use dingospeed.SafeMap.{new_safe_map, exist, find, set_key, get_key}
use dingospeed.RangeHeader.{PathsInfo}
use dingospeed.CacheContent.{Files, read_cache_request, write_cache_request}
use dingospeed.Access.{
  Hub, Codec, Response, MetaState, get_paths_info, requested_info, remote_info, answered_info,
  keep_info, request_file_path_info, kept_info,
}
use dingospeed.Access.Laws.{IsGuarding, Reach, at_start, then_step, asks_info}

-- Only the holder of one token may read.
abbrev pub Holder : String → String → String → Type 0
Holder repo_type org_repo authorization = authorization ≡ "token"

abbrev pub sample_info : PathsInfo
sample_info = record {
  type = "file";
  oid = "e";
  size = 10;
  lfs_oid = "";
  path = "f";
  x_xet_hash = "";
  location = "";
  link = "";
}

abbrev pub answer : ℕ → Response
answer status = record { status_code = status; body = []; headers = [] }

abbrev pub sample_hub : Hub
sample_hub = record {
  post = λ uri authorization paths.
      if str_eq authorization "token" then some (answer 200) else some (answer 401);
  head = λ uri authorization. none;
  get = λ uri authorization. none;
}

abbrev sample_codec : Codec
sample_codec = record {
  encode_paths = λ infos. [];
  decode_paths = λ body. some (sample_info ∷ []);
  decode_sha = λ body. none;
}

status_of : Option Response → ℕ
status_of none = 0
status_of (some r) = r.status_code

pub answer_200 :
    (b : Bool) (r : Response)
    → (if b then some (answer 200) else some (answer 401)) ≡ some r
    → r.status_code ≡ 200
    → b ≡ true
unfolding status_of
answer_200 true r e ok_status = refl
answer_200 false r e ok_status = absurd (ground (arith, ap status_of e, ok_status))

sample_hub-IsGuarding : IsGuarding Holder sample_hub
sample_hub-IsGuarding t o commit a paths r came success =
    (string_same_iff a "token").0 (answer_200 (str_eq a "token") r came success)

abbrev pub no_answers : Files
no_answers path = none

abbrev asked_once : MetaState
asked_once =
    (get_paths_info sample_hub sample_codec "./repos" "/a/b/resolve/main/f" "models" "a/b" "main"
      "token" "f" (record { cache = new_safe_map; files = no_answers })).1

asked_once-Reach : Reach Holder asked_once
asked_once-Reach = then_step (at_start no_answers) (
    asks_info sample_hub sample_codec "./repos" "/a/b/resolve/main/f" "models" "a/b" "main" "token"
      "f" _ sample_hub-IsGuarding)

asked_again :
    (get_paths_info sample_hub sample_codec "./repos" "/a/b/resolve/main/f" "models" "a/b" "main"
      "token" "f" asked_once).0
    ≡ ok sample_info
unfolding get_paths_info exist find set_key requested_info remote_info answered_info keep_info
    request_file_path_info kept_info get_key read_cache_request new_safe_map write_cache_request
asked_again = refl
