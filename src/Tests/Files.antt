-- ===== src/Tests/Files.antt =====
-- A file that is linked and served.
use text.Mathlib.Text.{◌==◌ as str_eq}
use dingospeed.Base.{
  ◌≡◌, ◌≢◌, refl, String, [], ◌∷◌, true, false, some, none, if◌then◌else◌, arith, string_same_iff,
  ◌⊎◌, string_keyed, split_at,
}
use dingospeed.Http.{contains}
use dingospeed.SafeMap.{without, new_safe_map, find, get_key, set_key, exist}
use dingospeed.CacheContent.{read_cache_request, write_cache_request}
use dingospeed.Access.{
  Hub, Codec, MetaState, get_paths_info, get_file_commit_sha, requested_info, remote_info,
  answered_info, keep_info, request_file_path_info, kept_info,
}
use dingospeed.Access.Laws.{IsGuarding, IsConsented, at_start}
use dingospeed.Links.{regular, FileSystem, Faults, construct_blobs_and_file_file}
use dingospeed.Links.Laws.{
  IsFaultless, Links, construct_blobs_and_file_file-Links, construct_blobs_and_file_file-AreKept,
}
use dingospeed.RangeHeader.{requested_range, parse_range_params, range_parts, range_of, atoi64}
use dingospeed.FileGet.{FileRequest, file_common, answer_range, answer_linked, answer_method}
use dingospeed.FileGet.Laws.{IsServed, file_common-IsConsented}
use dingospeed.Tests.Access.{Holder, sample_info, answer, sample_hub, no_answers, answer_200}

abbrev no_faults : Faults
no_faults = record {
  make_blobs_dir = false;
  make_files_dir = false;
  stat_files = false;
  stat_blobs = false;
  lstat = false;
  lstat_link = false;
  remove = false;
  rename = false;
  create = false;
  symlink = false;
}

abbrev failing_rename : Faults
failing_rename = record no_faults { rename = true }

-- A file of an older version.
abbrev old_file : FileSystem
old_file path = if str_eq path "f" then some (regular (1 ∷ 2 ∷ [])) else none

b≢f : ◌≢◌ {A = String} "b" "f"
b≢f e =
    let same : str_eq "b" "f" ≡ true = (string_same_iff "b" "f").1 e in
    absurd (ground (arith, same))

no_faults-IsFaultless : IsFaultless no_faults "b" "f" b≢f
no_faults-IsFaultless = record {
  stat_files = refl;
  stat_blobs = refl;
  lstat = refl;
  lstat_link = refl;
  remove = refl;
  rename = refl;
  create = refl;
  symlink = refl;
  make_blobs_dir = refl;
  make_files_dir = refl;
}

construct_blobs_and_file_file-Links_example :
    Links no_faults "b" "f" b≢f
      (1 ∷ 2 ∷ [])
      old_file
      (construct_blobs_and_file_file no_faults "b" "f" old_file)
construct_blobs_and_file_file-Links_example =
    construct_blobs_and_file_file-Links no_faults "b" "f" b≢f no_faults-IsFaultless old_file tt tt

construct_blobs_and_file_file-AreKept_example :
    ((construct_blobs_and_file_file failing_rename "b" "f" old_file).1 "f"
      ≡ some (regular (1 ∷ 2 ∷ [])))
    ⊎ ((construct_blobs_and_file_file failing_rename "b" "f" old_file).1 "b"
        ≡ some (regular (1 ∷ 2 ∷ [])))
construct_blobs_and_file_file-AreKept_example =
    construct_blobs_and_file_file-AreKept failing_rename "b" "f" b≢f refl old_file

-- Bytes are lost when os.Stat of their path fails.
abbrev failing_stat : Faults
failing_stat = record no_faults { stat_blobs = true }

abbrev bytes_there : FileSystem
bytes_there path = if str_eq path "b" then some (regular (1 ∷ 2 ∷ [])) else none

bytes_lost :
    (construct_blobs_and_file_file failing_stat "b" "f" bytes_there).1 "b" ≡ some (regular [])
unfolding construct_blobs_and_file_file
bytes_lost = refl

-- The error of a rename is lost.
rename_unseen : (construct_blobs_and_file_file failing_rename "b" "f" old_file).0 ≡ true
unfolding construct_blobs_and_file_file
rename_unseen = refl

abbrev sha_hub : Hub
sha_hub = record sample_hub { get = λ uri authorization. some (answer 200) }

sha_hub-IsGuarding : IsGuarding Holder sha_hub
sha_hub-IsGuarding t o commit a paths r came success =
    (string_same_iff a "token").0 (answer_200 (str_eq a "token") r came success)

abbrev sha_codec : Codec
sha_codec = record {
  encode_paths = λ infos. [];
  decode_paths = λ body. some (sample_info ∷ []);
  decode_sha = λ body. some "sha";
}

abbrev whole_request : FileRequest
whole_request = record {
  repos = "./repos";
  repo_type = "models";
  org_repo = "a/b";
  commit = "main";
  file_name = "f";
  method = "get";
  range = "bytes=2-5";
  authorization = "token";
}

abbrev no_files : FileSystem
no_files path = none

abbrev start : MetaState
start = record { cache = new_safe_map; files = no_answers }

whole_request-IsServed :
    IsServed (file_common sha_hub sha_codec no_faults true whole_request start no_files).0
unfolding file_common get_file_commit_sha get_key find new_safe_map get_paths_info exist set_key
    requested_info remote_info answered_info keep_info request_file_path_info kept_info
    read_cache_request write_cache_request requested_range parse_range_params range_parts range_of
    atoi64 construct_blobs_and_file_file answer_range answer_linked answer_method without split_at
    contains
whole_request-IsServed = tt

file_common-IsConsented_example : IsConsented Holder "models" "a/b" "token"
file_common-IsConsented_example =
    file_common-IsConsented Holder sha_hub sha_codec sha_hub-IsGuarding no_faults true whole_request
      start no_files (at_start no_answers) whole_request-IsServed
