-- ===== src/Tests/Metadata.antt =====
-- Metadata that is asked for online and then offline.
use dingospeed.Base.{◌≡◌, refl, [], ◌∷◌, true, false, some, string_keyed}
use dingospeed.SafeMap.{new_safe_map, get_key, find}
use dingospeed.CacheContent.{read_cache_request, write_cache_request}
use dingospeed.Access.{Response, Hub, Codec, MetaState, get_file_commit_sha, get_commit_hf_offline}
use dingospeed.Metadata.{get_metadata}
use dingospeed.Metadata.Kept.{IsLeft, get_metadata-IsLeft}
use dingospeed.Tests.Access.{sample_hub, no_answers}

abbrev described : Response
described = record {
  status_code = 200;
  headers = ("content-type", "application/json") ∷ [];
  body = 123 ∷ 125 ∷ [];
}

abbrev meta_hub : Hub
meta_hub = record sample_hub { get = λ uri authorization. some described }

abbrev meta_codec : Codec
meta_codec = record {
  encode_paths = λ infos. [];
  decode_paths = λ body. some [];
  decode_sha = λ body. some "sha";
}

abbrev nothing_known : MetaState
nothing_known = record { cache = new_safe_map; files = no_answers }

abbrev asked_v1 : MetaState
asked_v1 =
    (get_metadata meta_hub meta_codec "./repos" true "models" "a/b" "v1" "get" "token"
      nothing_known).1

-- What was asked for is `v1`; the commit of `main` is known offline after it.
main_is_v1 :
    get_commit_hf_offline meta_hub meta_codec "./repos" "models" "a/b" "main" asked_v1.files
    ≡ some "sha"
unfolding get_metadata get_commit_hf_offline read_cache_request get_file_commit_sha get_key find
    new_safe_map write_cache_request
main_is_v1 = refl

get_metadata-IsLeft_example :
    IsLeft meta_hub meta_codec "./repos" true "models" "a/b" "v1" "get"
      (get_file_commit_sha meta_hub meta_codec "./repos" true false "models" "a/b" "v1" "token"
        nothing_known).0
      no_answers
      asked_v1.files
get_metadata-IsLeft_example =
    get_metadata-IsLeft meta_hub meta_codec "./repos" true "models" "a/b" "v1" "get" "token"
      nothing_known
