-- ===== src/Tests/Services.antt =====
-- Settings, the proxy check, the clean-up and the reports on concrete values.
use dingospeed.Base.{
  ℕ, ◌≤◌, ◌<◌, ◌≡◌, refl, ◌⊎◌, pos, List, [], ◌∷◌, String, Bool, true, false, some, none, ok,
}
use mathlib.Core.List.{Memᴰ}
use dingospeed.Settings.{SysConfig}
use dingospeed.Settings.Defaults.{scan, check_settings, valid_config, set_defaults}
use dingospeed.Settings.Bounds.{IsUsable, scan-IsUsable}
use dingospeed.Proxy.{run_tests}
use dingospeed.Proxy.Laws.{Follows, run_tests-Follows}
use dingospeed.Clean.{FileWithPath, CleanWorld, CleanState, clean_loop, check_disk_usage}
use dingospeed.Clean.Largest.{check_disk_usage_largest}
use dingospeed.Clean.Laws.{Cleans, clean_loop-Cleans}
use dingospeed.LocalOperation.{FileProcessParam, Codec, Call, read_and_sync_file_process}
use dingospeed.LocalOperation.Laws.{reports, HasSent, read_and_sync_file_process-HasSent}

abbrev raw_config : SysConfig
raw_config = record {
  server = record {
    mode = "debug";
    host = "";
    port = pos 0;
    pprof = false;
    pprof_port = pos 0;
    metrics = true;
    online = true;
    repos = "./repos";
    hf_net_loc = "huggingface.co";
    bp_hf_net_loc = "hf-mirror.com";
    xet_net_loc = "";
    hf_scheme = "https";
  };
  download = record {
    retry_channel_num = pos 1;
    goroutine_max_num_per_file = pos 0;
    block_size = pos 0;
    req_timeout = pos 0;
    resp_chunk_size = pos 8192;
    resp_chan_size = pos 0;
    remote_file_range_size = pos 8388608;
    remote_file_range_wait_time = pos 0;
    remote_file_buffer_size = pos 8388608;
  };
  cache = record {
    default_expiration = pos 0;
    cleanup_interval = pos 0;
    read_block = record {
      enabled = true;
      collect_time_period = pos 5;
      prefetch_blocks = pos 16;
      prefetch_block_ttl = pos 30;
    };
    mount_model_dir = "";
  };
  retry = record { delay = pos 1; attempts = 3 };
  token_bucket_limit = record { capacity = pos 50; rate = pos 10; handler_capacity = pos 50 };
  disk_clean = record {
    enabled = true;
    cache_size_limit = pos 1000;
    cache_clean_strategy = "LRU";
    collect_time_period = pos 0;
    instance_id = "";
  };
  dynamic_proxy = record {
    enabled = false;
    http_proxy = "";
    http_proxy_conn_test = false;
    http_proxy_name = "";
    time_period = pos 5;
    max_continuous_fails = pos 3;
    webhook = "";
  };
  scheduler = record {
    origin_mode = "";
    mode = "standalone";
    addr = "";
    strategy = record { minimum_file_size = pos 8388608; sync_process_interval = pos 1 };
    discovery = record {
      instance_id = "a";
      host = "localhost";
      port = pos 8091;
      heartbeat_period = pos 3;
    };
    public_domain = "http://localhost";
    link_domain = "";
  };
}

scan-IsUsable_example :
    IsUsable (set_defaults raw_config) × (set_defaults raw_config ≡ set_defaults raw_config)
unfolding scan check_settings set_defaults valid_config
scan-IsUsable_example = scan-IsUsable true raw_config (set_defaults raw_config) refl

run_tests-Follows_example :
    Follows
      (pos 2)
      (some 200 ∷ none ∷ some 500 ∷ [])
      (run_tests (pos 2) (some 200 ∷ none ∷ some 500 ∷ []))
run_tests-Follows_example = run_tests-Follows (pos 2) (some 200 ∷ none ∷ some 500 ∷ [])

abbrev old_file : FileWithPath
old_file = record { path = "files/models/o/r/blobs/e1"; size = 30; mod_time = 1; atime = none }

abbrev new_file : FileWithPath
new_file = record { path = "files/models/o/r/blobs/e2"; size = 50; mod_time = 2; atime = some 9 }

abbrev two_files : List FileWithPath
two_files = new_file ∷ old_file ∷ []

abbrev clean_world : CleanWorld
clean_world = record { has_client = true; rel_path = λ path. some path; removes = λ path. true }

abbrev full_disk : CleanState
full_disk = record { current_size = pos 100; removed = []; deleted = [] }

clean_loop-Cleans_example :
    (gone : List FileWithPath) × Cleans clean_world "a"
      (pos 60)
      two_files
      full_disk
      (clean_loop clean_world "a" (pos 60) two_files full_disk)
      gone
clean_loop-Cleans_example = clean_loop-Cleans clean_world "a" (pos 60) two_files full_disk

-- A file of today, which is the largest.
abbrev young_file : FileWithPath
young_file = record { path = "files/models/o/r/blobs/e3"; size = 90; mod_time = 7; atime = none }

abbrev largest_config : SysConfig
largest_config = record raw_config {
  disk_clean = record raw_config.disk_clean {
    cache_clean_strategy = "LARGE_FIRST";
    cache_size_limit = pos 60;
  };
}

abbrev cleaned_disk : CleanState
cleaned_disk = clean_loop clean_world "a" (pos 60) (new_file ∷ old_file ∷ []) full_disk

cleaned :
    check_disk_usage clean_world "a" largest_config
      (some (pos 100))
      5
      (some (young_file ∷ old_file ∷ new_file ∷ []))
    ≡ some cleaned_disk
unfolding check_disk_usage
cleaned = refl

check_disk_usage_largest_example :
    ((g : FileWithPath)
      → Memᴰ g cleaned_disk.removed
      → Memᴰ g (young_file ∷ old_file ∷ new_file ∷ []) × (g.mod_time < 5))
    × ((f : FileWithPath)
        → Memᴰ f (young_file ∷ old_file ∷ new_file ∷ [])
        → f.mod_time < 5
        → true ≡ true
        → Memᴰ f cleaned_disk.removed
          ⊎ ((g : FileWithPath) → Memᴰ g cleaned_disk.removed → f.size ≤ g.size))
check_disk_usage_largest_example =
    check_disk_usage_largest clean_world "a" largest_config (pos 100) 5
      (young_file ∷ old_file ∷ new_file ∷ []) cleaned_disk refl cleaned

abbrev sample_report : FileProcessParam
sample_report = record {
  process_id = 1;
  datatype = "models";
  org = "o";
  repo = "r";
  name = "f";
  etag = "e";
  file_size = 10;
  start_pos = 0;
  end_pos = 10;
  status = 2;
}

-- Every line holds the same report.
abbrev sample_codec : Codec ℕ ℕ
sample_codec = record {
  read_operation = λ json. some (1, json);
  read_job = λ body. none;
  read_mount = λ body. none;
  read_process = λ body. some sample_report;
}

abbrev accept_all : Call ℕ ℕ → Bool
accept_all call = true

abbrev sample_lines : List String
sample_lines = "[12:00:00] a" ∷ "" ∷ "[12:00:01] b" ∷ []

sample_ok :
    (read_and_sync_file_process sample_codec "i" accept_all (some (sample_lines, false))).0 ≡ ok tt
unfolding read_and_sync_file_process
sample_ok = refl

read_and_sync_file_process-HasSent_example :
    (reports sample_codec "i" accept_all sample_lines ≡ [])
    ⊎ HasSent sample_codec "i" accept_all
        (reports sample_codec "i" accept_all sample_lines)
        (read_and_sync_file_process sample_codec "i" accept_all
          (some (sample_lines, false))).1.calls
read_and_sync_file_process-HasSent_example =
    read_and_sync_file_process-HasSent sample_codec "i" accept_all sample_lines false sample_ok
