-- ===== src/Settings.antt =====
-- pkg/config/config.go: the settings, as a file gives them, and what the code reads from them.
-- An int or int64 is ℤ. What goes to logging, the TLS files and a float64 of the read cache are left
-- out, as are the getters that multiply a number by a unit of time, and the lock of the mode.
pub mod Defaults
pub mod Bounds
use Prim.Native.String.{◌++◌}
use text.Mathlib.Text.{◌==◌ as str_eq}
use dingospeed.Base.{ℕ, ℤ, pos, ltb_ℤ, String, Bool, if◌then◌else◌}

pub record ServerConfig : Type 0 where
  pub mode : String
  pub host : String
  pub port : ℤ
  pub pprof : Bool
  pub pprof_port : ℤ
  pub metrics : Bool
  pub online : Bool
  pub repos : String
  pub hf_net_loc : String
  pub bp_hf_net_loc : String
  pub xet_net_loc : String
  pub hf_scheme : String

pub record Download : Type 0 where
  pub retry_channel_num : ℤ
  pub goroutine_max_num_per_file : ℤ
  pub block_size : ℤ
  pub req_timeout : ℤ
  pub resp_chunk_size : ℤ
  pub resp_chan_size : ℤ
  pub remote_file_range_size : ℤ
  pub remote_file_range_wait_time : ℤ
  pub remote_file_buffer_size : ℤ

pub record ReadBlock : Type 0 where
  pub enabled : Bool
  pub collect_time_period : ℤ
  pub prefetch_blocks : ℤ
  pub prefetch_block_ttl : ℤ

pub record Cache : Type 0 where
  pub default_expiration : ℤ
  pub cleanup_interval : ℤ
  pub read_block : ReadBlock
  pub mount_model_dir : String

pub record Strategy : Type 0 where
  pub minimum_file_size : ℤ
  pub sync_process_interval : ℤ

pub record Discovery : Type 0 where
  pub instance_id : String
  pub host : String
  pub port : ℤ
  pub heartbeat_period : ℤ

pub record Scheduler : Type 0 where
  pub origin_mode : String
  pub mode : String
  pub addr : String
  pub strategy : Strategy
  pub discovery : Discovery
  pub public_domain : String
  pub link_domain : String

-- `attempts` is a uint there.
pub record Retry : Type 0 where
  pub delay : ℤ
  pub attempts : ℕ

pub record TokenBucketLimit : Type 0 where
  pub capacity : ℤ
  pub rate : ℤ
  pub handler_capacity : ℤ

pub record DiskClean : Type 0 where
  pub enabled : Bool
  pub cache_size_limit : ℤ
  pub cache_clean_strategy : String
  pub collect_time_period : ℤ
  pub instance_id : String

pub record DynamicProxy : Type 0 where
  pub enabled : Bool
  pub http_proxy : String
  pub http_proxy_conn_test : Bool
  pub http_proxy_name : String
  pub time_period : ℤ
  pub max_continuous_fails : ℤ
  pub webhook : String

-- The struct Config; SysConfig is the variable that holds it.
pub record SysConfig : Type 0 where
  pub server : ServerConfig
  pub download : Download
  pub cache : Cache
  pub retry : Retry
  pub token_bucket_limit : TokenBucketLimit
  pub disk_clean : DiskClean
  pub dynamic_proxy : DynamicProxy
  pub scheduler : Scheduler

abbrev pub url_base : String → String → String
url_base scheme net_loc = scheme ++ ("://" ++ net_loc)

unfoldable pub get_hf_url_base : SysConfig → String
get_hf_url_base c = url_base c.server.hf_scheme c.server.hf_net_loc

unfoldable pub get_bp_hf_url_base : SysConfig → String
get_bp_hf_url_base c = url_base c.server.hf_scheme c.server.bp_hf_net_loc

-- A getter that fills in a default returns the settings that it leaves, too.
unfoldable pub get_xet_net_loc : SysConfig → String × SysConfig
get_xet_net_loc c =
    if str_eq c.server.xet_net_loc ""
    then (
      "cas-bridge.xethub.hf.co",
      record c { server = record c.server { xet_net_loc = "cas-bridge.xethub.hf.co" } },
    )
    else (c.server.xet_net_loc, c)

unfoldable pub get_xet_url_base : SysConfig → String × SysConfig
unfolding get_xet_net_loc
get_xet_url_base c =
    let (net_loc, c') = get_xet_net_loc c in (url_base c.server.hf_scheme net_loc, c')

unfoldable pub get_sync_process_interval : SysConfig → ℤ × SysConfig
get_sync_process_interval c =
    if ltb_ℤ c.scheduler.strategy.sync_process_interval (pos 1)
    then (
      pos 1,
      record c {
        scheduler = record c.scheduler {
          strategy = record c.scheduler.strategy { sync_process_interval = pos 1 };
        };
      },
    )
    else (c.scheduler.strategy.sync_process_interval, c)

unfoldable pub set_scheduler_model : SysConfig → String → SysConfig
set_scheduler_model c mode = record c { scheduler = record c.scheduler { mode = mode } }

-- consts.SchedulerModeCluster
unfoldable pub is_cluster : SysConfig → Bool
is_cluster c = str_eq c.scheduler.mode "cluster"
