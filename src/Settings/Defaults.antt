-- ===== src/Settings/Defaults.antt =====
-- SetDefaults and Scan of pkg/config/config.go: the settings that the program starts with.
use text.Mathlib.Text.{◌==◌ as str_eq}
use dingospeed.Base.{
  ℕ, ◌%◌, ◌+◌, ℤ, pos, negsuc, String, Bool, false, not, ◌&&◌, ◌||◌, Result, ok, err, panicked, leb,
  ◌==◌, if◌then◌else◌,
}
use dingospeed.Settings.{SysConfig, ServerConfig, Download, Retry, Scheduler, ReadBlock}

abbrev pub or_default : ℤ → ℕ → ℤ
or_default (pos n) d = if n == 0 then pos d else pos n
or_default (negsuc n) d = negsuc n

abbrev pub or_text : String → String → String
or_text s d = if str_eq s "" then d else s

unfoldable pub server_defaults : ServerConfig → ServerConfig
server_defaults s = record s {
  port = or_default s.port 8090;
  host = or_text s.host "localhost";
  pprof_port = or_default s.pprof_port 6060;
}

unfoldable pub download_defaults : Download → Download
download_defaults d = record d {
  goroutine_max_num_per_file = or_default d.goroutine_max_num_per_file 8;
  block_size = or_default d.block_size 8388608;
  resp_chunk_size = or_default d.resp_chunk_size 2048;
  remote_file_range_wait_time = or_default d.remote_file_range_wait_time 1;
  resp_chan_size = or_default d.resp_chan_size 30;
}

unfoldable pub scheduler_defaults : Scheduler → Scheduler
scheduler_defaults s = record s {
  origin_mode = s.mode;
  link_domain = or_text s.link_domain s.public_domain;
}

unfoldable pub set_defaults : SysConfig → SysConfig
unfolding server_defaults download_defaults scheduler_defaults
set_defaults c = record c {
  server = server_defaults c.server;
  download = download_defaults c.download;
  disk_clean = record c.disk_clean {
    collect_time_period = or_default c.disk_clean.collect_time_period 1;
  };
  scheduler = scheduler_defaults c.scheduler;
}

-- The `min` and `max` of a tag, of which none is negative.
abbrev pub within : ℕ → ℕ → ℤ → Bool
within low high (pos n) = leb low n && leb n high
within low high (negsuc n) = false

unfoldable pub valid_download : Download → Bool
valid_download d =
    within 1 8 d.goroutine_max_num_per_file
    && within 1048576 134217728 d.block_size
    && within 1024 8388608 d.resp_chunk_size
    && within 0 1073741824 d.remote_file_range_size
    && within 1 10 d.remote_file_range_wait_time
    && within 0 134217728 d.remote_file_buffer_size

unfoldable pub valid_read_block : ReadBlock → Bool
valid_read_block r =
    within 1 600 r.collect_time_period
    && within 1 32 r.prefetch_blocks
    && within 1 120 r.prefetch_block_ttl

unfoldable pub valid_retry : Retry → Bool
valid_retry r = within 0 60 r.delay && leb 1 r.attempts && leb r.attempts 5

-- The tags of the structs; `threshold_valid` is the one of PrefetchMemoryUsedThreshold.
unfoldable pub valid_config : Bool → SysConfig → Bool
unfolding valid_download valid_read_block valid_retry
valid_config threshold_valid c =
    (str_eq c.server.hf_scheme "https" || str_eq c.server.hf_scheme "http")
    && valid_download c.download
    && valid_read_block c.cache.read_block
    && threshold_valid
    && valid_retry c.retry
    && within 1 600 c.disk_clean.collect_time_period

abbrev pub magnitude : ℤ → ℕ
magnitude (pos n) = n
magnitude (negsuc n) = n + 1

pub data ScanError : Type 0 where
  unreadable not_a_multiple invalid_setting : ScanError

-- The tests of Scan; a remainder by 0 is a panic.
unfoldable pub check_settings : Bool → SysConfig → Result ScanError SysConfig
check_settings threshold_valid c =
    let block_size = magnitude c.download.block_size in
    if block_size == 0
    then panicked
    else if not (magnitude c.download.remote_file_range_size % block_size == 0)
    then err not_a_multiple
    else if not (valid_config threshold_valid c)
    then err invalid_setting
    else ok c

-- Scan on what yaml.Unmarshal makes of the file.
unfoldable pub scan : Bool → Result ScanError SysConfig → Result ScanError SysConfig
scan threshold_valid (err e) = err e
scan threshold_valid panicked = panicked
scan threshold_valid (ok raw) = check_settings threshold_valid (set_defaults raw)
