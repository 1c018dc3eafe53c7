-- ===== src/Settings/Bounds.antt =====
-- What the program may rely on once the settings were read.
use text.Mathlib.Text.{◌==◌ as str_eq}
use dingospeed.Base.{
  ==→eq, panicked, ℕ, ◌%◌, ◌≤◌, ◌≡◌, refl, sym, ℤ, pos, negsuc, String, Bool, true, false, not,
  ◌&&◌, ◌||◌, ◌⊎◌, inl, inr, ok, err, ◌==◌, if◌then◌else◌, arith, string_same_iff,
}
use dingospeed.Settings.{SysConfig, Retry}
use dingospeed.Settings.Defaults.{
  within, or_default, or_text, valid_download, valid_retry, valid_config, scan, check_settings,
  not_a_multiple, invalid_setting, set_defaults, server_defaults, download_defaults,
  scheduler_defaults, magnitude,
}

-- A setting is the number `n`, which lies in the bounds.
abbrev pub IsWithin : ℕ → ℕ → ℤ → Type 0
IsWithin low high z = (n : ℕ) × (z ≡ pos n) × (low ≤ n) × (n ≤ high)

within-IsWithin : (low high : ℕ) (z : ℤ) → within low high z ≡ true → IsWithin low high z
within-IsWithin low high (pos n) h = (n, refl, ground arith, ground arith)
within-IsWithin low high (negsuc n) h = ground arith

pub record IsUsable (c : SysConfig) : Type 0 where
  pub block_size : IsWithin 1048576 134217728 c.download.block_size
  pub resp_chunk_size : IsWithin 1024 8388608 c.download.resp_chunk_size
  pub range_size : IsWithin 0 1073741824 c.download.remote_file_range_size
  pub multiple : magnitude c.download.remote_file_range_size % magnitude c.download.block_size ≡ 0
  pub buffer_size : IsWithin 0 134217728 c.download.remote_file_buffer_size
  pub attempts : (1 ≤ c.retry.attempts) × (c.retry.attempts ≤ 5)
  pub scheme : (c.server.hf_scheme ≡ "https") ⊎ (c.server.hf_scheme ≡ "http")

all_six :
    (a b c d e f : Bool)
    → (a && b && c && d && e && f) ≡ true
    → (a ≡ true) × (b ≡ true) × (c ≡ true) × (d ≡ true) × (e ≡ true) × (f ≡ true)
all_six a b c d e f h = ground arith

one_of : (a b : Bool) → (a || b) ≡ true → (a ≡ true) ⊎ (b ≡ true)
one_of true b h = inl refl
one_of false b h = inr h

valid_scheme :
    (s : String) → (str_eq s "https" || str_eq s "http") ≡ true → (s ≡ "https") ⊎ (s ≡ "http")
valid_scheme s h = elim (one_of _ _ h) [
  | inl e ↦ inl ((string_same_iff s "https").0 e)
  | inr e ↦ inr ((string_same_iff s "http").0 e)
]

enough_attempts : (r : Retry) → valid_retry r ≡ true → (1 ≤ r.attempts) × (r.attempts ≤ 5)
unfolding valid_retry
enough_attempts r h = ground arith

valid_config-IsUsable :
    (t : Bool) (c : SysConfig)
    → valid_config t c ≡ true
    → magnitude c.download.remote_file_range_size % magnitude c.download.block_size ≡ 0
    → IsUsable c
unfolding valid_config valid_download valid_retry
valid_config-IsUsable t c h m =
    let (scheme, download, read_block, threshold, retry, clean) = all_six _ _ _ _ _ _ h in
    let (number, block, chunk, range, wait, buffer) = all_six _ _ _ _ _ _ download in
    record {
      block_size = within-IsWithin _ _ _ block;
      resp_chunk_size = within-IsWithin _ _ _ chunk;
      range_size = within-IsWithin _ _ _ range;
      multiple = m;
      buffer_size = within-IsWithin _ _ _ buffer;
      attempts = enough_attempts c.retry retry;
      scheme = valid_scheme c.server.hf_scheme scheme;
    }

ladder :
    (a b v : Bool) (d c : SysConfig)
    → (if a
        then panicked
        else if not b
        then err not_a_multiple
        else if not v
        then err invalid_setting
        else ok d)
      ≡ ok c
    → (b ≡ true) × (v ≡ true) × (d ≡ c)
ladder true b v d c h = ground arith
ladder false false v d c h = ground arith
ladder false true false d c h = ground arith
ladder false true true d c h = (refl, refl, cc)

scanned : (t : Bool) (d c : SysConfig) → check_settings t d ≡ ok c → IsUsable c × (c ≡ d)
unfolding check_settings
scanned t d c h =
    let block = magnitude d.download.block_size in
    let range = magnitude d.download.remote_file_range_size in
    let (m, v, e) : ((range % block == 0) ≡ true) × (valid_config t d ≡ true) × (d ≡ c) =
      ladder _ _ _ d c h in
    (rw (← e) (valid_config-IsUsable t d v (==→eq _ _ m)), sym e)

-- When the settings are read without an error they are the file's with the defaults filled in, and:
-- the block size is a number from 1 MiB to 128 MiB, the chunk size one from 1 KiB to 8 MiB, the size
-- of a remote range a multiple of the block size and at most 1 GiB, the buffer at most 128 MiB, the
-- attempts of a request are 1 to 5, and the scheme is http or https.
pub scan-IsUsable :
    (t : Bool) (raw c : SysConfig) → scan t (ok raw) ≡ ok c → IsUsable c × (c ≡ set_defaults raw)
unfolding scan
scan-IsUsable t raw c h = scanned t (set_defaults raw) c h

or_default_twice :
    (z : ℤ) (d : ℕ) → (d == 0) ≡ false → or_default (or_default z d) d ≡ or_default z d
or_default_twice (pos n) d h = ground (arith, h)
or_default_twice (negsuc n) d h = refl

or_text_twice : (s d : String) → or_text (or_text s d) d ≡ or_text s d
or_text_twice s d = ground (arith, string_same_iff s "", string_same_iff d "")

-- Filling in the defaults a second time changes nothing.
pub set_defaults_idempotent : (c : SysConfig) → set_defaults (set_defaults c) ≡ set_defaults c
unfolding set_defaults server_defaults download_defaults scheduler_defaults
set_defaults_idempotent c =
    simp
      (
        or_default_twice c.server.port 8090 refl,
        or_text_twice c.server.host "localhost",
        or_default_twice c.server.pprof_port 6060 refl,
        or_default_twice c.download.goroutine_max_num_per_file 8 refl,
        or_default_twice c.download.block_size 8388608 refl,
        or_default_twice c.download.resp_chunk_size 2048 refl,
        or_default_twice c.download.remote_file_range_wait_time 1 refl,
        or_default_twice c.download.resp_chan_size 30 refl,
        or_default_twice c.disk_clean.collect_time_period 1 refl,
        or_text_twice c.scheduler.link_domain c.scheduler.public_domain,
      )
      refl
