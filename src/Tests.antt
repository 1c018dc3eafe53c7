-- ===== src/Tests.antt =====
-- Small values on which the definitions run: a file of 10 bytes in blocks of 4, two of them cached.
pub mod Header
pub mod Ranges
pub mod Cache
pub mod Reader
pub mod Remote
pub mod Manager
pub mod Download
pub mod Pool
pub mod Files
pub mod Modelscope
pub mod Metadata
pub mod Fetch
pub mod Services
pub mod Requests
pub mod Access
pub mod Fetched
use dingospeed.Base.{
  ℕ, ◌+◌, ◌^◌, ◌≤◌, ◌<◌, ◌≡◌, refl, String, List, [], ◌∷◌, Bool, true, false, Option, some, none,
  arith,
}
use dingospeed.Bitset.{Bitset, new_bitset}
use dingospeed.Bitset.Laws.{IsValid}
use dingospeed.Header.{DingCacheHeader, magic_number}
use dingospeed.Header.RoundTrip.{IsWellFormed}
use dingospeed.Task.{Config, TaskParam}
use dingospeed.Ranges.Presence.{IsUsable}

-- Bits 0 and 2.
abbrev pub bits_0_2 : Bitset
bits_0_2 = record { size = 8; bits = 5 ∷ [] }

pub bits_0_2-IsValid : IsValid bits_0_2
bits_0_2-IsValid = record { enough = omega arith; bytes = (omega arith, tt) }

abbrev pub small_header : DingCacheHeader
small_header = record {
  magic = magic_number;
  version = 8;
  block_size = 4;
  file_size = 10;
  block_mask_size = 8;
  block_number = 3;
  block_mask = bits_0_2;
}

pub small_header-IsWellFormed : IsWellFormed small_header
small_header-IsWellFormed = record {
  magic = refl;
  version = refl;
  block_size = omega arith;
  block_size_u64 = omega arith;
  file_size = omega arith;
  mask_size = omega arith;
  capacity = omega arith;
  block_number = refl;
  mask = refl;
  bits = refl;
}

pub small_header-IsUsable : IsUsable small_header
small_header-IsUsable = record {
  block_size = omega arith;
  mask = bits_0_2-IsValid;
  fits = omega arith;
}

abbrev pub small_config : Config
small_config = record {
  remote_file_range_size = 3;
  remote_file_buffer_size = 8;
  resp_chunk_size = 2;
  minimum_file_size = 0;
  online = true;
  is_cluster = true;
  hf_url_base = "https://hf";
}

abbrev pub small_param : TaskParam
small_param = record {
  task_no = 5;
  task_size = 0;
  blobs_file = "blob";
  file_name = "model";
  file_size = 10;
  org_repo = "org/repo";
  authorization = "";
  domain = "";
  uri = "/model";
  data_type = "models";
  etag = "e";
  process_id = none;
  master_instance_id = none;
}

-- The content of the file: byte 3 q + 1 at position q.
abbrev pub content : ℕ → ℕ
content q = q + q + q + 1
