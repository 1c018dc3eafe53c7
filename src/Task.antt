-- ===== src/Task.antt =====
-- The download tasks: cache_task.go and remote_task.go of internal/downloader (their types), and
-- createCacheTask, createRemoteTask and getQueueSize of internal/dao/downloader_dao.go.
-- Channels and contexts are left out: a run is a sequence of values (`Remote`, `CacheRead`).
use dingospeed.Base.{ℕ, ◌+◌, ◌-◌, ◌/◌, min, Option, Bool, true, false, String}

-- What `config.SysConfig.Download` and the scheduler's settings say to this package.
pub record Config : Type 0 where
  pub remote_file_range_size : ℕ
  pub remote_file_buffer_size : ℕ
  pub resp_chunk_size : ℕ
  pub minimum_file_size : ℕ
  pub online : Bool
  pub is_cluster : Bool
  pub hf_url_base : String

-- TaskParam. The context keeps the two values that the scheduler's answer puts there.
pub record TaskParam : Type 0 where
  pub task_no : ℕ
  pub task_size : ℕ
  pub blobs_file : String
  pub file_name : String
  pub file_size : ℕ
  pub org_repo : String
  pub authorization : String
  pub domain : String
  pub uri : String
  pub data_type : String
  pub etag : String
  pub process_id : Option ℕ
  pub master_instance_id : Option String

-- The fields that only a RemoteFileTask has; `queue_size` is the capacity of its queue.
pub record RemoteFields : Type 0 where
  pub authorization : String
  pub domain : String
  pub uri : String
  pub data_type : String
  pub etag : String
  pub queue_size : ℕ

pub data Kind : Type 0 where
  cached : Kind
  remote : RemoteFields → Kind

-- DownloadTask with what embeds it.
pub record DownloadTask : Type 0 where
  pub kind : Kind
  pub task_no : ℕ
  pub range_start_pos : ℕ
  pub range_end_pos : ℕ
  pub task_size : ℕ
  pub file_name : String
  pub org_repo : String

abbrev pub is_remote : DownloadTask → Bool
is_remote t = elim t.kind [ cached ↦ false | remote r ↦ true ]

pub set_task_size : DownloadTask → ℕ → DownloadTask
set_task_size t size = record t { task_size = size }

unfoldable pub get_queue_size : Config → ℕ → ℕ → ℕ
get_queue_size c range_start_pos range_end_pos =
    min c.remote_file_buffer_size (range_end_pos - range_start_pos) / c.resp_chunk_size + 1

unfoldable pub create_cache_task : ℕ → ℕ → ℕ → TaskParam → DownloadTask
create_cache_task task_no start end p = record {
  kind = cached;
  task_no = task_no;
  range_start_pos = start;
  range_end_pos = end;
  task_size = p.task_size;
  file_name = p.file_name;
  org_repo = p.org_repo;
}

unfoldable pub create_remote_task : Config → ℕ → ℕ → ℕ → TaskParam → DownloadTask
create_remote_task c task_no start end p = record {
  kind = remote (record {
    authorization = p.authorization;
    domain = p.domain;
    uri = p.uri;
    data_type = p.data_type;
    etag = p.etag;
    queue_size = get_queue_size c start end;
  });
  task_no = task_no;
  range_start_pos = start;
  range_end_pos = end;
  task_size = p.task_size;
  file_name = p.file_name;
  org_repo = p.org_repo;
}
