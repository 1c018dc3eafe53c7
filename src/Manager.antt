-- ===== src/Manager.antt =====
-- internal/downloader/file_manager.go: the cache files that are open, with the number of their users.
-- A DingCache is reached through the manager alone, so the map holds the object itself. A count is
-- at least 1 while it is in the map, and `<= 0` after one is taken off is 0 here.
pub mod Keeps
pub mod Laws
use dingospeed.Base.{
  ℕ, ◌+◌, ◌-◌, String, Bool, Option, some, none, Result, ok, err, panicked, ltb, ◌==◌, ◌&&◌,
  if◌then◌else◌, string_keyed,
}
use dingospeed.Errors.{Error}
use dingospeed.Header.{DingCacheHeader}
use dingospeed.Disk.{Disk}
use dingospeed.Cache.{World, DingCache, new_ding_cache, resize}
use dingospeed.SafeMap.{SafeMap, set_key, get_key, delete_key, new_safe_map}

pub record DingCacheManager : Type 0 where
  pub ding_cache_map : SafeMap String DingCache
  pub ding_cache_ref : SafeMap String ℕ
  pub disk : Disk

unfoldable pub get_instance : Disk → DingCacheManager
get_instance disk = record {
  ding_cache_map = new_safe_map;
  ding_cache_ref = new_safe_map;
  disk = disk;
}

abbrev pub file_size_of : DingCache → ℕ
file_size_of cache = elim cache.header [ none ↦ 0 | some h ↦ h.file_size ]

-- NewDingCache and, for a file without a size, Resize.
unfoldable pub open_ding_file : ℕ → String → ℕ → Disk → Result Error (Unit {0}) × World
open_ding_file block_size save_path file_size disk =
    let (opened, w) = new_ding_cache disk save_path block_size in
    elim opened [
      | err e ↦ (err e, w)
      | panicked ↦ (panicked, w)
      | ok done ↦
          if file_size_of w.cache == 0 && ltb 0 file_size then resize file_size w else (ok tt, w)
    ]

-- The rest of GetDingFile: what was opened is kept with one user.
unfoldable pub keep_opened :
    String
    → DingCacheManager
    → Result Error (Unit {0}) × World
    → Result Error DingCache × DingCacheManager
keep_opened save_path f (err e, w) = (err e, record f { disk = w.disk })
keep_opened save_path f (panicked, w) = (panicked, record f { disk = w.disk })
keep_opened save_path f (ok done, w) = (
  ok w.cache,
  record {
    ding_cache_map = set_key f.ding_cache_map save_path w.cache;
    ding_cache_ref = set_key f.ding_cache_ref save_path 1;
    disk = w.disk;
  },
)

-- A file that is open gets one more user.
unfoldable pub add_user : String → DingCacheManager → DingCacheManager
add_user save_path f = elim (get_key f.ding_cache_ref save_path) [
  | some ref_count ↦ record f {
    ding_cache_ref = set_key f.ding_cache_ref save_path (ref_count + 1);
  }
  | none ↦ f
]

-- `block_size` is config.SysConfig.Download.BlockSize.
unfoldable pub get_ding_file :
    ℕ → String → ℕ → DingCacheManager → Result Error DingCache × DingCacheManager
get_ding_file block_size save_path file_size f = elim (get_key f.ding_cache_map save_path) [
  | some ding_file ↦ (ok ding_file, add_user save_path f)
  | none ↦ keep_opened save_path f (open_ding_file block_size save_path file_size f.disk)
]

-- Close empties a DingCache; the map then drops it.
unfoldable pub released_ding_file : String → DingCacheManager → DingCacheManager
released_ding_file save_path f = elim (get_key f.ding_cache_ref save_path) [
  | none ↦ f
  | some ref_count ↦
      let left = ref_count - 1 in
      if left == 0
      then record f {
        ding_cache_map = delete_key f.ding_cache_map save_path;
        ding_cache_ref = delete_key f.ding_cache_ref save_path;
      }
      else record f { ding_cache_ref = set_key f.ding_cache_ref save_path left }
]
