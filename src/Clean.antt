-- ===== src/Clean.antt =====
-- checkDiskUsage of internal/service/sys_service.go with the file orders of pkg/util/repo_util.go: the
-- clean-up of the disk. What the walk of the file system finds is a parameter.
pub mod Order
pub mod Laws
pub mod Largest
use text.Mathlib.Text.{◌==◌ as str_eq}
use dingospeed.Base.{
  ℕ, ◌-◌, ℤ, pos, ltb_ℤ, sub_ℕ, String, List, [], ◌∷◌, ◌++◌, Bool, true, false, not, ◌&&◌, ◌||◌,
  Option, some, none, ltb, leb, ◌==◌, if◌then◌else◌, length, get_or, split_at,
}
use dingospeed.Settings.{SysConfig}

-- A file that was found. Times are in nanoseconds; `atime` is what tryGetAtime makes of its stat.
pub record FileWithPath : Type 0 where
  pub path : String
  pub size : ℕ
  pub mod_time : ℕ
  pub atime : Option ℕ

unfoldable pub get_access_time : FileWithPath → ℕ
get_access_time f = elim f.atime [ none ↦ f.mod_time | some t ↦ t ]

-- sort.Slice, which does not say how it orders equals: here they stay in order.
unfoldable pub insert_by :
    (FileWithPath → FileWithPath → Bool) → FileWithPath → List FileWithPath → List FileWithPath
insert_by less f [] = f ∷ []
insert_by less f (g ∷ gs) = if less g f then g ∷ insert_by less f gs else f ∷ g ∷ gs

unfoldable pub sort_slice :
    (FileWithPath → FileWithPath → Bool) → List FileWithPath → List FileWithPath
unfolding insert_by
sort_slice less [] = []
sort_slice less (f ∷ fs) = insert_by less f (sort_slice less fs)

unfoldable pub earlier_access : FileWithPath → FileWithPath → Bool
unfolding get_access_time
earlier_access f g = ltb (get_access_time f) (get_access_time g)

unfoldable pub sort_files_by_access_time : List FileWithPath → List FileWithPath
unfolding sort_slice earlier_access
sort_files_by_access_time files = sort_slice earlier_access files

unfoldable pub sort_files_by_modify_time : List FileWithPath → List FileWithPath
unfolding sort_files_by_access_time
sort_files_by_modify_time files = sort_files_by_access_time files

unfoldable pub before_today : ℕ → List FileWithPath → List FileWithPath
before_today today [] = []
before_today today (f ∷ fs) =
    let rest = before_today today fs in if ltb f.mod_time today then f ∷ rest else rest

abbrev pub larger : FileWithPath → FileWithPath → Bool
larger f g = ltb g.size f.size

unfoldable pub sort_files_by_size : ℕ → List FileWithPath → List FileWithPath
unfolding before_today sort_slice
sort_files_by_size today files = sort_slice larger (before_today today files)

pub record DeleteRequest : Type 0 where
  pub instance_id : String
  pub datatype : String
  pub org : String
  pub repo : String
  pub etag : String
  pub name : String

-- deleteRecordByFilePath: what it asks the scheduler to delete. `rel_path` is filepath.Rel's answer.
unfoldable pub delete_record_by_file_path : String → Option String → Option DeleteRequest
delete_record_by_file_path instance_id none = none
delete_record_by_file_path instance_id (some rel_path) =
    let parts = split_at b'/' rel_path in
    let part : ℕ → String = λ i. get_or parts i "" in
    let request : DeleteRequest = record {
      instance_id = instance_id;
      datatype = part 1;
      org = part 2;
      repo = part 3;
      etag = "";
      name = "";
    } in
    if leb 6 (length parts)
      && str_eq (part 0) "files"
      && (str_eq (part 1) "datasets" || str_eq (part 1) "models")
    then (if str_eq (part 4) "blobs"
        then some (record request { etag = part 5 })
        else if str_eq (part 4) "resolve"
        then some (record request { name = part (length parts - 1) })
        else none)
    else none

-- The size that the loop counts on, the files that it removed and the records that it had deleted.
pub record CleanState : Type 0 where
  pub current_size : ℤ
  pub removed : List FileWithPath
  pub deleted : List DeleteRequest

-- What the clean-up meets: the answers of filepath.Rel and os.Remove, and whether there is a client.
pub record CleanWorld : Type 0 where
  pub has_client : Bool
  pub rel_path : String → Option String
  pub removes : String → Bool

module _ (w : CleanWorld) (instance_id : String) where
  unfoldable pub clean_file : FileWithPath → CleanState → CleanState
  unfolding delete_record_by_file_path
  clean_file file s =
      let request = delete_record_by_file_path instance_id (w.rel_path file.path) in
      let s' : CleanState =
        (if w.has_client
          then elim request [ none ↦ s | some r ↦ record s { deleted = s.deleted ++ (r ∷ []) } ]
          else s) in
      if w.removes file.path
      then record s' {
        current_size = sub_ℕ s'.current_size file.size;
        removed = s'.removed ++ (file ∷ []);
      }
      else s'

  unfoldable pub clean_loop : ℤ → List FileWithPath → CleanState → CleanState
  clean_loop limit_size [] s = s
  clean_loop limit_size (file ∷ files) s =
      let rest = clean_loop limit_size files (clean_file file s) in
      if ltb_ℤ s.current_size limit_size then s else rest

  -- `folder_size` is GetFolderSize of the repositories, and `files` the walk, both none on an error.
  unfoldable pub check_disk_usage :
      SysConfig → Option ℤ → ℕ → Option (List FileWithPath) → Option CleanState
  unfolding clean_loop sort_files_by_access_time sort_files_by_modify_time sort_files_by_size
  check_disk_usage c folder_size today files =
      let strategy = c.disk_clean.cache_clean_strategy in
      let limit_size = c.disk_clean.cache_size_limit in
      let clean : ℤ → List FileWithPath → Option CleanState = λ current ordered. some (
        clean_loop limit_size ordered
          (record { current_size = current; removed = []; deleted = [] })) in
      let cleaning : ℤ → List FileWithPath → Option CleanState = λ current found.
        if str_eq strategy "LRU"
        then clean current (sort_files_by_access_time found)
        else if str_eq strategy "FIFO"
        then clean current (sort_files_by_modify_time found)
        else if str_eq strategy "LARGE_FIRST"
        then clean current (sort_files_by_size today found)
        else none in
      if not c.server.online || not c.disk_clean.enabled then none else (elim folder_size [
        | none ↦ none
        | some current ↦
            if ltb_ℤ current limit_size
            then none
            else elim files [ none ↦ none | some found ↦ cleaning current found ]
      ])
