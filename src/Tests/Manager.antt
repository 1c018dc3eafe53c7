-- ===== src/Tests/Manager.antt =====
-- SafeMap and the registry of open files on concrete values.
use dingospeed.Base.{
  Bool-cases, inl, inr, string_same_iff, ℕ, ◌≡◌, refl, arith, [], ◌∷◌, String, true, false, Option,
  some, none, if◌then◌else◌, nat_keyed, string_keyed, same_key,
}
use dingospeed.SafeMap.{
  SafeMap, set_key, get_key, exist, delete_key, delete_all, find, new_safe_map,
}
use dingospeed.SafeMap.Laws.{Represents, update, CountsSet, CountsDelete, refines_map}
use dingospeed.Disk.{Disk}
use dingospeed.Manager.{DingCacheManager, get_instance, get_ding_file, released_ding_file}
use dingospeed.Cache.{DingCache}
use dingospeed.Manager.Laws.{
  IsConsistent, IsHeld, Gets, with_users, get_ding_file-Gets, released_ding_file-IsConsistent,
}

abbrev sample_map : SafeMap ℕ ℕ
sample_map = record { m = (3, 7) ∷ [] }

abbrev sample_function : ℕ → Option ℕ
sample_function j = if same_key 3 j then some 7 else none

sample_map-Represents : Represents sample_map sample_function
unfolding find get_key
sample_map-Represents = record { gets = λ j. refl; unique = (refl, tt) }

refines_map_example :
    Represents (set_key sample_map 4 8) (update sample_function 4 (some 8))
    × Represents (delete_key sample_map 4) (update sample_function 4 none)
    × Represents (delete_all sample_map) (λ j. none)
    × (exist sample_map 4 ≡ false)
    × CountsSet sample_map 4 8
    × CountsDelete sample_map 4
refines_map_example = refines_map sample_map sample_function 4 8 sample_map-Represents

abbrev no_files : Disk
no_files path = none

abbrev nobody : String → ℕ
nobody path = 0

start-IsConsistent : IsConsistent (get_instance no_files) nobody
unfolding get_instance new_safe_map get_key find
start-IsConsistent = record { refs = λ p. refl; held = λ p. refl }

get_ding_file-Gets_example :
    Gets "blob" nobody (get_instance no_files) (get_ding_file 4 "blob" 10 (get_instance no_files))
get_ding_file-Gets_example =
    get_ding_file-Gets 4 "blob" 10 (get_instance no_files) nobody start-IsConsistent

abbrev open_file : DingCache
open_file = record { path = "blob"; header = none; is_open = true }

abbrev one_open : DingCacheManager
one_open = record {
  ding_cache_map = record { m = ("blob", open_file) ∷ [] };
  ding_cache_ref = record { m = ("blob", 1) ∷ [] };
  disk = no_files;
}

abbrev one_user : String → ℕ
one_user path = if same_key "blob" path then 1 else 0

one_open-IsHeld : (p : String) → IsHeld p (one_user p) (get_key one_open.ding_cache_map p)
unfolding get_key find
one_open-IsHeld p = elim (Bool-cases (same_key "blob" p)) [
  | inl same ↦
      rw same (omega arith, record { opened = refl; path_is = (string_same_iff "blob" p).0 same })
  | inr other ↦ rw other refl
]

one_open-IsConsistent : IsConsistent one_open one_user
unfolding get_key find
one_open-IsConsistent = record { refs = λ p. ground arith; held = one_open-IsHeld }

released_ding_file-IsConsistent_example :
    IsConsistent (released_ding_file "blob" one_open) (with_users one_user "blob" 0)
released_ding_file-IsConsistent_example =
    released_ding_file-IsConsistent "blob" one_open one_user one_open-IsConsistent
