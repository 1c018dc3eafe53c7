-- ===== src/Tests/Reader.antt =====
-- Runs of reading from the cache.
use text.Mathlib.Text.{◌==◌ as str_eq}
use text.Mathlib.TextEquality.{eq_iff}
use dingospeed.Base.{
  ℕ, zero, suc, ◌+◌, ◌*◌, ◌<◌, ◌≡◌, refl, ◌⊎◌, inl, inr, String, List, [], ◌∷◌, ◌++◌, Bool, true,
  false, Option, some, none, ok, arith, Bool-cases, if◌then◌else◌, print_ℕ,
}
use dingospeed.Task.{DownloadTask, cached}
use dingospeed.Ranges.{has_block}
use dingospeed.Cache.{World}
use dingospeed.Cache.Blocks.{IsRightCache}
use dingospeed.Reader.{BlockCache, ReadSettings, get_block_key, read_block}
use dingospeed.Reader.Laws.{NoCollision, IsRightMemory, Reads, read_block-Reads}
use dingospeed.CacheRead.{out_result}
use dingospeed.CacheRead.Laws.{Delivers, out_result-Delivers}
use dingospeed.Tests.{small_header, small_header-IsWellFormed, bits_0_2-IsValid}
use dingospeed.Bitset.{test_index}
use dingospeed.Header.{header_bytes}
use dingospeed.Disk.{put_file}
use dingospeed.Disk.Bytes.{byte}
use dingospeed.Cache.Sync.{put_file_self}

-- A store that is a function and drops nothing.
abbrev pub Store : Type 0
Store = String → Option (List ℕ)

abbrev pub store_put : Store → String → List ℕ → Store
store_put m key v other = if str_eq key other then some v else m other

abbrev pub store_delete : Store → String → Store
store_delete m key other = if str_eq key other then none else m other

pub store-get-put :
    (m : Store) (key key' : String) (v v' : List ℕ)
    → store_put m key v key' ≡ some v'
    → ((key ≡ key') × (v ≡ v')) ⊎ (m key' ≡ some v')
store-get-put m key key' v v' e = elim (Bool-cases (str_eq key key')) [
  | inl same ↦
      let here : store_put m key v key' ≡ some v = rw same refl in
      inl ((eq_iff key key').0 same, cc (here, e))
  | inr other ↦ inr (cc (other, e))
]

pub store-get-delete :
    (m : Store) (key key' : String) (v : List ℕ)
    → store_delete m key key' ≡ some v
    → m key' ≡ some v
store-get-delete m key key' v e = elim (Bool-cases (str_eq key key')) [
  | inl same ↦ absurd (cc (same, e))
  | inr other ↦ cc (other, e)
]

abbrev pub plain_store : BlockCache Store
plain_store = record {
  get = λ m key. m key;
  put = store_put;
  delete = store_delete;
  get-put = store-get-put;
  get-delete = store-get-delete;
}

abbrev pub full_body : List ℕ
full_body = 1 ∷ 4 ∷ 7 ∷ 10 ∷ 13 ∷ 16 ∷ 19 ∷ 22 ∷ 25 ∷ 28 ∷ []

abbrev pub stored : ℕ → ℕ
stored = byte full_body

abbrev pub full_world : World
full_world = record {
  disk = put_file (λ p. none) "blob" (header_bytes small_header ++ full_body);
  cache = record { path = "blob"; header = some small_header; is_open = true };
}

pub full_world-IsRightCache : IsRightCache stored full_world small_header full_body
full_world-IsRightCache = (
  record {
    opened = refl;
    header = refl;
    file = put_file_self (λ p. none) "blob" (header_bytes small_header ++ full_body);
    shape = small_header-IsWellFormed;
    mask = bits_0_2-IsValid;
    small = omega arith;
    room = omega arith;
  },
  λ q inside present. refl,
)

-- Reading ahead is on; the digest is the name itself.
abbrev pub settings : ReadSettings
settings = record { enabled = true; prefetch_blocks = 2; memory_low = true }

abbrev pub plain : String → String
plain name = name

apart_of : {i j : ℕ} (a b : String) → str_eq a b ≡ false → a ≡ b → i ≡ j
apart_of a b other e = absurd (cc (other, (eq_iff a b).1 e))

pub apart :
    NoCollision stored full_world small_header full_body full_world-IsRightCache plain_store plain
      settings
unfolding get_block_key print_ℕ
apart zero zero hi hj e = refl
apart zero (suc zero) hi hj e = apart_of _ _ refl e
apart zero (suc (suc zero)) hi hj e = apart_of _ _ refl e
apart (suc zero) zero hi hj e = apart_of _ _ refl e
apart (suc zero) (suc zero) hi hj e = refl
apart (suc zero) (suc (suc zero)) hi hj e = apart_of _ _ refl e
apart (suc (suc zero)) zero hi hj e = apart_of _ _ refl e
apart (suc (suc zero)) (suc zero) hi hj e = apart_of _ _ refl e
apart (suc (suc zero)) (suc (suc zero)) hi hj e = refl
apart (suc (suc (suc i))) j hi hj e = absurd (omega arith)
apart zero (suc (suc (suc j))) hi hj e = absurd (omega arith)
apart (suc zero) (suc (suc (suc j))) hi hj e = absurd (omega arith)
apart (suc (suc zero)) (suc (suc (suc j))) hi hj e = absurd (omega arith)

abbrev pub empty_store : Store
empty_store key = none

pub empty_store-IsRightMemory :
    IsRightMemory stored full_world small_header full_body full_world-IsRightCache plain_store plain
      settings empty_store
empty_store-IsRightMemory i bytes lt e = cc

read_block-Reads_example :
    Reads stored full_world small_header full_body full_world-IsRightCache plain_store plain
      settings apart 2
      (read_block plain_store plain settings 2 full_world empty_store)
unfolding has_block test_index
read_block-Reads_example =
    (read_block-Reads stored full_world small_header full_body full_world-IsRightCache plain_store
        plain settings apart 2 empty_store (omega arith) empty_store-IsRightMemory).0
      refl

abbrev last_task : DownloadTask
last_task = record {
  kind = cached;
  task_no = 0;
  range_start_pos = 8;
  range_end_pos = 10;
  task_size = 1;
  file_name = "model";
  org_repo = "org/repo";
}

block_2_present : (i : ℕ) → i * 4 < 10 → 8 < (i + 1) * 4 → has_block small_header i ≡ ok true
unfolding has_block test_index
block_2_present i inside reach = let e : i ≡ 2 = omega arith in rw e refl

abbrev never : ℕ → Bool
never k = false

out_result-Delivers_example :
    Delivers stored full_world small_header full_body full_world-IsRightCache plain_store plain
      settings apart never never
      (λ k. (refl, refl))
      last_task
      (omega arith)
      (omega arith)
      block_2_present
      8
      (out_result plain_store plain settings never never full_world last_task empty_store)
out_result-Delivers_example =
    out_result-Delivers stored full_world small_header full_body full_world-IsRightCache plain_store
      plain settings apart never never (λ k. (refl, refl)) last_task (omega arith) (omega arith)
      block_2_present empty_store empty_store-IsRightMemory
