-- ===== src/Reader.antt =====
-- ReadBlock, readBlockAndCache and getBlockKey of internal/downloader/file.go.
-- Blocks that were read are kept in memory, in a store that a library provides: it is the interface
-- BlockCache. A store may drop an entry at any time, so its laws only say where an entry comes from.
pub mod Laws
use Prim.Native.String.{◌++◌ as str_append}
use dingospeed.Base.{
  ℕ, zero, suc, ◌+◌, ◌-◌, ◌*◌, ◌≡◌, ◌⊎◌, String, List, Bool, not, Option, some, none, Result, ok,
  err, panicked, ltb, leb, ◌==◌, if◌then◌else◌, length, drop, min, print_ℕ,
}
use dingospeed.Errors.{Error, file_closed, invalid_block_index, no_such_file}
use dingospeed.Header.{DingCacheHeader, header_size}
use dingospeed.Ranges.{has_block}
use dingospeed.Disk.{read_into}
use dingospeed.Cache.{World, DingCache, pad_block}

pub record BlockCache (M : Type 0) : Type 0 where
  pub get : M → String → Option (List ℕ)
  pub put : M → String → List ℕ → M
  pub delete : M → String → M
  pub get-put :
      (m : M) (key key' : String) (v v' : List ℕ)
      → get (put m key v) key' ≡ some v'
      → ((key ≡ key') × (v ≡ v')) ⊎ (get m key' ≡ some v')
  pub get-delete :
      (m : M) (key key' : String) (v : List ℕ)
      → get (delete m key) key' ≡ some v
      → get m key' ≡ some v

-- EnableReadBlockCache, GetPrefetchBlocks, and whether the memory in use is below its threshold.
pub record ReadSettings : Type 0 where
  pub enabled : Bool
  pub prefetch_blocks : ℕ
  pub memory_low : Bool

module _ {M : Type 0} (cache : BlockCache M) (md5 : String → String) (settings : ReadSettings) where
  unfoldable pub get_block_key : String → ℕ → String
  get_block_key path block_index = md5 (str_append path (str_append "/" (print_ℕ block_index)))

  -- The loop that drops the blocks up to the last one from memory; `i` counts down to 0.
  unfoldable pub drop_blocks : String → ℕ → ℕ → M → M
  drop_blocks path block_index zero m = cache.delete m (get_block_key path block_index)
  drop_blocks path block_index (suc i) m = drop_blocks path block_index i (
      if ltb block_index (suc i)
      then m
      else cache.delete m (get_block_key path (block_index - suc i)))

  -- One more block in memory. The key that is deleted is the one that was just put.
  unfoldable pub keep_block : String → ℕ → List ℕ → M → M
  keep_block path new_offset_block block_byte m =
      let key = get_block_key path new_offset_block in
      let kept = cache.put m key block_byte in
      if ltb (settings.prefetch_blocks + 1) new_offset_block then cache.delete kept key else kept

  -- The loop of readBlockAndCache, from the position where the last read of the file ended.
  unfoldable pub read_ahead : String → DingCacheHeader → List ℕ → ℕ → ℕ → ℕ → M → M
  read_ahead path h file zero new_offset_block position m = m
  read_ahead path h file (suc rounds) new_offset_block position m =
      let raw = read_into file position h.block_size in
      let next = position + min h.block_size (length file - position) in
      let rest = (λ (block : List ℕ).
        read_ahead path h file rounds (new_offset_block + 1) next
          (keep_block path new_offset_block (pad_block h block) m)) in
      if leb h.block_number new_offset_block then m else elim (has_block h new_offset_block) [
        | ok has_next_block ↦
            if has_next_block
            then (elim raw [ ok block ↦ rest block | err e ↦ m | panicked ↦ m ])
            else m
        | err e ↦ m
        | panicked ↦ m
      ]

  unfoldable pub read_block_and_cache : String → DingCacheHeader → List ℕ → ℕ → ℕ → M → M
  read_block_and_cache path h file position block_index m =
      if settings.memory_low
      then read_ahead path h file settings.prefetch_blocks (block_index + 1) position m
      else m

  -- The part of ReadBlock that reads the file: no block is `(nil, nil)`.
  unfoldable pub read_from_file :
      World → DingCacheHeader → ℕ → M → Result Error (Option (List ℕ)) × M
  read_from_file w h block_index m =
      let offset = header_size h + block_index * h.block_size in
      elim (has_block h block_index) [
        | err e ↦ (err e, m)
        | panicked ↦ (panicked, m)
        | ok found ↦ if not found then (ok none, m) else elim (w.disk w.cache.path) [
          | none ↦ (err no_such_file, m)
          | some file ↦
              let position = offset + min h.block_size (length file - offset) in
              elim (read_into file offset h.block_size) [
                | err e ↦ (err e, m)
                | panicked ↦ (panicked, m)
                | ok raw_block ↦ (
                  ok (some (pad_block h raw_block)),
                  if settings.enabled
                      then read_block_and_cache w.cache.path h file position block_index m
                      else m,
                )
              ]
        ]
      ]

  unfoldable pub read_block : ℕ → World → M → Result Error (Option (List ℕ)) × M
  read_block block_index w m =
      let path = w.cache.path in
      let key = get_block_key path block_index in
      if not w.cache.is_open then (err file_closed, m) else elim w.cache.header [
        | none ↦ (panicked, m)
        | some h ↦
            if leb h.block_number block_index
            then (err invalid_block_index, m)
            else elim (if settings.enabled then cache.get m key else none) [
              | some block_data ↦ (
                ok (some block_data),
                if block_index == h.block_number - 1
                    then drop_blocks path block_index settings.prefetch_blocks m
                    else m,
              )
              | none ↦ read_from_file w h block_index m
            ]
      ]
