-- ===== src/Disk.antt =====
-- Files, as package os gives them to file.go: reads, writes and truncation at a position.
-- A disk is the bytes of the file at each path. A write behind the end fills the gap with zeros.
pub mod Bytes
pub mod Layout
use text.Mathlib.Text.{◌==◌ as str_eq}
use dingospeed.Base.{
  ℕ, zero, suc, ◌+◌, ◌-◌, String, List, [], ◌∷◌, ◌++◌, Option, some, none, Result, ok, err, ltb,
  if◌then◌else◌, length, take, drop, replicate,
}
use dingospeed.Errors.{Error, eof}

abbrev pub Disk : Type 0
Disk = String → Option (List ℕ)

unfoldable pub put_file : Disk → String → List ℕ → Disk
put_file disk path file = λ other. if str_eq path other then some file else disk other

abbrev pub pad_to : ℕ → List ℕ → List ℕ
pad_to n file = file ++ replicate (n - length file) 0

-- Seek to `offset` and Write; writing nothing changes nothing.
unfoldable pub write_at : List ℕ → ℕ → List ℕ → List ℕ
write_at file offset [] = file
write_at file offset (b ∷ bytes) =
    take offset (pad_to offset file) ++ ((b ∷ bytes) ++ drop (offset + length (b ∷ bytes)) file)

-- Truncate, which also extends.
unfoldable pub truncate : ℕ → List ℕ → List ℕ
truncate n file = take n (pad_to n file)

-- Seek to `offset` and Read into a slice of `n` zeros; a short read leaves the zeros.
unfoldable pub read_into : List ℕ → ℕ → ℕ → Result Error (List ℕ)
read_into file offset zero = ok []
read_into file offset (suc n) =
    if ltb offset (length file)
    then ok (take (suc n) (pad_to (suc n) (drop offset file)))
    else err eof
