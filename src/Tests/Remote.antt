-- ===== src/Tests/Remote.antt =====
-- A run of a remote task over a whole file of three blocks.
use dingospeed.Base.{
  ℕ, zero, suc, ◌+◌, ◌*◌, ◌/◌, ◌≤◌, ◌<◌, ◌≡◌, refl, ap, ◌∙◌, List, [], ◌∷◌, true, false, arith,
  length,
}
use dingospeed.Bitset.{Bitset}
use dingospeed.Bitset.Laws.{bit_at}
use dingospeed.Task.{DownloadTask, cached}
use dingospeed.Disk.Bytes.{byte}
use dingospeed.CacheRead.Laws.{IsSegment}
use dingospeed.Remote.{do_task}
use dingospeed.Remote.Store.{Good}
use dingospeed.Remote.Laws.{Arrives, arrived, do_task-Good}
use dingospeed.Tests.{content}
use dingospeed.Tests.Cache.{fresh_header, fresh_world, ten_zeros, fresh_world-IsRightCache}

abbrev pub SameBytes : ℕ → List ℕ → Type 0
SameBytes a [] = Unit {0}
SameBytes a (x ∷ xs) = (x ≡ content a) × SameBytes (a + 1) xs

byte_of_SameBytes :
    (a : ℕ) (xs : List ℕ) (k : ℕ) → SameBytes a xs → k < length xs → byte xs k ≡ content (a + k)
byte_of_SameBytes a [] k same lt = absurd (omega arith)
byte_of_SameBytes a (x ∷ xs) zero (e, same) lt =
    let z : a ≡ a + zero = omega arith in e ∙ ap content z
byte_of_SameBytes a (x ∷ xs) (suc k) (e, same) lt =
    let z : a + 1 + k ≡ a + suc k = omega arith in
    byte_of_SameBytes (a + 1) xs k same (omega arith) ∙ ap content z

pub SameBytes-IsSegment :
    (a : ℕ) (xs : List ℕ) → SameBytes a xs → IsSegment content a (a + length xs) xs
SameBytes-IsSegment a xs same = record {
  size = refl;
  bytes = λ k lt. byte_of_SameBytes a xs k same lt;
}

abbrev pub chunks : List (List ℕ)
chunks = (1 ∷ 4 ∷ 7 ∷ []) ∷ (10 ∷ 13 ∷ 16 ∷ 19 ∷ []) ∷ (22 ∷ 25 ∷ 28 ∷ []) ∷ []

first_chunk : SameBytes 0 (1 ∷ 4 ∷ 7 ∷ [])
first_chunk = (refl, (refl, (refl, tt)))

second_chunk : SameBytes 3 (10 ∷ 13 ∷ 16 ∷ 19 ∷ [])
second_chunk = (refl, (refl, (refl, (refl, tt))))

third_chunk : SameBytes 7 (22 ∷ 25 ∷ 28 ∷ [])
third_chunk = (refl, (refl, (refl, tt)))

chunks_arrive : Arrives content 4 0 chunks
chunks_arrive = (
  SameBytes-IsSegment 0 _ first_chunk,
  omega arith,
  (
    SameBytes-IsSegment 3 _ second_chunk,
    omega arith,
    (SameBytes-IsSegment 7 _ third_chunk, omega arith, tt),
  ),
)

abbrev pub whole_task : DownloadTask
whole_task = record {
  kind = cached;
  task_no = 0;
  range_start_pos = 0;
  range_end_pos = 10;
  task_size = 1;
  file_name = "model";
  org_repo = "org/repo";
}

pub fresh_blocks : (i : ℕ) → i * 4 < 10 → i < 3
fresh_blocks i inside = omega arith

do_task-Good_example :
    (mask' : Bitset) × Good content fresh_header
      (do_task 1 4 10 whole_task fresh_world 3 chunks false).world
      mask'
    × ((i : ℕ) → 0 ≤ i * 4 → i < arrived 0 chunks / 4 → bit_at mask'.bits i ≡ true)
do_task-Good_example =
    do_task-Good content fresh_header 1 whole_task (omega arith) fresh_blocks fresh_world chunks
      false (record { body = ten_zeros; right = fresh_world-IsRightCache }) (omega arith)
      chunks_arrive (omega arith)
