-- ===== src/Bitset/Laws.antt =====
-- The bit slice as a set of indexes: what each operation does to membership, and on every error.
use dingospeed.Base.{
  ℕ, zero, suc, ◌+◌, ◌*◌, ◌/◌, ◌%◌, ◌^◌, ◌≤◌, ◌<◌, ◌≡◌, ◌≢◌, refl, List, [], ◌∷◌, Bool, true, false,
  some, none, inl, inr, ◌>>=◌, ok, err, arith, ◌==◌, if◌then◌else◌, length, get_elem?, set,
  replicate, length-set, length-replicate, get_elem?-set_self, get_elem?-set_ne, tests, le→ltb,
  Bool-cases,
}
use Prim.Native.Nat.{bit_and-bitwise}
use dingospeed.Errors.{index_out_of_range}
use dingospeed.Bitset.Bytes.{set_bit_lem, clear_bit_lem}
use dingospeed.Bitset.{
  Bitset, new_bitset, set_bit, clear_bit, test_bit, set_index, clear_index, test_index,
}

abbrev pub AllBytes : List ℕ → Type 0
AllBytes [] = Unit {0}
AllBytes (b ∷ bs) = (b < 256) × AllBytes bs

-- Every index below `size` has its byte.
pub record IsValid (b : Bitset) : Type 0 where
  pub enough : b.size ≤ 8 * length b.bits
  pub bytes : AllBytes b.bits

-- An index is a member where its bit is set; `none` is out of range.
abbrev pub bit_at : List ℕ → ℕ → Bool
bit_at bits i = elim (get_elem? bits (i / 8)) [ none ↦ false | some byte ↦ test_bit byte (i % 8) ]

byte_at :
    (bs : List ℕ) (i : ℕ)
    → AllBytes bs
    → i < length bs
    → (b : ℕ) × (get_elem? bs i ≡ some b) × (b < 256)
byte_at [] i v h = elim h [ ]
byte_at (b ∷ bs) zero v h = (b, refl, v.0)
byte_at (b ∷ bs) (suc i) v h = byte_at bs i v.1 (omega arith)

AllBytes-set : (bs : List ℕ) (i b : ℕ) → AllBytes bs → b < 256 → AllBytes (set bs i b)
AllBytes-set [] i b v h = tt
AllBytes-set (x ∷ bs) zero b v h = (h, v.1)
AllBytes-set (x ∷ bs) (suc i) b v h = (v.0, AllBytes-set bs i b v.1 h)

AllBytes-replicate : (n : ℕ) → AllBytes (replicate n 0)
AllBytes-replicate zero = tt
AllBytes-replicate (suc n) = (omega arith, AllBytes-replicate n)

-- An operation that changes bit `k` of a byte to `v` and keeps the others.
module _ (f : ℕ → ℕ → ℕ) (v : Bool)
    (law : (b k j : ℕ)
      → b < 256
      → k < 8
      → j < 8
      → (test_bit (f b k) j ≡ (if k == j then v else test_bit b j)) × (f b k < 256)) where
  bit_at-update :
      (bits : List ℕ) (i j b : ℕ)
      → get_elem? bits (i / 8) ≡ some b
      → i / 8 < length bits
      → b < 256
      → bit_at (set bits (i / 8) (f b (i % 8))) j ≡ (if i == j then v else bit_at bits j)
  bit_at-update bits i j b e h hb = elim (Bool-cases (i / 8 == j / 8)) [
    | inl same ↦
        let q : i / 8 ≡ j / 8 = omega tests in
        let here : get_elem? (set bits (i / 8) (f b (i % 8))) (j / 8) ≡ some (f b (i % 8)) =
          rw (← q) (get_elem?-set_self bits (i / 8) (f b (i % 8)) h) in
        let old : get_elem? bits (j / 8) ≡ some b = rw (← q) e in
        ground (arith, here, old, law b (i % 8) (j % 8) hb (omega arith) (omega arith))
    | inr other ↦
        let d : i / 8 ≢ j / 8 = omega tests in ground (arith, get_elem?-set_ne bits (f b (i % 8)) d)
  ]

new_bitset-IsValid : (n : ℕ) → n + 7 < 2 ^ 64 → IsValid (new_bitset n)
unfolding new_bitset
new_bitset-IsValid n h = record {
  enough = rw (length-replicate {A = ℕ} ((n + 7) % 2 ^ 64 / 8) 0) (omega arith);
  bytes = AllBytes-replicate ((n + 7) % 2 ^ 64 / 8);
}

pub test_index-bit_at :
    (b : Bitset) (j : ℕ) → IsValid b → j < b.size → test_index b j ≡ ok (bit_at b.bits j)
unfolding test_index
test_index-bit_at b j v h =
    let (byte, e, small) = byte_at b.bits (j / 8) v.bytes (omega (arith, v.enough)) in
    ground (arith, e)

-- A successful change of the bit at `i`, in terms of the bits.
abbrev pub Updates : Bitset → ℕ → Bool → Bitset → Type 0
Updates b i v b' =
    (b'.size ≡ b.size)
    × (length b'.bits ≡ length b.bits)
    × AllBytes b'.bits
    × ((j : ℕ) → bit_at b'.bits j ≡ (if i == j then v else bit_at b.bits j))

pub set_index-Updates :
    (b : Bitset) (i : ℕ)
    → IsValid b
    → i < b.size
    → (b' : Bitset) × (set_index b i ≡ ok b') × Updates b i true b'
unfolding set_index
set_index-Updates b i v h =
    let (byte, e, small) = byte_at b.bits (i / 8) v.bytes (omega (arith, v.enough)) in
    let new : ℕ = set_bit byte (i % 8) in
    (
      record b { bits = set b.bits (i / 8) new },
      ground (arith, e),
      (
        refl,
        length-set b.bits (i / 8) new,
        AllBytes-set b.bits (i / 8) new v.bytes
            (set_bit_lem byte (i % 8) 0 small (omega arith) (omega arith)).1,
        λ j.
            bit_at-update set_bit true set_bit_lem b.bits i j byte e (omega (arith, v.enough))
              small,
      ),
    )

pub clear_index-Updates :
    (b : Bitset) (i : ℕ)
    → IsValid b
    → i < b.size
    → (b' : Bitset) × (clear_index b i ≡ ok b') × Updates b i false b'
unfolding clear_index
clear_index-Updates b i v h =
    let (byte, e, small) = byte_at b.bits (i / 8) v.bytes (omega (arith, v.enough)) in
    let new : ℕ = clear_bit byte (i % 8) in
    (
      record b { bits = set b.bits (i / 8) new },
      ground (arith, e),
      (
        refl,
        length-set b.bits (i / 8) new,
        AllBytes-set b.bits (i / 8) new v.bytes
            (clear_bit_lem byte (i % 8) 0 small (omega arith) (omega arith)).1,
        λ j.
            bit_at-update clear_bit false clear_bit_lem b.bits i j byte e (omega (arith, v.enough))
              small,
      ),
    )

pub Updates-IsValid : (b b' : Bitset) (i : ℕ) (w : Bool) → IsValid b → Updates b i w b' → IsValid b'
Updates-IsValid b b' i w v (es, el, bytes, _) = record {
  enough = omega (arith, v.enough);
  bytes = bytes;
}

Updates-test :
    (b b' : Bitset) (i j : ℕ) (w : Bool)
    → IsValid b
    → Updates b i w b'
    → j < b.size
    → test_index b' j ≡ (if i == j then ok w else test_index b j)
Updates-test b b' i j w v u h = ground (
  arith,
  u.3 j,
  test_index-bit_at b j v h,
  test_index-bit_at b' j (Updates-IsValid b b' i w v u) (omega (arith, u.0)),
)

-- On a valid bit set, setting an index in range succeeds; afterwards the test of any index in range
-- gives true at that index and the answer from before elsewhere.
pub test_index-set_index :
    (b : Bitset) (i j : ℕ)
    → IsValid b
    → i < b.size
    → j < b.size
    → (set_index b i >>= λ b'. test_index b' j) ≡ (if i == j then ok true else test_index b j)
test_index-set_index b i j v hi hj =
    let (b', e, u) = set_index-Updates b i v hi in rw e (Updates-test b b' i j true v u hj)

-- On a valid bit set, clearing an index in range succeeds; afterwards the test of any index in range
-- gives false at that index and the answer from before elsewhere.
pub test_index-clear_index :
    (b : Bitset) (i j : ℕ)
    → IsValid b
    → i < b.size
    → j < b.size
    → (clear_index b i >>= λ b'. test_index b' j) ≡ (if i == j then ok false else test_index b j)
test_index-clear_index b i j v hi hj =
    let (b', e, u) = clear_index-Updates b i v hi in rw e (Updates-test b b' i j false v u hj)

test_bit-zero : (k : ℕ) → test_bit 0 k ≡ false
test_bit-zero k = ground (arith, bit_and-bitwise 0 (2 ^ k))

get_elem?-replicate : (n k : ℕ) → k < n → get_elem? (replicate n (zero)) k ≡ some 0
get_elem?-replicate zero k h = elim h [ ]
get_elem?-replicate (suc n) zero h = refl
get_elem?-replicate (suc n) (suc k) h = get_elem?-replicate n k (omega arith)

-- A new bit set of a size below 2^64 - 7 is valid, and every index in range tests false.
pub new_bitset_empty :
    (n j : ℕ)
    → n + 7 < 2 ^ 64
    → j < n
    → IsValid (new_bitset n) × (test_index (new_bitset n) j ≡ ok false)
unfolding new_bitset test_index
new_bitset_empty n j h hj = (
  new_bitset-IsValid n h,
  ground (
    arith,
    get_elem?-replicate ((n + 7) % 2 ^ 64 / 8) (j / 8) (omega arith),
    test_bit-zero (j % 8),
  ),
)

-- No index at or past the size is accepted by any of the three operations: each returns the error.
pub out_of_range :
    (b : Bitset) (i : ℕ)
    → b.size ≤ i
    → (set_index b i ≡ err index_out_of_range)
      × (clear_index b i ≡ err index_out_of_range)
      × (test_index b i ≡ err index_out_of_range)
unfolding set_index clear_index test_index
out_of_range b i h = rw (le→ltb i b.size h) (refl, refl, refl)
