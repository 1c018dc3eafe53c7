-- ===== src/Disk/Bytes.antt =====
-- What a write does to each byte of a file. A byte behind the end counts as 0.
use dingospeed.Base.{
  ℕ, zero, suc, ◌+◌, ◌-◌, ◌≤◌, ◌≡◌, refl, ap, ◌∙◌, List, [], ◌∷◌, ◌++◌, arith, ltb, tests,
  Bool-cases, inl, inr, if◌then◌else◌, ◌&&◌, leb, length, take, drop, replicate, get_or,
  length-append, length-replicate, length-take, length-drop, lt→ltb, ok, ◌<◌,
}
use dingospeed.Disk.{pad_to, write_at, read_into}

abbrev pub byte : List ℕ → ℕ → ℕ
byte file i = get_or file i 0

pub byte-append :
    (xs ys : List ℕ) (i : ℕ)
    → byte (xs ++ ys) i ≡ (if ltb i (length xs) then byte xs i else byte ys (i - length xs))
byte-append [] ys i = ground arith
byte-append (x ∷ xs) ys zero = ground arith
byte-append (x ∷ xs) ys (suc i) = ground (arith, byte-append xs ys i)

byte-replicate : (n i : ℕ) → byte (replicate n 0) i ≡ 0
byte-replicate zero i = refl
byte-replicate (suc n) zero = refl
byte-replicate (suc n) (suc i) = byte-replicate n i

pub byte-take :
    (n : ℕ) (xs : List ℕ) (i : ℕ) → byte (take n xs) i ≡ (if ltb i n then byte xs i else 0)
byte-take zero xs i = ground arith
byte-take (suc n) [] i = ground arith
byte-take (suc n) (x ∷ xs) zero = ground arith
byte-take (suc n) (x ∷ xs) (suc i) = ground (arith, byte-take n xs i)

pub byte-drop : (n : ℕ) (xs : List ℕ) (i : ℕ) → byte (drop n xs) i ≡ byte xs (n + i)
byte-drop zero xs i = ground arith
byte-drop (suc n) [] i = ground arith
byte-drop (suc n) (x ∷ xs) i =
    let e : suc n + i ≡ suc (n + i) = omega arith in rw e (byte-drop n xs i)

byte_beyond : (xs : List ℕ) (i : ℕ) → length xs ≤ i → byte xs i ≡ 0
byte_beyond [] i h = refl
byte_beyond (x ∷ xs) zero h = absurd (omega arith)
byte_beyond (x ∷ xs) (suc i) h = byte_beyond xs i (omega arith)

byte-pad_to : (n : ℕ) (xs : List ℕ) (i : ℕ) → byte (pad_to n xs) i ≡ byte xs i
byte-pad_to n xs i = ground (
  arith,
  byte-append xs (replicate (n - length xs) 0) i,
  byte-replicate (n - length xs) (i - length xs),
  byte_beyond xs i,
)

pub length-pad_to : (n : ℕ) (xs : List ℕ) → n ≤ length (pad_to n xs)
length-pad_to n xs = omega (
  arith,
  length-append xs (replicate (n - length xs) 0),
  length-replicate {A = ℕ} (n - length xs) 0,
)

-- Bytes put between a front and what is left of a file behind them.
splice :
    (front bs file : List ℕ) (o i : ℕ)
    → length front ≡ o
    → byte front i ≡ (if ltb i o then byte file i else 0)
    → byte (front ++ (bs ++ drop (o + length bs) file)) i
      ≡ (if leb o i && ltb i (o + length bs) then byte bs (i - o) else byte file i)
splice front bs file o i len before =
    let back = drop (o + length bs) file in
    let rest : byte (bs ++ back) (i - length front) ≡ byte (bs ++ back) (i - o) = rw len in
    elim (Bool-cases (ltb i o)) [
      | inl first ↦ ground (arith, byte-append front (bs ++ back) i)
      | inr later ↦ elim (Bool-cases (ltb (i - o) (length bs))) [
        | inl inside ↦
            ground (arith, byte-append front (bs ++ back) i, rest, byte-append bs back (i - o))
        | inr after ↦
            let e : o + length bs + (i - o - length bs) ≡ i = omega tests in
            ground (
              arith,
              byte-append front (bs ++ back) i,
              rest,
              byte-append bs back (i - o),
              byte-drop (o + length bs) file (i - o - length bs),
              ap (byte file) e,
            )
      ]
    ]

-- A write puts its bytes at its position and leaves every other byte.
pub byte-write_at :
    (file : List ℕ) (o : ℕ) (bs : List ℕ) (i : ℕ)
    → byte (write_at file o bs) i
      ≡ (if leb o i && ltb i (o + length bs) then byte bs (i - o) else byte file i)
unfolding write_at
byte-write_at file o [] i = ground arith
byte-write_at file o (b ∷ bs) i =
    let front = take o (pad_to o file) in
    splice front (b ∷ bs) file o i
      (omega (arith, length-take o (pad_to o file), length-pad_to o file))
      (byte-take o (pad_to o file) i ∙ rw (byte-pad_to o file i))

pub length-write_at :
    (file : List ℕ) (o : ℕ) (bs : List ℕ) → length file ≤ length (write_at file o bs)
unfolding write_at
length-write_at file o [] = omega arith
length-write_at file o (b ∷ bs) =
    let rest = drop (o + length (b ∷ bs)) file in
    omega (
      arith,
      length-append (take o (pad_to o file)) ((b ∷ bs) ++ rest),
      length-append (b ∷ bs) rest,
      length-take o (pad_to o file),
      length-pad_to o file,
      length-drop (o + length (b ∷ bs)) file,
    )

-- A read of `n` bytes from a position inside the file: `n` bytes, zeros behind the file's end.
pub byte-read_into :
    (file : List ℕ) (o n : ℕ)
    → o < length file
    → (xs : List ℕ) × (read_into file o n ≡ ok xs)
      × (length xs ≡ n)
      × ((k : ℕ) → k < n → byte xs k ≡ byte file (o + k))
unfolding read_into
byte-read_into file o zero h = ([], refl, refl, λ k lt. absurd (omega arith))
byte-read_into file o (suc n) h =
    let from = drop o file in
    (
      take (suc n) (pad_to (suc n) from),
      rw (lt→ltb o (length file) h) refl,
      omega (arith, length-take (suc n) (pad_to (suc n) from), length-pad_to (suc n) from),
      λ k lt.
          byte-take (suc n) (pad_to (suc n) from) k
          ∙ rw (lt→ltb k (suc n) lt) (byte-pad_to (suc n) from k ∙ byte-drop o file k),
    )
