-- ===== src/Modelscope/Copy.antt =====
-- What copying an answer does: it comes to an end, and behind the end of the file it appends.
use dingospeed.Base.{
  ℕ, zero, suc, ◌+◌, ◌-◌, ◌*◌, ◌/◌, ◌≤◌, ◌<◌, ◌≡◌, refl, sym, ap, ◌∙◌, inl, inr, List, [], ◌∷◌,
  ◌++◌, Bool, true, false, arith, tests, ltb, if◌then◌else◌, length, take, drop, replicate,
  Bool-cases, append-nil, append_assoc, take-append-drop, length-take, length-drop, length-append,
}
use dingospeed.Block.{block_bounds}
use dingospeed.Disk.{write_at, pad_to}
use dingospeed.Disk.Bytes.{length-pad_to}
use dingospeed.CacheRead.Laws.{joined}
use dingospeed.Modelscope.{
  calculate_block_info, is_block_complete, CopyState, CopyEnd, complete, interrupted, read_body,
  copy_loop, total,
}

take_all : (xs : List ℕ) (n : ℕ) → length xs ≤ n → take n xs ≡ xs
take_all [] zero h = refl
take_all [] (suc n) h = refl
take_all (x ∷ xs) zero h = absurd (omega (arith, h))
take_all (x ∷ xs) (suc n) h = ap (λ l. x ∷ l) (take_all xs n (omega (arith, h)))

take_exact : (xs ys : List ℕ) → take (length xs) (xs ++ ys) ≡ xs
take_exact [] ys = refl
take_exact (x ∷ xs) ys = ap (λ l. x ∷ l) (take_exact xs ys)

drop_past : (xs : List ℕ) (n : ℕ) → length xs ≤ n → drop n xs ≡ []
drop_past [] zero h = refl
drop_past [] (suc n) h = refl
drop_past (x ∷ xs) zero h = absurd (omega (arith, h))
drop_past (x ∷ xs) (suc n) h = drop_past xs n (omega (arith, h))

-- A write at the end of a file.
write_at_end : (file bytes : List ℕ) → write_at file (length file) bytes ≡ file ++ bytes
unfolding write_at
write_at_end file [] = sym (append-nil file)
write_at_end file (b ∷ bytes) =
    rw (drop_past file (length file + length (b ∷ bytes)) (omega arith)) (
      rw (append-nil (b ∷ bytes))
        (ap (λ l. l ++ (b ∷ bytes)) (take_exact file (replicate (length file - length file) 0))))

read_body-joined :
    (n : ℕ) (c : List ℕ) (cs : List (List ℕ))
    → take n c ++ joined (read_body n c cs) ≡ c ++ joined cs
unfolding read_body
read_body-joined n c cs = elim (Bool-cases (ltb n (length c))) [
  | inl more ↦ rw more (
      sym (append_assoc (take n c) (drop n c) (joined cs))
      ∙ ap (λ l. l ++ joined cs) (take-append-drop n c))
  | inr all ↦ rw all (ap (λ l. l ++ joined cs) (take_all c n (omega (tests, all))))
]

-- Each Read leaves less.
total-read_body :
    (n : ℕ) (c : List ℕ) (cs : List (List ℕ)) → 0 < n → total (read_body n c cs) < total (c ∷ cs)
unfolding read_body
total-read_body n c cs h = elim (Bool-cases (ltb n (length c))) [
  | inl more ↦ rw more (omega (tests, more, length-drop n c))
  | inr all ↦ rw all (omega arith)
]

module _ (chunk_size : ℕ) (positive : 0 < chunk_size) (offset : ℕ) (broken : Bool) where
  -- What is left of the block.
  abbrev size_at : ℕ → ℕ
  size_at pos = pos / chunk_size * chunk_size + chunk_size - 1 - pos + 1

  -- The block of the end of a file is not complete.
  not_complete :
      (file : List ℕ) (pos : ℕ)
      → pos ≡ length file
      → is_block_complete file (pos / chunk_size) chunk_size ≡ false
  unfolding is_block_complete
  not_complete file pos e =
      let (lo, hi) = block_bounds pos chunk_size positive in ground (arith, lo, hi, e, positive)

  abbrev pub end_of : CopyEnd
  end_of = if broken then interrupted else complete

  abbrev state : List ℕ → List ℕ → ℕ → List (List ℕ) → CopyState
  state file sent written body = record { file = file; sent = sent; written = written; body = body }

  abbrev pub Appends : List ℕ → List ℕ → List (List ℕ) → CopyEnd × CopyState → Type 0
  Appends file sent body r =
      (r.0 ≡ end_of) × (r.1.file ≡ file ++ joined body) × (r.1.sent ≡ sent ++ joined body)

  -- The loop from a position that is the end of the file.
  pub copy_loop-Appends :
      (fuel : ℕ) (file sent : List ℕ) (written : ℕ) (body : List (List ℕ))
      → offset + written ≡ length file
      → total body < fuel
      → Appends file sent body
          (copy_loop chunk_size offset broken fuel (state file sent written body))
  unfolding copy_loop calculate_block_info
  copy_loop-Appends zero file sent written body e h = absurd (omega (arith, h))
  copy_loop-Appends (suc fuel) file sent written [] e h =
      rw (not_complete file (offset + written) e)
        (refl, sym (append-nil file), sym (append-nil sent))
  copy_loop-Appends (suc fuel) file sent written (c ∷ cs) e h =
      let pos = offset + written in
      let n = size_at pos in
      let (lo, hi) = block_bounds pos chunk_size positive in
      let some_left : 0 < n = omega (arith, hi) in
      let at_end : write_at file pos (take n c) ≡ file ++ take n c =
        ap (λ k. write_at file k (take n c)) e ∙ write_at_end file (take n c) in
      let rest = read_body n c cs in
      let less = total-read_body n c cs some_left in
      let (ends, files, sents) =
        copy_loop-Appends fuel (write_at file pos (take n c)) (sent ++ take n c)
          (written + length (take n c)) rest
          (omega (arith, e, ap (λ (l : List ℕ). length l) at_end, length-append file (take n c)))
          (omega (arith, less, h)) in
      let whole : (x : List ℕ) → (x ++ take n c) ++ joined rest ≡ x ++ (c ++ joined cs) =
        λ x. append_assoc x (take n c) (joined rest) ∙ ap (λ l. x ++ l) (read_body-joined n c cs) in
      rw (not_complete file pos e)
        (ends, files ∙ ap (λ l. l ++ joined rest) at_end ∙ whole file, sents ∙ whole sent)

  -- A write leaves no more of the file behind it than was there.
  length-write_at_past :
      (file : List ℕ) (pos : ℕ) (bytes : List ℕ)
      → length (write_at file pos bytes) - (pos + length bytes) ≤ length file - pos
  unfolding write_at
  length-write_at_past file pos [] = omega arith
  length-write_at_past file pos (b ∷ bytes) =
      let rest = drop (pos + length (b ∷ bytes)) file in
      omega (
        arith,
        length-append (take pos (pad_to pos file)) ((b ∷ bytes) ++ rest),
        length-append (b ∷ bytes) rest,
        length-take pos (pad_to pos file),
        length-pad_to pos file,
        length-drop (pos + length (b ∷ bytes)) file,
      )

  block_left : (pos : ℕ) → 0 < size_at pos
  block_left pos = let (lo, hi) = block_bounds pos chunk_size positive in omega (arith, hi)

  -- A complete block ends before the file does.
  complete_inside :
      (file : List ℕ) (pos : ℕ)
      → is_block_complete file (pos / chunk_size) chunk_size ≡ true
      → pos + size_at pos ≤ length file
  unfolding is_block_complete
  complete_inside file pos e =
      let (lo, hi) = block_bounds pos chunk_size positive in ground (arith, lo, hi, positive)

  -- With one round for each byte of the file that is still ahead and one for each byte and each piece of
  -- the body, whatever position the site names: the loop comes to the end of the body.
  pub copy_loop_ends :
      (fuel : ℕ) (file sent : List ℕ) (written : ℕ) (body : List (List ℕ))
      → length file - (offset + written) + total body < fuel
      → (copy_loop chunk_size offset broken fuel (state file sent written body)).0 ≡ end_of
  unfolding copy_loop calculate_block_info
  copy_loop_ends zero file sent written body h = absurd (omega (arith, h))
  copy_loop_ends (suc fuel) file sent written [] h =
      elim (Bool-cases (is_block_complete file ((offset + written) / chunk_size) chunk_size)) [
        | inl there ↦
            let pos = offset + written in
            rw there (
              copy_loop_ends fuel file sent (written + size_at pos) []
                (omega (arith, h, complete_inside file pos there, block_left pos)))
        | inr missing ↦ rw missing refl
      ]
  copy_loop_ends (suc fuel) file sent written (c ∷ cs) h =
      let pos = offset + written in
      let n = size_at pos in
      elim (Bool-cases (is_block_complete file (pos / chunk_size) chunk_size)) [
        | inl there ↦ rw there (
            copy_loop_ends fuel file sent (written + n) (c ∷ cs)
              (omega (arith, h, complete_inside file pos there, block_left pos)))
        | inr missing ↦ rw missing (
            copy_loop_ends fuel (write_at file pos (take n c)) (sent ++ take n c)
              (written + length (take n c)) (read_body n c cs)
              (omega (
                arith,
                h,
                length-write_at_past file pos (take n c),
                total-read_body n c cs (block_left pos),
              )))
      ]
