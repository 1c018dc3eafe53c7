-- ===== src/Modelscope/Reads.antt =====
-- A round of reads of the cache file, with a buffer that is not empty.
use dingospeed.Base.{
  ℕ, zero, suc, ◌+◌, ◌-◌, ◌≤◌, ◌<◌, ◌≡◌, refl, sym, ap, ◌∙◌, inl, inr, List, [], ◌∷◌, ◌++◌, false,
  ◌&&◌, some, pos, ◌==◌, arith, ltb, if◌then◌else◌, length, take, drop, Bool-cases, append-nil,
  append_assoc, length-take, length-drop,
}
use dingospeed.Modelscope.{read_cached, read_round, read_done, copy_chunk_size}

-- Pieces one after the other.
take_none : (b : ℕ) → take {A = ℕ} b [] ≡ []
take_none zero = refl
take_none (suc b) = refl

take_part : (a b : ℕ) (xs : List ℕ) → a ≤ b → take a xs ++ take (b - a) (drop a xs) ≡ take b xs
take_part zero b xs h = let e : b - 0 ≡ b = omega arith in ap (λ k. take k xs) e
take_part (suc a) zero xs h = absurd (omega (arith, h))
take_part (suc a) (suc b) [] h = take_none (suc b - suc a)
take_part (suc a) (suc b) (x ∷ xs) h =
    let e : suc b - suc a ≡ b - a = omega arith in
    ap (λ k. x ∷ (take a xs ++ take k (drop a xs))) e
    ∙ ap (λ l. x ∷ l) (take_part a b xs (omega (arith, h)))

module _ (n : ℕ) (positive : 0 < n) where
  -- All that is wanted is read.
  read_cached_all :
      (fuel : ℕ) (rest : List ℕ) (left : ℕ) (sent : List ℕ)
      → left < fuel
      → left ≤ length rest
      → read_cached n fuel rest left sent ≡ some (sent ++ take left rest)
  unfolding read_cached
  read_cached_all zero rest left sent h room = absurd (omega (arith, h))
  read_cached_all (suc fuel) rest left sent h room = elim (Bool-cases (left == 0)) [
    | inl nothing ↦
        let e : left ≡ 0 = ground (arith, nothing) in
        rw nothing (rw e (ap (λ l. some l) (sym (append-nil sent))))
    | inr more ↦
        let size = if ltb n left then n else left in
        let some_bytes : 0 < size = ground (arith, positive, more) in
        let fits : size ≤ left = ground arith in
        let chunk = take size rest in
        let len : length chunk ≡ size = omega (arith, length-take size rest, fits, room) in
        let comes : ltb 0 size && length chunk == 0 ≡ false = ground (arith, len, some_bytes) in
        let left' : left - length chunk ≡ left - size = omega (arith, len) in
        let pieces : chunk ++ take (left - length chunk) (drop size rest) ≡ take left rest =
          ap (λ k. chunk ++ take k (drop size rest)) left' ∙ take_part size left rest fits in
        rw more (
          rw comes (
            read_cached_all fuel (drop size rest) (left - length chunk) (sent ++ chunk)
              (omega (arith, h, len, some_bytes, fits))
              (omega (arith, room, len, length-drop size rest))
            ∙ ap (λ l. some l)
                (append_assoc sent chunk (take (left - length chunk) (drop size rest))
                  ∙ ap (λ l. sent ++ l) pieces)))
  ]

  pub read_round_all :
      (rest : List ℕ) (left : ℕ)
      → left ≤ length rest
      → read_round (pos n) rest left ≡ read_done (take left rest)
  unfolding read_round
  read_round_all rest left room =
      rw (read_cached_all (left + 1) rest left [] (omega arith) room, read_round) refl

  pub copy_chunk_size_same : copy_chunk_size (pos n) ≡ n
  unfolding copy_chunk_size
  copy_chunk_size_same = ground (arith, positive)
