-- ===== src/Disk/Layout.antt =====
-- Writes to a file that is a prefix of fixed length followed by data.
use dingospeed.Base.{
  ℕ, zero, suc, ◌+◌, ◌-◌, ◌≡◌, refl, ap, ◌∙◌, List, [], ◌∷◌, ◌++◌, arith, length, drop,
}
use dingospeed.Disk.{write_at, truncate}

suc-add : (n m : ℕ) → suc n + m ≡ suc (n + m)
suc-add n m = omega arith

sub-suc-suc : (n m : ℕ) → suc n - suc m ≡ n - m
sub-suc-suc n m = omega arith

write_at-cons :
    (x : ℕ) (xs : List ℕ) (n : ℕ) (bs : List ℕ)
    → write_at (x ∷ xs) (suc n) bs ≡ x ∷ write_at xs n bs
unfolding write_at
write_at-cons x xs n [] = refl
write_at-cons x xs n (b ∷ bs) =
    rw (sub-suc-suc n (length xs)) (rw (suc-add n (length (b ∷ bs))) refl)

pub write_at-append :
    (hb data' : List ℕ) (k : ℕ) (bs : List ℕ)
    → write_at (hb ++ data') (length hb + k) bs ≡ hb ++ write_at data' k bs
write_at-append [] data' k bs = let e : 0 + k ≡ k = omega arith in rw e
write_at-append (x ∷ hb) data' k bs =
    rw (suc-add (length hb) k) (
      write_at-cons x (hb ++ data') (length hb + k) bs ∙ ap (◌∷◌ x) (write_at-append hb data' k bs))

drop-append : (n : ℕ) (hb data' : List ℕ) → length hb ≡ n → drop n (hb ++ data') ≡ data'
drop-append zero [] data' e = refl
drop-append zero (x ∷ hb) data' e = absurd (omega arith)
drop-append (suc n) [] data' e = absurd (omega arith)
drop-append (suc n) (x ∷ hb) data' e = drop-append n hb data' (omega arith)

-- A new prefix of the same length, written over the old one.
pub write_at-prefix :
    (hb hb' data' : List ℕ) → length hb ≡ length hb' → write_at (hb ++ data') 0 hb' ≡ hb' ++ data'
unfolding write_at
write_at-prefix [] [] data' e = refl
write_at-prefix (x ∷ hb) [] data' e = absurd (omega arith)
write_at-prefix hb (b ∷ hb') data' e =
    let z : 0 + length (b ∷ hb') ≡ length (b ∷ hb') = omega arith in
    rw z (ap (λ (t : List ℕ). b ∷ (hb' ++ t)) (drop-append (length (b ∷ hb')) hb data' e))

pub truncate-append :
    (hb data' : List ℕ) (n : ℕ) → truncate (length hb + n) (hb ++ data') ≡ hb ++ truncate n data'
unfolding truncate
truncate-append [] data' n = let e : 0 + n ≡ n = omega arith in rw e
truncate-append (x ∷ hb) data' n = rw (suc-add (length hb) n) (
    rw (sub-suc-suc (length hb + n) (length (hb ++ data')))
      (ap (◌∷◌ x) (truncate-append hb data' n)))
