-- ===== src/Clean/Order.antt =====
-- The orders in which files are removed.
use dingospeed.Base.{◌≡◌, List, [], ◌∷◌, Bool, true, false, arith, either_way}
use dingospeed.Clean.{FileWithPath, insert_by, sort_slice, larger}

abbrev pub NoneBefore :
    (FileWithPath → FileWithPath → Bool) → FileWithPath → List FileWithPath → Type 0
NoneBefore less f [] = Unit {0}
NoneBefore less f (g ∷ gs) = (less g f ≡ false) × NoneBefore less f gs

-- No file stands behind one that `less` puts it before.
abbrev pub IsOrdered : (FileWithPath → FileWithPath → Bool) → List FileWithPath → Type 0
IsOrdered less [] = Unit {0}
IsOrdered less (f ∷ fs) = NoneBefore less f fs × IsOrdered less fs

module _ (less : FileWithPath → FileWithPath → Bool)
    (one_way : (f g : FileWithPath) → less f g ≡ true → less g f ≡ false)
    (between : (f g h : FileWithPath)
      → less g f ≡ false
      → less h g ≡ false
      → less h f ≡ false) where
  NoneBefore-further :
      (f g : FileWithPath) (l : List FileWithPath)
      → less g f ≡ false
      → NoneBefore less g l
      → NoneBefore less f l
  NoneBefore-further f g [] h n = tt
  NoneBefore-further f g (x ∷ l) h (first, n) =
      (between f g x h first, NoneBefore-further f g l h n)

  NoneBefore-insert_by :
      (f g : FileWithPath) (l : List FileWithPath)
      → less f g ≡ false
      → NoneBefore less g l
      → NoneBefore less g (insert_by less f l)
  unfolding insert_by
  NoneBefore-insert_by f g [] h n = (h, tt)
  NoneBefore-insert_by f g (x ∷ l) h (first, n) =
      either_way (NoneBefore less g) (less x f) (λ _. (first, NoneBefore-insert_by f g l h n))
        (λ _. (h, (first, n)))

  IsOrdered-insert_by :
      (f : FileWithPath) (l : List FileWithPath)
      → IsOrdered less l
      → IsOrdered less (insert_by less f l)
  unfolding insert_by
  IsOrdered-insert_by f [] o = (tt, tt)
  IsOrdered-insert_by f (g ∷ gs) (first, o) =
      either_way (IsOrdered less) (less g f)
        (λ before.
          (NoneBefore-insert_by f g gs (one_way g f before) first, IsOrdered-insert_by f gs o))
        (λ behind. ((behind, NoneBefore-further f g gs behind first), (first, o)))

  pub sort_slice-IsOrdered : (l : List FileWithPath) → IsOrdered less (sort_slice less l)
  unfolding sort_slice
  sort_slice-IsOrdered [] = tt
  sort_slice-IsOrdered (f ∷ fs) =
      IsOrdered-insert_by f (sort_slice less fs) (sort_slice-IsOrdered fs)

pub larger_one_way : (f g : FileWithPath) → larger f g ≡ true → larger g f ≡ false
larger_one_way f g h = ground arith

pub larger_between :
    (f g h : FileWithPath) → larger g f ≡ false → larger h g ≡ false → larger h f ≡ false
larger_between f g h a b = ground arith
