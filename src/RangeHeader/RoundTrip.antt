-- ===== src/RangeHeader/RoundTrip.antt =====
-- A server reads the Range header of a fetch as the range that it was made from.
use Prim.Native.Char.{Char, code}
use Prim.Native.String.{◌++◌ as str_append}
use text.Mathlib.TextLemmas.{nil-append, cons-append}
use text.Mathlib.TextPositions.{starts_with-append}
use text.Mathlib.Text.{starts_with, ◌==◌ as str_eq}
use dingospeed.Base.{
  ℕ, zero, suc, ◌+◌, ◌-◌, ◌^◌, ◌≤◌, ◌<◌, ◌≡◌, refl, sym, ap, ◌∙◌, String, List, [], ◌∷◌, true, ok,
  ◌==◌, if◌then◌else◌, either_way, lt→ltb, string_same_iff, arith, print_ℕ, split_at, prepend,
}
use mathlib.Core.Path.{subst}
use dingospeed.Http.{contains}
use dingospeed.Repo.{first_part}
use dingospeed.RangeHeader.{
  drop_chars, range_parts, range_of, parse_range_params, range_header, requested_range,
}
use dingospeed.RangeHeader.Decimal.{has_none, has_none-print_ℕ, atoi64-print_ℕ}

has_none-append :
    (k : ℕ) (s t : String)
    → has_none k s ≡ true
    → has_none k t ≡ true
    → has_none k (str_append s t) ≡ true
unfolding has_none
has_none-append k String.[] t h g = rw (nil-append t) g
has_none-append k (String.◌∷◌ c s) t h g =
    rw (cons-append c s t) (ground (arith, h, has_none-append k s t, g))

first_part_whole : (s : String) → has_none b'/' s ≡ true → first_part s ≡ s
unfolding first_part has_none
first_part_whole String.[] h = refl
first_part_whole (String.◌∷◌ c s) h =
    either_way (λ t. t ≡ String.◌∷◌ c s) (code c == b'/')
      (λ slash. absurd (ground (arith, slash, h)))
      (λ other. ap (String.◌∷◌ c) (first_part_whole s (ground (arith, other, h))))

abbrev one_part : List String
one_part = "" ∷ []

abbrev count_chars : String → ℕ
count_chars String.[] = zero
count_chars (String.◌∷◌ c s) = suc (count_chars s)

drop_chars-append : (s t : String) → drop_chars (count_chars s) (str_append s t) ≡ t
unfolding drop_chars
drop_chars-append String.[] t = nil-append t
drop_chars-append (String.◌∷◌ c s) t = rw (cons-append c s t) (drop_chars-append s t)

split_at_whole : (k : ℕ) (s : String) → has_none k s ≡ true → split_at k s ≡ s ∷ []
unfolding split_at has_none prepend
split_at_whole k String.[] h = refl
split_at_whole k (String.◌∷◌ c s) h =
    either_way (λ l. l ≡ String.◌∷◌ c s ∷ []) (code c == k)
      (λ here. absurd (ground (arith, here, h)))
      (λ other. ap (prepend c) (split_at_whole k s (ground (arith, other, h))))

split_at-append :
    (c : Char) (s t : String)
    → has_none (code c) s ≡ true
    → split_at (code c) (str_append s (String.◌∷◌ c t)) ≡ s ∷ split_at (code c) t
unfolding split_at has_none prepend
split_at-append c String.[] t h = rw (nil-append (String.◌∷◌ c t)) (
    either_way (λ l. l ≡ "" ∷ split_at (code c) t) (code c == code c) (λ _. refl)
      (λ other. absurd (ground (arith, other))))
split_at-append c (String.◌∷◌ d s) t h = rw (cons-append d s (String.◌∷◌ c t)) (
    either_way (λ l. l ≡ String.◌∷◌ d s ∷ split_at (code c) t) (code d == code c)
      (λ here. absurd (ground (arith, here, h)))
      (λ other. ap (prepend d) (split_at-append c s t (ground (arith, other, h)))))

module _ (first last : ℕ) where
  abbrev numbers : String
  numbers = str_append (print_ℕ first) (str_append "-" (print_ℕ last))

  dash : str_append "-" (print_ℕ last) ≡ String.◌∷◌ "-" (print_ℕ last)
  dash = cons-append "-" "" (print_ℕ last) ∙ ap (String.◌∷◌ "-") (nil-append (print_ℕ last))

  no_slash : has_none b'/' (range_header first last) ≡ true
  unfolding range_header has_none
  no_slash = has_none-append b'/' "bytes=" numbers refl (
      has_none-append b'/' (print_ℕ first) _ (has_none-print_ℕ b'/' first (omega arith))
        (has_none-append b'/' "-" (print_ℕ last) refl (has_none-print_ℕ b'/' last (omega arith))))

  range_parts-range_header :
      range_parts (range_header first last) ≡ print_ℕ first ∷ print_ℕ last ∷ []
  unfolding range_parts range_header
  range_parts-range_header =
      let header = range_header first last in
      let whole : (if contains header "/" then first_part header else header) ≡ header =
        either_way (λ t. t ≡ header) (contains header "/") (λ _. first_part_whole header no_slash)
          (λ _. refl) in
      let parts : split_at b'-' numbers ≡ print_ℕ first ∷ print_ℕ last ∷ [] = rw dash (
        split_at-append "-" (print_ℕ first) (print_ℕ last)
          (has_none-print_ℕ b'-' first (omega arith))
        ∙ ap (λ l. print_ℕ first ∷ l)
            (split_at_whole b'-' (print_ℕ last) (has_none-print_ℕ b'-' last (omega arith)))) in
      let Reads : String → Type 0 = λ r. split_at b'-' r ≡ print_ℕ first ∷ print_ℕ last ∷ [] in
      let cut : Reads (if starts_with header "bytes=" then drop_chars 6 header else header) =
        either_way Reads (starts_with header "bytes=")
          (λ _. ap (split_at b'-') (drop_chars-append "bytes=" numbers) ∙ parts)
          (λ bad. absurd (ground (arith, bad, starts_with-append "bytes=" numbers))) in
      subst (λ r. Reads (if starts_with r "bytes=" then drop_chars 6 r else r)) (sym whole) cut

parse_range_params-range_header :
    (first last size : ℕ)
    → first < 2 ^ 63
    → last < 2 ^ 63
    → parse_range_params (range_header first last) size
      ≡ ok (first, if last == 0 then size - 1 else last)
unfolding parse_range_params range_of
parse_range_params-range_header first last size h k =
    ap (λ parts. range_of parts size) (range_parts-range_header first last)
    ∙ rw (atoi64-print_ℕ first h, atoi64-print_ℕ last k) refl

header_filled :
    (first last : ℕ)
    → str_eq (range_header first last) "" ≡ true
    → one_part ≡ print_ℕ first ∷ print_ℕ last ∷ []
unfolding range_parts first_part drop_chars split_at contains
header_filled first last empty =
    sym (ap range_parts ((string_same_iff (range_header first last) "").0 empty))
    ∙ range_parts-range_header first last

one_more :
    (b size : ℕ)
    → 0 < b
    → b ≤ size
    → (if b - 1 == 0 then size - 1 else b - 1) + 1 ≡ (if b == 1 then size else b)
one_more b size h k = ground arith

-- The header that a fetch sends for the bytes from `a` up to `b` is read by a server of the same
-- program as that range, for a file of any size, unless it asks for the first byte alone: that header
-- is read as the range from the first byte to the end of the file.
pub requested_range-range_header :
    (a b size : ℕ)
    → a < b
    → b ≤ 2 ^ 63
    → b ≤ size
    → requested_range (range_header a (b - 1)) size ≡ ok (a, if b == 1 then size else b)
unfolding requested_range parse_range_params range_of
requested_range-range_header a b size order fits inside =
    let header = range_header a (b - 1) in
    let asked : (if str_eq header "" then range_header 0 (size - 1) else header) ≡ header =
      either_way (λ t. t ≡ header) (str_eq header "")
        (λ empty. absurd (ground (arith, header_filled a (b - 1) empty))) (λ _. refl) in
    let read =
      ap (λ t. parse_range_params t size) asked
      ∙ parse_range_params-range_header a (b - 1) size (omega arith) (omega arith) in
    rw (lt→ltb 0 size (omega arith))
      (rw read (ap (λ n. ok (a, n)) (one_more b size (omega arith) inside)))
