-- ===== src/RangeHeader/Decimal.antt =====
-- A number that is printed in decimal is read as that number.
use Prim.Native.Char.{code}
use text.Mathlib.Text.{◌==◌ as str_eq}
use dingospeed.Base.{
  ℕ, zero, suc, ◌+◌, ◌*◌, ◌/◌, ◌%◌, ◌^◌, ◌≤◌, ◌<◌, ◌≡◌, refl, sym, ap, ◌∙◌, String, Bool, true,
  false, ◌&&◌, some, ltb, leb, ◌==◌, if◌then◌else◌, either_way, string_same_iff, lt→ltb, arith,
  tests, ltb→lt, digit, print_loop, print_ℕ,
}
use dingospeed.RangeHeader.{digits_value, unsigned_value, atoi64}

code-digit : (d : ℕ) → d < 10 → code (digit d) ≡ 48 + d
unfolding digit
code-digit zero h = refl
code-digit (suc zero) h = refl
code-digit (suc (suc zero)) h = refl
code-digit (suc (suc (suc zero))) h = refl
code-digit (suc (suc (suc (suc zero)))) h = refl
code-digit (suc (suc (suc (suc (suc zero))))) h = refl
code-digit (suc (suc (suc (suc (suc (suc zero)))))) h = refl
code-digit (suc (suc (suc (suc (suc (suc (suc zero))))))) h = refl
code-digit (suc (suc (suc (suc (suc (suc (suc (suc zero)))))))) h = refl
code-digit (suc (suc (suc (suc (suc (suc (suc (suc (suc zero))))))))) h = refl
code-digit (suc (suc (suc (suc (suc (suc (suc (suc (suc (suc d)))))))))) h = absurd (omega arith)

digits_value-digit :
    (d value : ℕ) (s : String)
    → d < 10
    → digits_value (String.◌∷◌ (digit d) s) value ≡ digits_value s (value * 10 + d)
unfolding digits_value
digits_value-digit d value s h =
    let code_is = code-digit d h in
    either_way (λ r. r ≡ digits_value s (value * 10 + d))
      (leb 48 (code (digit d)) && leb (code (digit d)) 57)
      (λ _. ap (digits_value s) (omega (arith, code_is)))
      (λ bad. absurd (ground (arith, bad, code_is)))

digits_value-print_loop :
    (fuel n : ℕ) (rest : String)
    → n ≤ fuel
    → digits_value (print_loop fuel n rest) 0 ≡ digits_value rest n
unfolding print_loop
digits_value-print_loop zero n rest h =
    digits_value-digit (n % 10) 0 rest (omega arith) ∙ ap (digits_value rest) (omega arith)
digits_value-print_loop (suc fuel) n rest h =
    either_way (λ t. digits_value t 0 ≡ digits_value rest n) (ltb n 10)
      (λ small.
        digits_value-digit n 0 rest (ltb→lt n 10 small) ∙ ap (digits_value rest) (omega arith))
      (λ large.
        digits_value-print_loop fuel (n / 10) (String.◌∷◌ (digit (n % 10)) rest)
          (omega (tests, large))
        ∙ digits_value-digit (n % 10) (n / 10) rest (omega arith)
        ∙ ap (digits_value rest) (omega arith))

-- A text without characters of the code `k`.
unfoldable pub has_none : ℕ → String → Bool
has_none k String.[] = true
has_none k (String.◌∷◌ c s) = let rest = has_none k s in if code c == k then false else rest

has_none-digit :
    (k d : ℕ) (s : String)
    → k < 48
    → d < 10
    → has_none k s ≡ true
    → has_none k (String.◌∷◌ (digit d) s) ≡ true
unfolding has_none
has_none-digit k d s small h rest = let code_is = code-digit d h in ground (arith, code_is, rest)

has_none-print_loop :
    (k fuel n : ℕ) (rest : String)
    → k < 48
    → has_none k rest ≡ true
    → has_none k (print_loop fuel n rest) ≡ true
unfolding print_loop
has_none-print_loop k zero n rest small h = has_none-digit k (n % 10) rest small (omega arith) h
has_none-print_loop k (suc fuel) n rest small h =
    either_way (λ t. has_none k t ≡ true) (ltb n 10)
      (λ few. has_none-digit k n rest small (ltb→lt n 10 few) h)
      (λ many.
        has_none-print_loop k fuel (n / 10) (String.◌∷◌ (digit (n % 10)) rest) small
          (has_none-digit k (n % 10) rest small (omega arith) h))

pub has_none-print_ℕ : (k n : ℕ) → k < 48 → has_none k (print_ℕ n) ≡ true
unfolding print_ℕ has_none
has_none-print_ℕ k n small = has_none-print_loop k n n "" small refl

some_inj : (a b : ℕ) → some a ≡ some b → a ≡ b
some_inj a b h = cc

unsigned_value_of :
    (s : String) (n : ℕ) → digits_value s 0 ≡ some n → n < 2 ^ 63 → unsigned_value s ≡ n
unfolding unsigned_value digits_value
unsigned_value_of s n h small =
    either_way (λ v. v ≡ n) (str_eq s "")
      (λ empty.
        let e : s ≡ "" = (string_same_iff s "").0 empty in
        some_inj 0 n (ap (λ t. digits_value t 0) (sym e) ∙ h))
      (λ _. rw h (rw (lt→ltb n (2 ^ 63) small) refl))

atoi64_unsigned : (s : String) → has_none b'+' s ≡ true → atoi64 s ≡ unsigned_value s
unfolding atoi64 has_none unsigned_value
atoi64_unsigned String.[] h = refl
atoi64_unsigned (String.◌∷◌ c s) h =
    either_way (λ v. v ≡ unsigned_value (String.◌∷◌ c s)) (code c == b'+')
      (λ plus. absurd (ground (arith, plus, h))) (λ _. refl)

pub atoi64-print_ℕ : (n : ℕ) → n < 2 ^ 63 → atoi64 (print_ℕ n) ≡ n
unfolding print_ℕ digits_value
atoi64-print_ℕ n h =
    atoi64_unsigned (print_ℕ n) (has_none-print_ℕ b'+' n (omega arith))
    ∙ unsigned_value_of (print_ℕ n) n (digits_value-print_loop n n "" (omega arith)) h
