-- ===== src/Text/Decimal.antt =====
-- `strconv.Itoa`, the verb `%d` of `fmt`, and `strconv.Atoi`.
pub mod Words
use Prim.Native.Char.{Char, code}
use multiprox.Prelude.{
  ℕ, zero, suc, ◌+◌, ◌-◌, ◌*◌, ◌/◌, ◌%◌, ◌^◌, ◌≤◌, ◌<◌, String, ◌≡◌, refl, ap, ◌∙◌, sym, ◌&&◌,
  Option, none, some, arith, eqb, leb, ltb, if◌then◌else◌,
}
use multiprox.Prelude.Int.{ℤ, pos, negsuc}

abbrev pub digit_char : ℕ → Char
digit_char zero = "0"
digit_char (suc zero) = "1"
digit_char (suc (suc zero)) = "2"
digit_char (suc (suc (suc zero))) = "3"
digit_char (suc (suc (suc (suc zero)))) = "4"
digit_char (suc (suc (suc (suc (suc zero))))) = "5"
digit_char (suc (suc (suc (suc (suc (suc zero)))))) = "6"
digit_char (suc (suc (suc (suc (suc (suc (suc zero))))))) = "7"
digit_char (suc (suc (suc (suc (suc (suc (suc (suc zero)))))))) = "8"
digit_char _ = "9"

pub code-digit_char : (d : ℕ) → d < 10 → code (digit_char d) ≡ b'0' + d
code-digit_char zero h = refl
code-digit_char (suc zero) h = refl
code-digit_char (suc (suc zero)) h = refl
code-digit_char (suc (suc (suc zero))) h = refl
code-digit_char (suc (suc (suc (suc zero)))) h = refl
code-digit_char (suc (suc (suc (suc (suc zero))))) h = refl
code-digit_char (suc (suc (suc (suc (suc (suc zero)))))) h = refl
code-digit_char (suc (suc (suc (suc (suc (suc (suc zero))))))) h = refl
code-digit_char (suc (suc (suc (suc (suc (suc (suc (suc zero)))))))) h = refl
code-digit_char (suc (suc (suc (suc (suc (suc (suc (suc (suc zero))))))))) h = refl
code-digit_char (suc (suc (suc (suc (suc (suc (suc (suc (suc (suc d)))))))))) h =
    absurd (omega arith)

-- the digits of `n` in front of `out`; `n` itself is fuel enough, since each round divides by ten
pub digits : ℕ → ℕ → String → String
digits zero n out = out
digits (suc fuel) n out =
    let longer = String.◌∷◌ (digit_char (n % 10)) out in
    let rest = digits fuel (n / 10) longer in if ltb n 10 then longer else rest

-- `%d` of a number that is not negative
unfoldable pub show_ℕ : ℕ → String
unfolding digits
show_ℕ n = digits (suc n) n ""

-- `%d`
unfoldable pub show_ℤ : ℤ → String
unfolding show_ℕ
show_ℤ (pos n) = show_ℕ n
show_ℤ (negsuc n) = String.◌∷◌ "-" (show_ℕ (suc n))

-- the digits of a number behind those read before; `none` where a character is no digit
pub scan : String → ℕ → Option ℕ
scan String.[] n = some n
scan (String.◌∷◌ c s) n =
    let rest = scan s (n * 10 + (code c - b'0')) in
    if leb b'0' (code c) && leb (code c) b'9' then rest else none

pub scan_nonempty : String → Option ℕ
scan_nonempty String.[] = none
scan_nonempty (String.◌∷◌ c s) = scan (String.◌∷◌ c s) 0

in_int64 : Option ℕ → Option ℤ
in_int64 none = none
in_int64 (some n) = if ltb n (2 ^ 63) then some (pos n) else none

pub minus : ℕ → ℤ
minus zero = pos 0
minus (suc n) = negsuc n

neg_in_int64 : Option ℕ → Option ℤ
unfolding minus
neg_in_int64 none = none
neg_in_int64 (some n) = if leb n (2 ^ 63) then some (minus n) else none

-- `strconv.Atoi`: a sign or none, one or more digits, and a value of 64 bits
unfoldable pub atoi : String → Option ℤ
unfolding scan scan_nonempty in_int64 neg_in_int64
atoi String.[] = none
atoi (String.◌∷◌ c s) =
    if eqb (code c) b'-'
    then neg_in_int64 (scan_nonempty s)
    else if eqb (code c) b'+'
    then in_int64 (scan_nonempty s)
    else in_int64 (scan (String.◌∷◌ c s) 0)

decimal_tests :
    (show_ℤ (pos 0) ≡ "0")
    × (show_ℤ (pos 120) ≡ "120")
    × (show_ℤ (negsuc 6) ≡ "-7")
    × (atoi "-7" ≡ some (negsuc 6))
    × (atoi "+12" ≡ some (pos 12))
    × (atoi "1x" ≡ none)
    × (atoi "-" ≡ none)
    × (atoi "9223372036854775808" ≡ none)
    × (atoi "-9223372036854775808" ≡ some (negsuc 9223372036854775807))
unfolding show_ℤ atoi
decimal_tests = (refl, refl, refl, refl, refl, refl, refl, refl, refl)

scan_digit :
    (d n : ℕ) (out : String)
    → d < 10
    → scan (String.◌∷◌ (digit_char d) out) n ≡ scan out (n * 10 + d)
unfolding scan
scan_digit d n out h = ground (arith, code-digit_char d h)

-- reading the digits of `n` gives `n`, whatever follows
pub scan-digits : (fuel n : ℕ) (out : String) → n < fuel → scan (digits fuel n out) 0 ≡ scan out n
unfolding digits
scan-digits zero n out h = absurd (omega arith)
scan-digits (suc fuel) n out h = ground (
  arith,
  scan-digits fuel (n / 10) (String.◌∷◌ (digit_char (n % 10)) out),
  scan_digit (n % 10) (n / 10) out,
  scan_digit (n % 10) 0 out,
)

-- the first character of a print is a digit
abbrev pub StartsWithDigit : String → Type 0
StartsWithDigit String.[] = ⊥
StartsWithDigit (String.◌∷◌ c s) = (b'0' ≤ code c) × (code c ≤ b'9')

pub digits-StartsWithDigit :
    (fuel n : ℕ) (out : String) → n < fuel → StartsWithDigit (digits fuel n out)
unfolding digits
digits-StartsWithDigit zero n out h = absurd (omega arith)
digits-StartsWithDigit (suc fuel) n out h = ground (
  arith,
  digits-StartsWithDigit fuel (n / 10) (String.◌∷◌ (digit_char (n % 10)) out),
  code-digit_char (n % 10),
)

atoi_of_digit :
    (s : String) (n : ℕ)
    → StartsWithDigit s
    → scan s 0 ≡ some n
    → n < 2 ^ 63
    → atoi s ≡ some (pos n)
unfolding atoi
atoi_of_digit String.[] n d h lt = absurd d
atoi_of_digit (String.◌∷◌ c s) n d h lt = ground arith

-- Atoi reads back what %d has printed.
pub atoi-show_ℕ : (n : ℕ) → n < 2 ^ 63 → atoi (show_ℕ n) ≡ some (pos n)
unfolding show_ℕ scan
atoi-show_ℕ n h =
    atoi_of_digit _ n (digits-StartsWithDigit (suc n) n "" (omega arith))
      (scan-digits (suc n) n "" (omega arith)) h

-- Two numbers with one print are equal.
pub show_ℕ-injective : (m n : ℕ) → show_ℕ m ≡ show_ℕ n → m ≡ n
unfolding show_ℕ scan
show_ℕ-injective m n e =
    let same : some m ≡ some n =
      sym (scan-digits (suc m) m "" (omega arith))
      ∙ ap (λ s. scan s 0) e
      ∙ scan-digits (suc n) n "" (omega arith) in
    cc
