-- ===== src/Text/Decimal/Words.antt =====
-- The characters of a printed number.
use Prim.Native.Char.{Char}
use multiprox.Prelude.{Bool, ℕ, zero, suc, ◌/◌, ◌%◌, ◌<◌, String, ◌≡◌, refl, some, false, arith}
use multiprox.Prelude.Int.{ℤ, pos, negsuc, IsInt32}
use multiprox.Text.Strings.{is_empty, is_space}
use multiprox.Text.Strings.Lacks.{Lacks, IsWord, is_char}
use multiprox.Text.Decimal.{
  digits, digit_char, show_ℤ, scan, scan_nonempty, minus, atoi, atoi-show_ℕ, scan-digits, show_ℕ,
  code-digit_char, StartsWithDigit, digits-StartsWithDigit,
}

module _ (p : Char → Bool) (no_digit : (d : ℕ) → d < 10 → p (digit_char d) ≡ false) where
  digits-Lacks : (fuel n : ℕ) (out : String) → Lacks p out → Lacks p (digits fuel n out)
  unfolding digits
  digits-Lacks zero n out h = h
  digits-Lacks (suc fuel) n out h =
      let longer = String.◌∷◌ (digit_char (n % 10)) out in
      let all : Lacks p longer = (no_digit (n % 10) (omega arith), h) in
      ground (arith, all, digits-Lacks fuel (n / 10) longer all)

  pub show_ℕ-Lacks : (n : ℕ) → Lacks p (show_ℕ n)
  unfolding show_ℕ
  show_ℕ-Lacks n = digits-Lacks (suc n) n "" tt

  pub show_ℤ-Lacks : p "-" ≡ false → (a : ℤ) → Lacks p (show_ℤ a)
  unfolding show_ℤ
  show_ℤ-Lacks h (pos n) = show_ℕ-Lacks n
  show_ℤ-Lacks h (negsuc n) = (h, show_ℕ-Lacks (suc n))

no_space : (d : ℕ) → d < 10 → is_space (digit_char d) ≡ false
no_space d h = ground (arith, code-digit_char d h)

filled : (s : String) → StartsWithDigit s → is_empty s ≡ false
filled String.[] h = absurd h
filled (String.◌∷◌ c s) h = refl

pub show_ℕ-IsWord : (n : ℕ) → IsWord (show_ℕ n)
unfolding show_ℕ
show_ℕ-IsWord n =
    (filled _ (digits-StartsWithDigit (suc n) n "" (omega arith)), show_ℕ-Lacks is_space no_space n)

pub show_ℤ-IsWord : (a : ℤ) → IsWord (show_ℤ a)
unfolding show_ℤ
show_ℤ-IsWord (pos n) = show_ℕ-IsWord n
show_ℤ-IsWord (negsuc n) = (refl, (refl, (show_ℕ-IsWord (suc n)).1))

scan_nonempty-digits :
    (s : String) (n : ℕ) → StartsWithDigit s → scan s 0 ≡ some n → scan_nonempty s ≡ some n
unfolding scan_nonempty
scan_nonempty-digits String.[] n d h = absurd d
scan_nonempty-digits (String.◌∷◌ c s) n d h = h

pub atoi-show_ℤ : (a : ℤ) → IsInt32 a → atoi (show_ℤ a) ≡ some a
unfolding show_ℤ
atoi-show_ℤ (pos n) h = atoi-show_ℕ n (omega arith)
atoi-show_ℤ (negsuc n) (_, h) =
    unfold atoi show_ℕ minus in
    rw
      (scan_nonempty-digits (digits (suc (suc n)) (suc n) "") (suc n)
        (digits-StartsWithDigit (suc (suc n)) (suc n) "" (omega arith))
        (scan-digits (suc (suc n)) (suc n) "" (omega arith)))
      (ground arith)

no_sign : (d : ℕ) → d < 10 → is_char b'=' (digit_char d) ≡ false
no_sign d h = ground (arith, code-digit_char d h)

-- A printed number can stand behind a key.
pub show_ℤ-no_sign : (a : ℤ) → Lacks (is_char b'=') (show_ℤ a)
show_ℤ-no_sign = show_ℤ-Lacks (is_char b'=') no_sign refl
