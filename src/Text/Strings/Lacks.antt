-- ===== src/Text/Strings/Lacks.antt =====
-- Texts without a kind of character.
use Prim.Native.Char.{Char, code}
use text.Mathlib.TextLemmas.{nil-append, cons-append}
use multiprox.Prelude.{
  ℕ, String, ◌≡◌, refl, subst, sym, Bool, true, false, not, ◌&&◌, &&-eq-true, arith, eqb,
}
use multiprox.Text.Strings.{◌+++◌, is_empty, is_space}

abbrev pub is_char : ℕ → Char → Bool
is_char sep c = eqb (code c) sep

module _ (p : Char → Bool) where
  abbrev pub Lacks : String → Type 0
  Lacks String.[] = Unit
  Lacks (String.◌∷◌ c s) = (p c ≡ false) × Lacks s

  pub Lacks-append : (s t : String) → Lacks s → Lacks t → Lacks (s +++ t)
  Lacks-append String.[] t _ k = subst Lacks (sym (nil-append t)) k
  Lacks-append (String.◌∷◌ c s) t (h, hs) k =
      subst Lacks (sym (cons-append c s t)) (h, Lacks-append s t hs k)

  -- the test of it, which computes on a literal
  abbrev pub lacks : String → Bool
  lacks String.[] = true
  lacks (String.◌∷◌ c s) = not (p c) && lacks s

  pub lacks-Lacks : (s : String) → lacks s ≡ true → Lacks s
  lacks-Lacks String.[] _ = tt
  lacks-Lacks (String.◌∷◌ c s) h =
      let (head, tail) = &&-eq-true (not (p c)) (lacks s) h in (ground (arith), lacks-Lacks s tail)

-- a text that `Fields` keeps as one: not empty and without white space
abbrev pub IsWord : String → Type 0
IsWord s = (is_empty s ≡ false) × Lacks is_space s

abbrev pub is_word : String → Bool
is_word s = not (is_empty s) && lacks is_space s

pub is_word-IsWord : (s : String) → is_word s ≡ true → IsWord s
is_word-IsWord s h =
    let (filled, words) = &&-eq-true (not (is_empty s)) (lacks is_space s) h in
    (ground (arith), lacks-Lacks is_space s words)

pub IsWord-append : (s t : String) → IsWord s → Lacks is_space t → IsWord (s +++ t)
IsWord-append String.[] t (h, _) k = absurd (cc)
IsWord-append (String.◌∷◌ c s) t (h, hs) k =
    subst IsWord (sym (cons-append c s t)) (h, (hs.0, Lacks-append is_space s t hs.1 k))

pub single-append : (c : Char) (s : String) → String.◌∷◌ c "" +++ s ≡ String.◌∷◌ c s
single-append c s = rw (cons-append, nil-append) refl

-- A text without white space has no newline.
pub no_newline : (s : String) → Lacks is_space s → Lacks (is_char b'\n') s
no_newline String.[] _ = tt
no_newline (String.◌∷◌ c s) (h, hs) = (ground (arith), no_newline s hs)
