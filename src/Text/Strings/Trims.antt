-- ===== src/Text/Strings/Trims.antt =====
-- `TrimSpace` and the last line of a text that ends in a line of interest.
use Prim.Native.Char.{Char, code}
use text.Mathlib.TextLemmas.{nil-append, cons-append, append_assoc}
use multiprox.Prelude.{
  String, ◌≡◌, refl, ap, sym, ◌∙◌, false, none, some, arith, ◌⊎◌, inl, inr, Bool-cases,
}
use multiprox.Text.Strings.{
  ◌+++◌, is_empty, is_space, after_last, trim_left, trim_right, trim_space,
}
use multiprox.Text.Strings.Lacks.{Lacks, is_char, single-append}
use multiprox.Text.Strings.Words.{trim_right-append, filled_right}

-- no white space at its ends
abbrev pub IsTrimmed : String → Type 0
IsTrimmed s = (trim_left s ≡ s) × (trim_right s ≡ s)

pub trim_space-IsTrimmed : (s : String) → IsTrimmed s → trim_space s ≡ s
unfolding trim_space
trim_space-IsTrimmed s (l, r) = rw (l) r

trim_right-newline : (s : String) → trim_right (s +++ "\n") ≡ trim_right s
unfolding trim_right
trim_right-newline String.[] = refl
trim_right-newline (String.◌∷◌ c s) = rw (cons-append, trim_right-newline s) refl

-- leading white space may end within the lines above
trim_left_above :
    (u x : String)
    → (trim_left (u +++ "\n" +++ x) ≡ trim_left x)
      ⊎ ((v : String) × (trim_left (u +++ "\n" +++ x) ≡ v +++ "\n" +++ x))
unfolding trim_left
trim_left_above String.[] x = inl (rw (nil-append, single-append) refl)
trim_left_above (String.◌∷◌ c u) x = elim (Bool-cases (is_space c)) [
  | inl space ↦ elim (trim_left_above u x) [
    | inl e ↦ inl (rw (cons-append, space) e)
    | inr e ↦ inr (e.0, rw (cons-append c u, space) e.1)
  ]
  | inr solid ↦ inr (String.◌∷◌ c u, rw (cons-append c u, solid) refl)
]

module _ (c : Char) where
  pub after_last-none : (s : String) → Lacks (is_char (code c)) s → after_last s (code c) ≡ none
  unfolding after_last
  after_last-none String.[] _ = refl
  after_last-none (String.◌∷◌ d s) (h, hs) = rw (after_last-none s hs, h) refl

  pub after_last-append :
      (u s : String)
      → Lacks (is_char (code c)) s
      → after_last (u +++ String.◌∷◌ c s) (code c) ≡ some s
  unfolding after_last
  after_last-append String.[] s h = rw (nil-append) (ground (arith, after_last-none s h))
  after_last-append (String.◌∷◌ d u) s h =
      ground (arith, after_last-append u s h, cons-append d u (String.◌∷◌ c s))

-- an output that ends in the line: whatever lines stand above it
pub data EndsIn (l : String) : String → Type 0 where
  alone : EndsIn l (l +++ "\n")
  below : (u : String) → EndsIn l (u +++ "\n" +++ l +++ "\n")

module _ (l : String) (first : (x : String) → trim_left (l +++ x) ≡ l +++ x)
    (last : trim_right l ≡ l) (filled : is_empty l ≡ false) where
  trim_alone : (x : String) → trim_left x ≡ l +++ "\n" → trim_space x ≡ l
  unfolding trim_space
  trim_alone x e = rw (e, trim_right-newline l) last

  trim_line : (v : String) → trim_right (v +++ "\n" +++ l +++ "\n") ≡ v +++ "\n" +++ l
  trim_line v =
      let spelled : v +++ "\n" +++ l +++ "\n" ≡ (v +++ "\n" +++ l) +++ "\n" =
        sym (append_assoc v ("\n" +++ l) "\n" ∙ ap (λ u. v +++ u) (append_assoc "\n" l "\n")) in
      ap trim_right spelled
      ∙ trim_right-newline (v +++ "\n" +++ l)
      ∙ trim_right-append v ("\n" +++ l) (trim_right-append "\n" l last filled)
          (filled_right "\n" l filled)

  pub trim_space-EndsIn :
      (out : String)
      → EndsIn l out
      → (trim_space out ≡ l) ⊎ ((v : String) × (trim_space out ≡ v +++ "\n" +++ l))
  trim_space-EndsIn out EndsIn.alone = inl (trim_alone (l +++ "\n") (first "\n"))
  trim_space-EndsIn out (EndsIn.below u) = elim (trim_left_above u (l +++ "\n")) [
    | inl e ↦ inl (trim_alone (u +++ "\n" +++ l +++ "\n") (e ∙ first "\n"))
    | inr e ↦ inr (e.0, unfold trim_space in (ap trim_right e.1 ∙ trim_line e.0))
  ]
