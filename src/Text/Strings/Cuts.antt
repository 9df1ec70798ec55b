-- ===== src/Text/Strings/Cuts.antt =====
-- `Cut` at a separator of several characters, on a text that is put together from parts.
use Prim.Native.Char.{Char, code}
use text.Mathlib.TextLemmas.{nil-append, append-nil, cons-append, append_assoc}
use multiprox.Prelude.{
  String, ℕ, ◌≡◌, refl, ap, sym, subst, ◌∙◌, Bool, true, false, Option, none, some, arith, eqb,
  ◌&&◌, &&-eq-true, if◌then◌else◌,
}
use multiprox.Text.Strings.{◌+++◌, cut, before_with, after_prefix}
use multiprox.Text.Strings.Lacks.{Lacks, lacks, is_char, single-append}
use multiprox.Text.Strings.Words.{after_prefix-append}

abbrev pub before_all : String → Option (String × String) → Option (String × String)
before_all s none = none
before_all s (some (before, after)) = some (s +++ before, after)

-- a character at which the two texts differ
abbrev differs : String → String → Bool
differs String.[] s = false
differs (String.◌∷◌ d p) String.[] = false
differs (String.◌∷◌ d p) (String.◌∷◌ c s) = if eqb (code d) (code c) then differs p s else true

before_with-all :
    (c : Char) (s : String) (o : Option (String × String))
    → before_with c (before_all s o) ≡ before_all (String.◌∷◌ c s) o
before_with-all c s none = refl
before_with-all c s (some (b, a)) = rw (cons-append c s b) refl

before_all-empty : (o : Option (String × String)) → before_all "" o ≡ o
before_all-empty none = refl
before_all-empty (some (b, a)) = rw (nil-append b) refl

pub before_all-append :
    (s t : String) (o : Option (String × String))
    → before_all s (before_all t o) ≡ before_all (s +++ t) o
before_all-append s t none = refl
before_all-append s t (some (b, a)) = rw (append_assoc s t b) refl

module _ (sep : String) where
  -- no cut begins in the text, whatever follows it
  abbrev pub Skips : String → Type 0
  Skips s = (rest : String) → cut (s +++ rest) sep ≡ before_all s (cut rest sep)

  -- the separator differs from the text at each place
  abbrev pub clear : String → Bool
  clear String.[] = true
  clear (String.◌∷◌ c s) = differs sep (String.◌∷◌ c s) && clear s

  differs-none : (p s rest : String) → differs p s ≡ true → after_prefix p (s +++ rest) ≡ none
  unfolding after_prefix
  differs-none String.[] s rest h = absurd (cc)
  differs-none (String.◌∷◌ d p) String.[] rest h = absurd (cc)
  differs-none (String.◌∷◌ d p) (String.◌∷◌ c s) rest h =
      ground (arith, cons-append c s rest, differs-none p s rest)

  cut_later :
      (c : Char) (s : String)
      → after_prefix sep (String.◌∷◌ c s) ≡ none
      → cut (String.◌∷◌ c s) sep ≡ before_with c (cut s sep)
  unfolding cut
  cut_later c s h = ground (arith)

  skip_one :
      (c : Char) (s rest : String)
      → after_prefix sep (String.◌∷◌ c s +++ rest) ≡ none
      → cut (s +++ rest) sep ≡ before_all s (cut rest sep)
      → cut (String.◌∷◌ c s +++ rest) sep ≡ before_all (String.◌∷◌ c s) (cut rest sep)
  skip_one c s rest h e =
      ap (λ u. cut u sep) (cons-append c s rest)
      ∙ cut_later c (s +++ rest) (ap (after_prefix sep) (sym (cons-append c s rest)) ∙ h)
      ∙ ap (before_with c) e
      ∙ before_with-all c s (cut rest sep)

  pub clear-Skips : (s : String) → clear s ≡ true → Skips s
  clear-Skips String.[] _ rest =
      ap (λ u. cut u sep) (nil-append rest) ∙ sym (before_all-empty (cut rest sep))
  clear-Skips (String.◌∷◌ c s) h rest =
      let (here, later) = &&-eq-true (differs sep (String.◌∷◌ c s)) (clear s) h in
      skip_one c s rest (differs-none sep (String.◌∷◌ c s) rest here) (clear-Skips s later rest)

  pub Skips-append : (s t : String) → Skips s → Skips t → Skips (s +++ t)
  Skips-append s t h k rest =
      ap (λ u. cut u sep) (append_assoc s t rest)
      ∙ h (t +++ rest)
      ∙ ap (before_all s) (k rest)
      ∙ before_all-append s t (cut rest sep)

-- A value cannot hold a separator with a character which the value lacks, and without the space
-- that follows the value.
module _ (n : ℕ) where
  holds-none :
      (sep v rest : String)
      → lacks (is_char n) sep ≡ false
      → lacks (is_char b' ') sep ≡ true
      → Lacks (is_char n) v
      → after_prefix sep (v +++ " " +++ rest) ≡ none
  unfolding after_prefix
  holds-none String.[] v rest h k l = absurd (cc)
  holds-none (String.◌∷◌ d sep) String.[] rest h k _ =
      rw (nil-append, single-append) (ground (arith))
  holds-none (String.◌∷◌ d sep) (String.◌∷◌ c v) rest h k (l, ls) =
      ground (arith, cons-append c v (" " +++ rest), holds-none sep v rest)

  pub value-Skips :
      (sep v : String)
      → lacks (is_char n) sep ≡ false
      → lacks (is_char b' ') sep ≡ true
      → Lacks (is_char n) v
      → Skips sep (v +++ " ")
  value-Skips sep String.[] h k _ rest =
      skip_one sep " " "" rest
        (ap (after_prefix sep) (sym (nil-append (" " +++ rest))) ∙ holds-none sep "" rest h k tt)
        (ap (λ u. cut u sep) (nil-append rest) ∙ sym (before_all-empty (cut rest sep)))
  value-Skips sep (String.◌∷◌ c v) h k (l, ls) rest =
      subst (λ u. cut (u +++ rest) sep ≡ before_all u (cut rest sep)) (sym (cons-append c v " "))
        (skip_one sep c (v +++ " ") rest
          (ap (after_prefix sep) (
              ap (λ u. u +++ rest) (sym (cons-append c v " "))
              ∙ append_assoc (String.◌∷◌ c v) " " rest)
            ∙ holds-none sep (String.◌∷◌ c v) rest h k (l, ls))
          (value-Skips sep v h k ls rest))

cut_prefix : (t sep rest : String) → after_prefix sep t ≡ some rest → cut t sep ≡ some ("", rest)
unfolding cut
cut_prefix String.[] sep rest h = rw (cut, h) refl
cut_prefix (String.◌∷◌ c t) sep rest h = rw (cut, h) refl

-- The text behind what a separator skips.
pub cut-Skips : (sep s rest : String) → Skips sep s → cut (s +++ sep +++ rest) sep ≡ some (s, rest)
cut-Skips sep s rest h =
    h (sep +++ rest)
    ∙ ap (before_all s) (cut_prefix (sep +++ rest) sep rest (after_prefix-append sep rest))
    ∙ ap (λ u. some (u, rest)) (append-nil s)
