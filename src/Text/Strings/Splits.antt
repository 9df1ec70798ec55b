-- ===== src/Text/Strings/Splits.antt =====
-- `Split` and `Join` at a character that the parts lack.
use Prim.Native.Char.{Char, code}
use text.Mathlib.TextLemmas.{nil-append, cons-append, append-nil}
use multiprox.Prelude.{
  ℕ, String, ◌≡◌, ◌≢◌, Bool-cases, inl, inr, refl, sym, ap, ◌∙◌, List, [], ◌∷◌, ◌++◌, eqb, All,
  arith,
}
use multiprox.Text.Strings.{◌+++◌, split, join, unlines}
use multiprox.Text.Strings.Lacks.{Lacks, is_char, single-append}

module _ (sep : ℕ) where
  split_parts : (s : String) → (t : String) × (ts : List String) × (split s sep ≡ t ∷ ts)
  unfolding split
  split_parts String.[] = ("", [], refl)
  split_parts (String.◌∷◌ c s) =
      let (t, ts, e) = split_parts s in
      elim (Bool-cases (eqb (code c) sep)) [
        | inl same ↦ ("", t ∷ ts, rw e (rw same refl))
        | inr other ↦ (String.◌∷◌ c t, ts, rw e (rw other refl))
      ]

  split-append :
      (s rest t : String) (ts : List String)
      → Lacks (is_char sep) s
      → split rest sep ≡ t ∷ ts
      → split (s +++ rest) sep ≡ (s +++ t) ∷ ts
  unfolding split
  split-append String.[] rest t ts _ e = cc (e, nil-append rest, nil-append t)
  split-append (String.◌∷◌ c s) rest t ts (h, hs) e =
      ground (arith, split-append s rest t ts hs e, cons-append c s rest, cons-append c s t)

module _ (c : Char) where
  -- the part before a separator
  pub split_at :
      (s rest : String)
      → Lacks (is_char (code c)) s
      → split (s +++ String.◌∷◌ c rest) (code c) ≡ s ∷ split rest (code c)
  unfolding split
  split_at s rest h =
      let (t, ts, e) = split_parts (code c) rest in
      split-append (code c) s (String.◌∷◌ c rest) "" (t ∷ ts) h (ground (arith, e))
      ∙ ground (arith, e, append-nil s)

  pub split_none : (s : String) → Lacks (is_char (code c)) s → split s (code c) ≡ s ∷ []
  unfolding split
  split_none s h =
      ap (λ u. split u (code c)) (sym (append-nil s))
      ∙ split-append (code c) s "" "" [] h refl
      ∙ ap (λ u. u ∷ []) (append-nil s)

  -- Splitting a join gives the parts back, if there is a part and none holds the separator.
  pub split-join :
      (ps : List String)
      → ps ≢ []
      → All (Lacks (is_char (code c))) ps
      → split (join ps (String.◌∷◌ c "")) (code c) ≡ ps
  unfolding join
  split-join [] h _ = absurd (h refl)
  split-join (p ∷ []) _ (hp, _) = split_none p hp
  split-join (p ∷ q ∷ ps) _ (hp, hps) =
      rw (single-append) (split_at p _ hp) ∙ ap (λ u. p ∷ u) (split-join (q ∷ ps) (cc) hps)

pub split-unlines :
    (ls : List String) → All (Lacks (is_char b'\n')) ls → split (unlines ls) b'\n' ≡ ls ++ "" ∷ []
unfolding split
split-unlines [] _ = refl
split-unlines (l ∷ ls) (h, hs) =
    rw (single-append "\n" (unlines ls)) (split_at "\n" l (unlines ls) h)
    ∙ ap (λ u. l ∷ u) (split-unlines ls hs)
