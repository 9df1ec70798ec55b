-- ===== src/Text/Facts.antt =====
-- The fields `key=value` that the scripts of configmap.go print.
use text.Mathlib.TextLemmas.{append_assoc}
use multiprox.Prelude.{String, ◌≡◌, refl, sym, ap, subst, ◌∙◌, true, false, some}
use multiprox.Text.Strings.{◌+++◌, is_space, cut}
use multiprox.Text.Strings.Lacks.{
  Lacks, lacks, lacks-Lacks, is_char, is_word, is_word-IsWord, IsWord, IsWord-append,
}
use multiprox.Text.Strings.Words.{cut_at}
use multiprox.Text.Strings.Cuts.{Skips, Skips-append, clear, clear-Skips, value-Skips}

abbrev pub fact : String → String → String
fact k v = k +++ "=" +++ v

pub fact-IsWord : (k v : String) → is_word k ≡ true → Lacks is_space v → IsWord (fact k v)
fact-IsWord k v h j =
    IsWord-append k ("=" +++ v) (is_word-IsWord k h) (IsWord-append "=" v (refl, (refl, tt)) j).1

pub cut-fact : (k v : String) → lacks (is_char b'=') k ≡ true → cut (fact k v) "=" ≡ some (k, v)
cut-fact k v h = cut_at "=" k v (lacks-Lacks (is_char b'=') k h)

-- A separator that is no part of the key and needs the sign again is not found in a field.
pub fact-Skips :
    (sep k v : String)
    → clear sep (k +++ "=") ≡ true
    → lacks (is_char b'=') sep ≡ false
    → lacks (is_char b' ') sep ≡ true
    → Lacks (is_char b'=') v
    → Skips sep (fact k v +++ " ")
fact-Skips sep k v c h s l =
    subst (Skips sep)
      (sym (
        append_assoc k ("=" +++ v) " "
        ∙ ap (λ u. k +++ u) (append_assoc "=" v " ")
        ∙ sym (append_assoc k "=" (v +++ " "))))
      (Skips-append sep (k +++ "=") (v +++ " ") (clear-Skips sep (k +++ "=") c)
        (value-Skips b'=' sep v h s l))
