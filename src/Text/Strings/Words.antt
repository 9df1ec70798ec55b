-- ===== src/Text/Strings/Words.antt =====
-- `Fields`, `TrimSpace` and `Cut` on texts that are put together from words.
use Prim.Native.Char.{Char, code}
use text.Mathlib.TextLemmas.{nil-append, cons-append, append-nil, append_assoc}
use multiprox.Prelude.{
  String, ◌≡◌, refl, sym, ap, ◌∙◌, true, false, List, [], ◌∷◌, some, All, arith,
}
use multiprox.Text.Strings.{
  ◌+++◌, is_empty, is_space, fields, fields_from, cons_field, join, cut, after_prefix, has_prefix,
  cons_trimmed, trim_left, trim_right, trim_space,
}
use multiprox.Text.Strings.Lacks.{Lacks, Lacks-append, no_newline, IsWord, is_char, single-append}

fields_from-append :
    (s rest : String)
    → Lacks is_space s
    → fields_from (s +++ rest) ≡ (s +++ (fields_from rest).0, (fields_from rest).1)
unfolding fields_from
fields_from-append String.[] rest _ = cc (nil-append rest, nil-append (fields_from rest).0)
fields_from-append (String.◌∷◌ c s) rest (h, hs) = ground (
  arith,
  fields_from-append s rest hs,
  cons-append c s rest,
  cons-append c s (fields_from rest).0,
)

cons_field-word : (w : String) (ws : List String) → is_empty w ≡ false → cons_field w ws ≡ w ∷ ws
cons_field-word String.[] ws h = absurd (cc)
cons_field-word (String.◌∷◌ c w) ws h = refl

fields_from-join :
    (w : String) (ws : List String)
    → All IsWord (w ∷ ws)
    → fields_from (join (w ∷ ws) " ") ≡ (w, ws)
unfolding join fields_from
fields_from-join w [] ((_, h), _) =
    ap fields_from (sym (append-nil w))
    ∙ fields_from-append w "" h
    ∙ ap (λ u. (u, [])) (append-nil w)
fields_from-join w (v ∷ ws) ((_, h), hs) = rw (single-append) (
    fields_from-append w (String.◌∷◌ " " (join (v ∷ ws) " ")) h
    ∙ rw (fields_from-join v ws hs, append-nil, cons_field-word v ws hs.0.0) refl)

-- The fields of words with a space between them are the words.
pub fields-join : (ws : List String) → All IsWord ws → fields (join ws " ") ≡ ws
unfolding fields join
fields-join [] _ = refl
fields-join (w ∷ ws) h = rw (fields_from-join w ws h) (cons_field-word w ws h.0.0)

-- A key without the separator is what stands before it.
pub cut_at :
    (c : Char) (k v : String)
    → Lacks (is_char (code c)) k
    → cut (k +++ String.◌∷◌ c "" +++ v) (String.◌∷◌ c "") ≡ some (k, v)
unfolding cut after_prefix
cut_at c String.[] v _ = rw (nil-append, single-append) (ground arith)
cut_at c (String.◌∷◌ d k) v (h, hs) =
    ground (arith, cut_at c k v hs, cons-append d k (String.◌∷◌ c "" +++ v))

pub filled_right : (s t : String) → is_empty t ≡ false → is_empty (s +++ t) ≡ false
filled_right String.[] t h = rw (nil-append) h
filled_right (String.◌∷◌ c s) t h = rw (cons-append) refl

cons_trimmed-filled :
    (c : Char) (s : String) → is_empty s ≡ false → cons_trimmed c s ≡ String.◌∷◌ c s
cons_trimmed-filled c String.[] h = absurd (cc)
cons_trimmed-filled c (String.◌∷◌ d s) h = refl

pub trim_right-append :
    (s t : String) → trim_right t ≡ t → is_empty t ≡ false → trim_right (s +++ t) ≡ s +++ t
unfolding trim_right
trim_right-append String.[] t e _ = cc (nil-append t)
trim_right-append (String.◌∷◌ c s) t e h =
    rw (cons-append c s t, trim_right-append s t e h)
      (cons_trimmed-filled c (s +++ t) (filled_right s t h))

trim_right-word : (s : String) → Lacks is_space s → trim_right s ≡ s
unfolding trim_right
trim_right-word String.[] _ = refl
trim_right-word (String.◌∷◌ c String.[]) (h, _) = ground (arith)
trim_right-word (String.◌∷◌ c (String.◌∷◌ d s)) (h, hs) =
    ground (arith, trim_right-word (String.◌∷◌ d s) hs)

pub trim_left-word : (s t : String) → IsWord s → trim_left (s +++ t) ≡ s +++ t
unfolding trim_left
trim_left-word String.[] t (h, _) = absurd (cc)
trim_left-word (String.◌∷◌ c s) t (_, (h, hs)) = ground (arith, cons-append c s t)

filled_left : (s t : String) → is_empty s ≡ false → is_empty (s +++ t) ≡ false
filled_left String.[] t h = absurd (cc)
filled_left (String.◌∷◌ c s) t h = rw (cons-append) refl

pub join-filled :
    (sep w : String) (ws : List String) → is_empty w ≡ false → is_empty (join (w ∷ ws) sep) ≡ false
unfolding join
join-filled sep w [] h = h
join-filled sep w (v ∷ ws) h = filled_left w _ h

trim_left-join :
    (w : String) (ws : List String) → IsWord w → trim_left (join (w ∷ ws) " ") ≡ join (w ∷ ws) " "
unfolding join
trim_left-join w [] h = cc (trim_left-word w "" h, append-nil w)
trim_left-join w (v ∷ ws) h = trim_left-word w _ h

trim_right-join :
    (w : String) (ws : List String)
    → All IsWord (w ∷ ws)
    → trim_right (join (w ∷ ws) " ") ≡ join (w ∷ ws) " "
unfolding join
trim_right-join w [] ((_, h), _) = trim_right-word w h
trim_right-join w (v ∷ ws) (_, hs) =
    let tail = join (v ∷ ws) " " in
    let filled = join-filled " " v ws hs.0.0 in
    trim_right-append w (" " +++ tail) (trim_right-append " " tail (trim_right-join v ws hs) filled)
      (filled_right " " tail filled)

-- Words with a space between them are trimmed.
pub trim_space-join : (ws : List String) → All IsWord ws → trim_space (join ws " ") ≡ join ws " "
unfolding trim_space
trim_space-join [] _ = unfold join in unfold trim_left in unfold trim_right in refl
trim_space-join (w ∷ ws) h = rw (trim_left-join w ws h.0) (trim_right-join w ws h)

pub after_prefix-append : (p s : String) → after_prefix p (p +++ s) ≡ some s
unfolding after_prefix
after_prefix-append String.[] s = ap some (nil-append s)
after_prefix-append (String.◌∷◌ c p) s = ground (arith, after_prefix-append p s, cons-append c p s)

pub has_prefix-append : (p s : String) → has_prefix (p +++ s) p ≡ true
unfolding has_prefix
has_prefix-append p s = rw (has_prefix, after_prefix-append p s) refl

pub join-no_newline : (ws : List String) → All IsWord ws → Lacks (is_char b'\n') (join ws " ")
unfolding join
join-no_newline [] _ = tt
join-no_newline (w ∷ []) ((_, h), _) = no_newline w h
join-no_newline (w ∷ v ∷ ws) ((_, h), hs) =
    Lacks-append _ w _ (no_newline w h)
      (Lacks-append _ " " _ (refl, tt) (join-no_newline (v ∷ ws) hs))

-- The fields of a word, a space and a rest.
pub fields-word : (w rest : String) → IsWord w → fields ((w +++ " ") +++ rest) ≡ w ∷ fields rest
unfolding fields fields_from
fields-word w rest (h, hs) =
    ap fields (append_assoc w " " rest ∙ ap (λ u. w +++ u) (single-append " " rest))
    ∙ rw (fields_from-append w (String.◌∷◌ " " rest) hs, append-nil)
        (cons_field-word w (fields rest) h)
