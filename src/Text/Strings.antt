-- ===== src/Text/Strings.antt =====
-- The functions of Go's package `strings` that the operator calls. A text is its list of characters.
pub mod Lacks
pub mod Splits
pub mod Words
pub mod Cuts
pub mod Trims
use Prim.Native.Char.{Char, code}
use Prim.Native.String
use multiprox.Prelude.{
  ℕ, String, ◌≡◌, refl, Bool, true, false, ◌&&◌, ◌||◌, Option, none, some, List, [], ◌∷◌, eqb, leb,
  ◌==◌, if◌then◌else◌,
}

infixr 65 ◌+++◌
abbrev pub ◌+++◌ : String → String → String
s +++ t = String.◌++◌ s t

-- `unicode.IsSpace`
abbrev pub is_space : Char → Bool
is_space c =
    let n = code c in
    (leb 9 n && leb n 13)
    || eqb n 32
    || eqb n 0x85
    || eqb n 0xa0
    || eqb n 0x1680
    || (leb 0x2000 n && leb n 0x200a)
    || eqb n 0x2028
    || eqb n 0x2029
    || eqb n 0x202f
    || eqb n 0x205f
    || eqb n 0x3000

abbrev pub is_empty : String → Bool
is_empty String.[] = true
is_empty (String.◌∷◌ _ _) = false

-- `HasPrefix(s, prefix)`, the arguments the other way round, and the rest of the text
pub after_prefix : String → String → Option String
after_prefix String.[] s = some s
after_prefix (String.◌∷◌ _ _) String.[] = none
after_prefix (String.◌∷◌ d p) (String.◌∷◌ c s) =
    let rest = after_prefix p s in if eqb (code d) (code c) then rest else none

unfoldable pub has_prefix : String → String → Bool
unfolding after_prefix
has_prefix s prefix = elim (after_prefix prefix s) [ none ↦ false | some _ ↦ true ]

abbrev pub before_with : Char → Option (String × String) → Option (String × String)
before_with c none = none
before_with c (some (before, after)) = some (String.◌∷◌ c before, after)

-- `Cut(s, sep)`: the text before the first `sep` and the text after it. `Index(s, sep)` with the
-- two slices around it is the same.
unfoldable pub cut : String → String → Option (String × String)
unfolding after_prefix
cut String.[] sep = elim (after_prefix sep String.[]) [ none ↦ none | some rest ↦ some ("", rest) ]
cut (String.◌∷◌ c s) sep =
    let later = before_with c (cut s sep) in
    elim (after_prefix sep (String.◌∷◌ c s)) [ none ↦ later | some rest ↦ some ("", rest) ]

-- a character in front of the first part, which it ends if it is the separator
abbrev pub cons_part : ℕ → Char → List String → List String
cons_part sep c [] = (String.◌∷◌ c "") ∷ []
cons_part sep c (t ∷ ts) = if eqb (code c) sep then "" ∷ t ∷ ts else (String.◌∷◌ c t) ∷ ts

-- `Split(s, sep)` at a separator of one character: never the empty list
unfoldable pub split : String → ℕ → List String
split String.[] sep = "" ∷ []
split (String.◌∷◌ c s) sep = cons_part sep c (split s sep)

unfoldable pub trim_left : String → String
trim_left String.[] = ""
trim_left (String.◌∷◌ c s) = let rest = trim_left s in if is_space c then rest else String.◌∷◌ c s

-- a character in front of a text that is trimmed on the right
abbrev pub cons_trimmed : Char → String → String
cons_trimmed c String.[] = if is_space c then "" else String.◌∷◌ c ""
cons_trimmed c (String.◌∷◌ d s) = String.◌∷◌ c (String.◌∷◌ d s)

unfoldable pub trim_right : String → String
trim_right String.[] = ""
trim_right (String.◌∷◌ c s) = cons_trimmed c (trim_right s)

unfoldable pub trim_space : String → String
unfolding trim_left trim_right
trim_space s = trim_right (trim_left s)

-- a field that is not empty, in front of the others
abbrev pub cons_field : String → List String → List String
cons_field String.[] fs = fs
cons_field (String.◌∷◌ c s) fs = String.◌∷◌ c s ∷ fs

-- the field that the text begins with, and the fields behind it
pub fields_from : String → String × List String
fields_from String.[] = ("", [])
fields_from (String.◌∷◌ c s) =
    let (head, rest) = fields_from s in
    if is_space c then ("", cons_field head rest) else (String.◌∷◌ c head, rest)

-- `Fields(s)`: the parts between runs of white space
unfoldable pub fields : String → List String
unfolding fields_from
fields s = let (head, rest) = fields_from s in cons_field head rest

-- what stands after the last `sep`: `s[LastIndexByte(s, sep)+1:]`
unfoldable pub after_last : String → ℕ → Option String
after_last String.[] sep = none
after_last (String.◌∷◌ c s) sep = elim (after_last s sep) [
  | some t ↦ some t
  | none ↦ if eqb (code c) sep then some s else none
]

-- `Join(parts, sep)`
unfoldable pub join : List String → String → String
join [] sep = ""
join (s ∷ []) sep = s
join (s ∷ t ∷ rest) sep = s +++ sep +++ join (t ∷ rest) sep

strings : Unit {0}
unfolding has_prefix cut split trim_space fields after_last join
strings = tt

cut_tests :
    (cut "a=b=c" "=" ≡ some ("a", "b=c"))
    × (cut "abc" "=" ≡ none)
    × (cut "x detail=y z" "detail=" ≡ some ("x ", "y z"))
    × (split "a,,b" b',' ≡ "a" ∷ "" ∷ "b" ∷ [])
    × (fields "  a=1\t b  " ≡ "a=1" ∷ "b" ∷ [])
    × (trim_space " a b \n" ≡ "a b")
    × (after_last "a\nb\nc" b'\n' ≡ some "c")
    × (has_prefix "node=x" "node=" ≡ true)
    × (join ("a" ∷ "b" ∷ []) "," ≡ "a,b")
unfolding strings
cut_tests = (refl, refl, refl, refl, refl, refl, refl, refl, refl)

-- each line with its newline
abbrev pub unlines : List String → String
unlines [] = ""
unlines (l ∷ ls) = l +++ "\n" +++ unlines ls

-- `%v` of a list of texts
abbrev pub show_list : List String → String
show_list parts = "[" +++ join parts " " +++ "]"

-- whether a line is one of the text
unfoldable pub has_line : String → String → Bool
unfolding split
has_line l s = elem l (split s b'\n')
  where
    elem : String → List String → Bool
    elem l [] = false
    elem l (m ∷ ms) = m == l || elem l ms
