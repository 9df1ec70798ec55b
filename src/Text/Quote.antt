-- ===== src/Text/Quote.antt =====
-- The verb `%q` of `fmt`: a Go string literal. Characters beyond ASCII are kept as they are, which
-- is what Go does with those that are printable.
use Prim.Native.Char.{Char, code}
use multiprox.Prelude.{ℕ, ◌/◌, ◌%◌, String, ◌≡◌, refl, eqb, ltb, ◌||◌, if◌then◌else◌}
use multiprox.Text.Strings.{◌+++◌}
use multiprox.Text.Decimal.{show_ℕ}

abbrev hex_digit : ℕ → String
unfolding show_ℕ
hex_digit d =
    if ltb d 10
    then show_ℕ d
    else if eqb d 10
    then "a"
    else if eqb d 11
    then "b"
    else if eqb d 12
    then "c"
    else if eqb d 13
    then "d"
    else if eqb d 14
    then "e"
    else "f"

quote_char : Char → String
unfolding show_ℕ
quote_char c =
    let n = code c in
    if eqb n 34
    then "\\\""
    else if eqb n 92
    then "\\\\"
    else if eqb n 7
    then "\\a"
    else if eqb n 8
    then "\\b"
    else if eqb n 12
    then "\\f"
    else if eqb n 10
    then "\\n"
    else if eqb n 13
    then "\\r"
    else if eqb n 9
    then "\\t"
    else if eqb n 11
    then "\\v"
    else if ltb n 32 || eqb n 127
    then "\\x" +++ hex_digit (n / 16) +++ hex_digit (n % 16)
    else String.◌∷◌ c ""

quote_chars : String → String
unfolding quote_char
quote_chars String.[] = ""
quote_chars (String.◌∷◌ c s) = quote_char c +++ quote_chars s

unfoldable pub quote : String → String
unfolding quote_chars
quote s = "\"" +++ quote_chars s +++ "\""

quote_tests : (quote "ceph-vm" ≡ "\"ceph-vm\"") × (quote "a\"\\\n\u{1}" ≡ "\"a\\\"\\\\\\n\\x01\"")
unfolding quote
quote_tests = (refl, refl)
