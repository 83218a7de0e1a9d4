-- ===== src/Base/Text.antt =====
-- Walking over texts. `String` has its own `[]` and `∷`; `◌++◌` here is that of texts.
use Prim.Native.Char.{Char, code}
use Prim.Native.String.{◌++◌}
use Prim.Native.String.append
use invokr.Base.{
  ℕ, zero, suc, ◌+◌, ◌/◌, ◌%◌, ◌≡◌, refl, ap, ◌∙◌, String, Bool, true, false, ◌&&◌, ◌||◌, Option,
  none, some, arith, ◌==◌, leb, ltb, if◌then◌else◌,
}

-- `chars().all(p)`, on code points.
unfoldable pub all_chars : (ℕ → Bool) → String → Bool
all_chars p String.[] = true
all_chars p (String.◌∷◌ c s) = p (code c) && all_chars p s

-- `chars().count()`, which is `len()` for an ASCII text.
unfoldable pub count_chars : String → ℕ
count_chars String.[] = 0
count_chars (String.◌∷◌ c s) = suc (count_chars s)

-- `strip_prefix`.
unfoldable pub strip_prefix : String → String → Option String
strip_prefix String.[] s = some s
strip_prefix (String.◌∷◌ c p) String.[] = none
strip_prefix (String.◌∷◌ c p) (String.◌∷◌ d s) = if code c == code d then strip_prefix p s else none

-- `split_once`: the text before the first occurrence of `p`, and the text after it.
unfoldable pub split_once : String → String → Option (String × String)
split_once p String.[] = elim (strip_prefix p "") [ some rest ↦ some ("", rest) | none ↦ none ]
split_once p (String.◌∷◌ c s) = elim (strip_prefix p (String.◌∷◌ c s)) [
  | some rest ↦ some ("", rest)
  | none ↦ elim (split_once p s) [
    | some (before, after) ↦ some (String.◌∷◌ c before, after)
    | none ↦ none
  ]
]

abbrev pub contains : String → String → Bool
contains p s = elim (split_once p s) [ some _ ↦ true | none ↦ false ]

-- `strip_suffix`.
unfoldable pub strip_suffix : String → String → Option String
strip_suffix p String.[] = elim (strip_prefix p "") [ some _ ↦ some "" | none ↦ none ]
strip_suffix p (String.◌∷◌ c s) = elim (strip_prefix p (String.◌∷◌ c s)) [
  | some String.[] ↦ some ""
  | _ ↦ elim (strip_suffix p s) [ some before ↦ some (String.◌∷◌ c before) | none ↦ none ]
]

-- `char::is_whitespace`: the code points of the Unicode property White_Space.
unfoldable pub is_whitespace : ℕ → Bool
is_whitespace c =
    (leb 0x9 c && leb c 0xd)
    || c == 0x20
    || c == 0x85
    || c == 0xa0
    || c == 0x1680
    || (leb 0x2000 c && leb c 0x200a)
    || c == 0x2028
    || c == 0x2029
    || c == 0x202f
    || c == 0x205f
    || c == 0x3000

unfoldable pub trim_start : String → String
unfolding is_whitespace
trim_start String.[] = ""
trim_start (String.◌∷◌ c s) = if is_whitespace (code c) then trim_start s else String.◌∷◌ c s

unfoldable pub trim_end : String → String
unfolding is_whitespace
trim_end String.[] = ""
trim_end (String.◌∷◌ c s) = elim (trim_end s) [
  | String.[] ↦ if is_whitespace (code c) then "" else String.◌∷◌ c ""
  | rest ↦ String.◌∷◌ c rest
]

unfoldable pub trim : String → String
unfolding trim_start trim_end
trim s = trim_start (trim_end s)

-- The decimal digit of `n % 10`.
abbrev digit : ℕ → String
digit n =
    if n == 0
    then "0"
    else if n == 1
    then "1"
    else if n == 2
    then "2"
    else if n == 3
    then "3"
    else if n == 4
    then "4"
    else if n == 5
    then "5"
    else if n == 6
    then "6"
    else if n == 7
    then "7"
    else if n == 8
    then "8"
    else "9"

-- Rounds enough for every number: `n < 10 ^ suc n`.
show_digits : ℕ → ℕ → String → String
show_digits zero n acc = acc
show_digits (suc f) n acc =
    let shorter = show_digits f (n / 10) (digit (n % 10) ++ acc) in
    if ltb n 10 then digit n ++ acc else shorter

-- `to_string` of an unsigned number.
unfoldable pub show_nat : ℕ → String
unfolding show_digits
show_nat n = show_digits (suc n) n ""

pub strip_prefix-append : (p s : String) → strip_prefix p (p ++ s) ≡ some s
unfolding strip_prefix
strip_prefix-append String.[] s = ground (arith, append.nil s)
strip_prefix-append (String.◌∷◌ c p) s = ground (arith, append.cons c p s, strip_prefix-append p s)

show_nat_test : show_nat 2040 ≡ "2040"
unfolding show_nat
show_nat_test = refl

trim_test : trim "  a b " ≡ "a b"
unfolding trim
trim_test = refl

split_once_test : split_once "}}" "x.y}}z}}" ≡ some ("x.y", "z}}")
unfolding split_once strip_prefix
split_once_test = refl

strip_suffix_test : strip_suffix "}}" "x}}}}" ≡ some "x}}"
unfolding strip_suffix strip_prefix
strip_suffix_test = refl

pub count_chars-append : (s t : String) → count_chars (s ++ t) ≡ count_chars s + count_chars t
unfolding count_chars
count_chars-append String.[] t = ground (arith, append.nil t)
count_chars-append (String.◌∷◌ c s) t = ground (arith, append.cons c s t, count_chars-append s t)

pub two_append :
    (c d : Char) (s : String) → String.◌∷◌ c (String.◌∷◌ d "") ++ s ≡ String.◌∷◌ c (String.◌∷◌ d s)
two_append c d s =
    append.cons c (String.◌∷◌ d "") s
    ∙ ap (String.◌∷◌ c) (append.cons d "" s ∙ ap (String.◌∷◌ d) (append.nil s))
