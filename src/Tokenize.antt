-- ===== src/Tokenize.antt =====
-- The tokenizers of rtc_base/string_encode.cc. A string is the list of its characters, which are
-- numbers below 256; npos is `none`.
pub mod Fields
pub mod Correct
mod Examples
use tqlib.Prelude.{
  ℕ, ◌+◌, ◌-◌, Bool, true, false, not, Option, none, some, List, [], ◌∷◌, ◌==◌, if◌then◌else◌,
  length, take, drop,
}

-- `string_view::substr`
unfoldable pub substr : List ℕ → ℕ → ℕ → List ℕ
substr source from count = take count (drop from source)

-- The loop of `tokenize` from an index on, with the characters that are left, and what follows it.
unfoldable pub tokenize_from : List ℕ → ℕ → ℕ → ℕ → List ℕ → List (List ℕ)
tokenize_from source delimiter i last [] =
    if not (last == length source) then substr source last (length source - last) ∷ [] else []
tokenize_from source delimiter i last (c ∷ cs) =
    let next = tokenize_from source delimiter (i + 1) (i + 1) cs in
    let on = tokenize_from source delimiter (i + 1) last cs in
    if c == delimiter
    then (if not (i == last) then substr source last (i - last) ∷ next else next)
    else on

-- `tokenize`: what it returns, and the fields
unfoldable pub tokenize : List ℕ → ℕ → ℕ × List (List ℕ)
tokenize source delimiter =
    let fields = tokenize_from source delimiter 0 0 source in (length fields, fields)

-- The loop of `split`, and what follows it.
unfoldable pub split_from : List ℕ → ℕ → ℕ → ℕ → List ℕ → List (List ℕ)
split_from source delimiter i last [] = substr source last (length source - last) ∷ []
split_from source delimiter i last (c ∷ cs) =
    let next = split_from source delimiter (i + 1) (i + 1) cs in
    let on = split_from source delimiter (i + 1) last cs in
    if c == delimiter then substr source last (i - last) ∷ next else on

-- `split`
unfoldable pub split : List ℕ → ℕ → List (List ℕ)
split source delimiter = split_from source delimiter 0 0 source

-- `string_view::find` of a character
unfoldable pub find_char : ℕ → List ℕ → Option ℕ
find_char delimiter [] = none
find_char delimiter (c ∷ cs) =
    let rest = find_char delimiter cs in
    if c == delimiter then some 0 else elim rest [ none ↦ none | some i ↦ some (i + 1) ]

-- The number of delimiters that a string starts with: the steps of the loop of `tokenize_first`.
unfoldable pub count_delimiters : ℕ → List ℕ → ℕ
count_delimiters delimiter [] = 0
count_delimiters delimiter (c ∷ cs) =
    let rest = count_delimiters delimiter cs in if c == delimiter then rest + 1 else 0

-- `tokenize_first`: the token and the rest
unfoldable pub tokenize_first : List ℕ → ℕ → Option (List ℕ × List ℕ)
tokenize_first source delimiter = elim (find_char delimiter source) [
  | none ↦ none
  | some left_pos ↦
      let from = left_pos + 1 in
      let right_pos = from + count_delimiters delimiter (drop from source) in
      some (substr source 0 left_pos, drop right_pos source)
]

-- `FromString` and `ToString` of a Boolean; the characters are those of "false" and "true".
abbrev pub false_string : List ℕ
false_string = 102 ∷ 97 ∷ 108 ∷ 115 ∷ 101 ∷ []

abbrev pub true_string : List ℕ
true_string = 116 ∷ 114 ∷ 117 ∷ 101 ∷ []

unfoldable pub eq_string : List ℕ → List ℕ → Bool
eq_string [] [] = true
eq_string [] (d ∷ ds) = false
eq_string (c ∷ cs) [] = false
eq_string (c ∷ cs) (d ∷ ds) = let rest = eq_string cs ds in if c == d then rest else false

unfoldable pub to_string : Bool → List ℕ
to_string b = if b then true_string else false_string

unfoldable pub from_string : List ℕ → Option Bool
from_string s =
    if eq_string s false_string
    then some false
    else if eq_string s true_string
    then some true
    else none
