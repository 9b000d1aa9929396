-- ===== src/Tokenize/Examples.antt =====
-- Tests of the tokenizers, with commas (44) between letters.
use tqlib.Prelude.{ℕ, ◌≡◌, refl, some, List, [], ◌∷◌, All}
use tqlib.Tokenize.Correct.{join, NoDelimiter, join-split}
use tqlib.Tokenize.{
  substr, tokenize, tokenize_from, split, split_from, find_char, count_delimiters, tokenize_first,
}

-- ",ab,,c"
abbrev letters : List ℕ
letters = 44 ∷ 97 ∷ 98 ∷ 44 ∷ 44 ∷ 99 ∷ []

split_letters : split letters 44 ≡ [] ∷ (97 ∷ 98 ∷ []) ∷ [] ∷ (99 ∷ []) ∷ []
unfolding split split_from substr
split_letters = refl

letters_tokens : tokenize letters 44 ≡ (2, (97 ∷ 98 ∷ []) ∷ (99 ∷ []) ∷ [])
unfolding tokenize tokenize_from substr
letters_tokens = refl

first_of_letters : tokenize_first (97 ∷ letters) 44 ≡ some (97 ∷ [], 97 ∷ 98 ∷ 44 ∷ 44 ∷ 99 ∷ [])
unfolding tokenize_first find_char count_delimiters substr
first_of_letters = refl

join-split_example :
    (join 44 (split letters 44) ≡ letters) × All (NoDelimiter 44) (split letters 44)
join-split_example = join-split letters 44
