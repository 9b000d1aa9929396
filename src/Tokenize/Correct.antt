-- ===== src/Tokenize/Correct.antt =====
-- What the tokenizers of rtc_base/string_encode.cc return.
use tqlib.Prelude.{
  subst, ℕ, suc, ◌+◌, ◌≡◌, ◌≢◌, ◌⊎◌, refl, sym, ◌∙◌, ap, inl, inr, Bool, true, false, Option, none,
  some, List, [], ◌∷◌, ◌++◌, arith, append-nil, append_assoc, ◌==◌, if◌then◌else◌, Bool-cases,
  length, drop, All, All-append, replicate,
}
use tqlib.Tokenize.{
  substr, tokenize, split, find_char, count_delimiters, tokenize_first, eq_string, to_string,
  from_string, false_string, true_string,
}
use tqlib.Tokenize.Fields.{fields_of, non_empty, split_from-fields, tokenize_from-fields, start}

-- Fields with a delimiter between them.
abbrev pub join : ℕ → List (List ℕ) → List ℕ
join delimiter [] = []
join delimiter (f ∷ []) = f
join delimiter (f ∷ g ∷ fs) = f ++ delimiter ∷ join delimiter (g ∷ fs)

abbrev pub NoDelimiter : ℕ → List ℕ → Type 0
NoDelimiter delimiter s = All (λ c. (c == delimiter) ≡ false) s

fields_cons :
    (delimiter : ℕ) (field cs : List ℕ)
    → (f : List ℕ) × (fs : List (List ℕ)) × (fields_of delimiter field cs ≡ f ∷ fs)
fields_cons delimiter field [] = (field, [], refl)
fields_cons delimiter field (c ∷ cs) = elim (Bool-cases (c == delimiter)) [
  | inl e ↦ (field, fields_of delimiter [] cs, rw e refl)
  | inr e ↦ rw e (fields_cons delimiter (field ++ c ∷ []) cs)
]

is_delimiter : (c delimiter : ℕ) → (c == delimiter) ≡ true → delimiter ≡ c
is_delimiter c delimiter e = ground (arith, e)

join-fields :
    (delimiter : ℕ) (field cs : List ℕ)
    → join delimiter (fields_of delimiter field cs) ≡ field ++ cs
join-fields delimiter field [] = sym (append-nil field)
join-fields delimiter field (c ∷ cs) = elim (Bool-cases (c == delimiter)) [
  | inl e ↦
      let (f, fs, q) = fields_cons delimiter [] cs in
      rw (e, q)
        (ap (λ r. field ++ delimiter ∷ r) (rw q at (join-fields delimiter [] cs))
          ∙ ap (λ d. field ++ d ∷ cs) (is_delimiter c delimiter e))
  | inr e ↦ rw e (join-fields delimiter (field ++ c ∷ []) cs ∙ append_assoc field (c ∷ []) cs)
]

fields-NoDelimiter :
    (delimiter : ℕ) (field cs : List ℕ)
    → NoDelimiter delimiter field
    → All (NoDelimiter delimiter) (fields_of delimiter field cs)
fields-NoDelimiter delimiter field [] h = (h, tt)
fields-NoDelimiter delimiter field (c ∷ cs) h = elim (Bool-cases (c == delimiter)) [
  | inl e ↦ rw e (h, fields-NoDelimiter delimiter [] cs tt)
  | inr e ↦
      rw e
        (fields-NoDelimiter delimiter (field ++ c ∷ []) cs (All-append _ field (c ∷ []) h (e, tt)))
]

-- The fields of `split`, joined by the delimiter, are the source, and none of them holds a delimiter.
pub join-split :
    (source : List ℕ) (delimiter : ℕ)
    → (join delimiter (split source delimiter) ≡ source)
      × All (NoDelimiter delimiter) (split source delimiter)
unfolding split
join-split source delimiter =
    rw (split_from-fields source delimiter 0 0 source [] [] (start source))
      (join-fields delimiter [] source, fields-NoDelimiter delimiter [] source tt)

-- `tokenize` gives the fields of `split` that are not empty, in their order, and their number.
pub tokenize-split :
    (source : List ℕ) (delimiter : ℕ)
    → let fields = non_empty (split source delimiter) in
      tokenize source delimiter ≡ (length fields, fields)
unfolding tokenize split
tokenize-split source delimiter =
    rw
      (
        split_from-fields source delimiter 0 0 source [] [] (start source),
        tokenize_from-fields source delimiter 0 0 source [] [] (start source),
      )
      refl

found_or_not :
    (delimiter : ℕ) (s : List ℕ)
    → ((find_char delimiter s ≡ none) × NoDelimiter delimiter s)
      ⊎ ((token : List ℕ) × (cs : List ℕ) × (find_char delimiter s ≡ some (length token))
          × (s ≡ token ++ delimiter ∷ cs)
          × NoDelimiter delimiter token)
unfolding find_char
found_or_not delimiter [] = inl (refl, tt)
found_or_not delimiter (c ∷ s) = elim (Bool-cases (c == delimiter)) [
  | inl e ↦ inr ([], s, rw e refl, ap (λ d. d ∷ s) (sym (is_delimiter c delimiter e)), tt)
  | inr e ↦ elim (found_or_not delimiter s) [
    | inl (f, h) ↦ inl (rw (e, f) refl, (e, h))
    | inr (token, cs, f, p, h) ↦
        inr (
          c ∷ token,
          cs,
          rw (e, f) (ap some (next_place (length token))),
          ap (λ r. c ∷ r) p,
          (e, h),
        )
  ]
]
  where
    next_place : (n : ℕ) → n + 1 ≡ suc n
    next_place n = omega arith

-- The first character is not the delimiter.
abbrev pub StartsOther : ℕ → List ℕ → Type 0
StartsOther delimiter [] = Unit
StartsOther delimiter (c ∷ cs) = (c == delimiter) ≡ false

count_correct :
    (delimiter : ℕ) (s : List ℕ)
    → let n = count_delimiters delimiter s in
      (s ≡ replicate n delimiter ++ drop n s) × StartsOther delimiter (drop n s)
unfolding count_delimiters
count_correct delimiter [] = (refl, tt)
count_correct delimiter (c ∷ s) = elim (Bool-cases (c == delimiter)) [
  | inr e ↦ rw e (refl, e)
  | inl e ↦
      let (p, h) = count_correct delimiter s in
      rw (e, next_place (count_delimiters delimiter s))
        (ap (λ d. d ∷ s) (sym (is_delimiter c delimiter e)) ∙ ap (λ r. delimiter ∷ r) p, h)
]
  where
    next_place : (n : ℕ) → n + 1 ≡ suc n
    next_place n = omega arith

pub take_front : (xs ys : List ℕ) → substr (xs ++ ys) 0 (length xs) ≡ xs
unfolding substr
take_front [] ys = refl
take_front (x ∷ xs) ys = ap (λ r. x ∷ r) (take_front xs ys)

pub drop_front :
    (xs : List ℕ) (c : ℕ) (ys : List ℕ) (n : ℕ)
    → drop (length xs + 1 + n) (xs ++ c ∷ ys) ≡ drop n ys
drop_front [] c ys n = ap (λ m. drop m (c ∷ ys)) (next n)
  where
    next : (n : ℕ) → 0 + 1 + n ≡ suc n
    next n = omega arith
drop_front (x ∷ xs) c ys n =
    ap (λ m. drop m (x ∷ (xs ++ c ∷ ys))) (next (length xs) n) ∙ drop_front xs c ys n
  where
    next : (m n : ℕ) → suc m + 1 + n ≡ suc (m + 1 + n)
    next m n = omega arith

pub drop_next : (xs : List ℕ) (c : ℕ) (ys : List ℕ) → drop (length xs + 1) (xs ++ c ∷ ys) ≡ ys
drop_next xs c ys = ap (λ m. drop m (xs ++ c ∷ ys)) (omega arith) ∙ drop_front xs c ys 0

first_result :
    (delimiter : ℕ) (token cs : List ℕ)
    → let s = token ++ delimiter ∷ cs in
      ◌≡◌ {A = Option (List ℕ × List ℕ)}
        (some (
          substr s 0 (length token),
          drop (length token + 1 + count_delimiters delimiter (drop (length token + 1) s)) s,
        ))
        (some (token, drop (count_delimiters delimiter cs) cs))
first_result delimiter token cs =
    rw
      (
        take_front token (delimiter ∷ cs),
        drop_next token delimiter cs,
        drop_front token delimiter cs (count_delimiters delimiter cs),
      )
      refl

-- `tokenize_first` fails where the source has no delimiter, and only there. Else the source is the
-- token, one or more delimiters and the rest; the token holds no delimiter and the rest does not
-- start with one.
pub tokenize_first_correct :
    (source : List ℕ) (delimiter : ℕ)
    → ((tokenize_first source delimiter ≡ none) × NoDelimiter delimiter source)
      ⊎ ((token : List ℕ) × (rest : List ℕ) × (n : ℕ) × (tokenize_first source delimiter
            ≡ some (token, rest))
          × (source ≡ token ++ delimiter ∷ (replicate n delimiter ++ rest))
          × NoDelimiter delimiter token
          × StartsOther delimiter rest)
unfolding tokenize_first
tokenize_first_correct source delimiter = elim (found_or_not delimiter source) [
  | inl (f, h) ↦ inl (rw (f, tokenize_first) refl, h)
  | inr (token, cs, f, p, h) ↦
      let n = count_delimiters delimiter cs in
      let (q, other) = count_correct delimiter cs in
      inr (
        token,
        drop n cs,
        n,
        rw (f, tokenize_first)
            (subst
              (λ t.
                ◌≡◌ {A = Option (List ℕ × List ℕ)}
                  (some (
                    substr t 0 (length token),
                    drop (length token + 1 + count_delimiters delimiter (drop (length token + 1) t))
                        t,
                  ))
                  (some (token, drop n cs)))
              (sym p) (first_result delimiter token cs)),
        p ∙ ap (λ r. token ++ delimiter ∷ r) q,
        h,
        other,
      )
]

eq_string_sound : (s t : List ℕ) → eq_string s t ≡ true → s ≡ t
unfolding eq_string
eq_string_sound [] [] e = refl
eq_string_sound [] (d ∷ t) e = absurd (ground (arith, e))
eq_string_sound (c ∷ s) [] e = absurd (ground (arith, e))
eq_string_sound (c ∷ s) (d ∷ t) e = elim (Bool-cases (c == d)) [
  | inl q ↦
      ap (λ x. x ∷ s) (sym (is_delimiter c d q)) ∙ ap (λ r. d ∷ r) (eq_string_sound s t (rw q at e))
  | inr q ↦ absurd (ground (arith, rw q at e))
]

eq_string_refl : (s : List ℕ) → eq_string s s ≡ true
unfolding eq_string
eq_string_refl [] = refl
eq_string_refl (c ∷ s) =
    let same : (c == c) ≡ true = ground arith in rw (same, eq_string_refl s) refl

differ : (s t : List ℕ) → eq_string s t ≡ false → s ≢ t
differ s t e q = ground (arith, rw q at e, eq_string_refl t)

-- `FromString` accepts what `ToString` gives for a Boolean, with that Boolean, and nothing else.
pub from-to_string :
    (s : List ℕ)
    → ((b : Bool) × (s ≡ to_string b) × (from_string s ≡ some b))
      ⊎ ((from_string s ≡ none) × ((b : Bool) → s ≢ to_string b))
unfolding from_string to_string
from-to_string s = elim (Bool-cases (eq_string s false_string)) [
  | inl e ↦ inl (false, eq_string_sound s false_string e, rw e refl)
  | inr e ↦ elim (Bool-cases (eq_string s true_string)) [
    | inl f ↦ inl (true, eq_string_sound s true_string f, rw (e, f) refl)
    | inr f ↦ inr (
      rw (e, f) refl,
      λ b. elim b as (λ k. s ≢ (if k then true_string else false_string)) [
        | true ↦ differ s true_string f
        | false ↦ differ s false_string e
      ],
    )
  ]
]
