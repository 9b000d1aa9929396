-- ===== src/Tokenize/Fields.antt =====
-- The loops of the tokenizers, which keep indices, against recursions that keep the field itself
-- (rtc_base/string_encode.cc).
use tqlib.Prelude.{
  ℕ, suc, ◌+◌, ◌-◌, ◌≡◌, refl, sym, ◌∙◌, ap, inl, inr, true, false, not, List, [], ◌∷◌, ◌++◌, arith,
  append_assoc, ◌==◌, if◌then◌else◌, Bool-cases, length, length-append,
}
use tqlib.Tokenize.{substr, tokenize_from, split_from}

-- The fields of a string that follows the beginning of the first one.
abbrev pub fields_of : ℕ → List ℕ → List ℕ → List (List ℕ)
fields_of delimiter field [] = field ∷ []
fields_of delimiter field (c ∷ cs) =
    if c == delimiter
    then field ∷ fields_of delimiter [] cs
    else fields_of delimiter (field ++ c ∷ []) cs

abbrev pub non_empty : List (List ℕ) → List (List ℕ)
non_empty [] = []
non_empty ([] ∷ fs) = non_empty fs
non_empty ((c ∷ f) ∷ fs) = (c ∷ f) ∷ non_empty fs

substr_field :
    (done field rest : List ℕ)
    → substr (done ++ (field ++ rest)) (length done) (length field) ≡ field
unfolding substr
substr_field [] [] rest = refl
substr_field [] (c ∷ field) rest = ap (λ r. c ∷ r) (substr_field [] field rest)
substr_field (c ∷ done) field rest = substr_field done field rest

-- Where the loops are: behind `done`, which ends the fields that are complete, and `field`.
pub record IsAt (source done field rest : List ℕ) (i last : ℕ) : Type 0 where
  pub parts : source ≡ done ++ (field ++ rest)
  pub last_place : last ≡ length done
  pub place : i ≡ length done + length field

IsAt-sub :
    {source done field rest : List ℕ} {i last : ℕ}
    → IsAt source done field rest i last
    → substr source last (i - last) ≡ field
IsAt-sub {source} {done} {field} {rest} {i} {last} a =
    let count : i - last ≡ length field = omega (arith, a.last_place, a.place) in
    rw (count, a.last_place, a.parts) (substr_field done field rest)

IsAt-end :
    {source done field : List ℕ} {i last : ℕ} → IsAt source done field [] i last → i ≡ length source
IsAt-end {source} {done} {field} a =
    rw (a.parts, length-append, length-append) (omega (arith, a.place))

IsAt-step :
    {source done field cs : List ℕ} {i last : ℕ} (c : ℕ)
    → IsAt source done field (c ∷ cs) i last
    → IsAt source done (field ++ c ∷ []) cs (i + 1) last
IsAt-step {source} {done} {field} {cs} c a = record {
  parts = a.parts ∙ ap (λ r. done ++ r) (sym (append_assoc field (c ∷ []) cs));
  last_place = a.last_place;
  place = rw length-append (omega (arith, a.place));
}

IsAt-next :
    {source done field cs : List ℕ} {i last : ℕ} (c : ℕ)
    → IsAt source done field (c ∷ cs) i last
    → IsAt source (done ++ (field ++ c ∷ [])) [] cs (i + 1) (i + 1)
IsAt-next {source} {done} {field} {cs} c a = record {
  parts =
      a.parts
      ∙ ap (λ r. done ++ r) (sym (append_assoc field (c ∷ []) cs))
      ∙ sym (append_assoc done _ cs);
  last_place = rw (length-append, length-append) (omega (arith, a.place));
  place = rw (length-append, length-append) (omega (arith, a.place));
}

pub split_from-fields :
    (source : List ℕ) (delimiter i last : ℕ) (rest done field : List ℕ)
    → IsAt source done field rest i last
    → split_from source delimiter i last rest ≡ fields_of delimiter field rest
unfolding split_from
split_from-fields source delimiter i last [] done field a =
    ap (λ f. f ∷ []) (rw (IsAt-end a) at (IsAt-sub a))
split_from-fields source delimiter i last (c ∷ cs) done field a =
    elim (Bool-cases (c == delimiter)) [
      | inl e ↦
          rw (e, IsAt-sub a)
            (ap (λ r. field ∷ r)
              (split_from-fields source delimiter (i + 1) (i + 1) cs _ [] (IsAt-next c a)))
      | inr e ↦ rw e (
          split_from-fields source delimiter (i + 1) last cs done (field ++ c ∷ []) (IsAt-step c a))
    ]

same_place : (i last : ℕ) → i ≡ last + 0 → (i == last) ≡ true
same_place i last h = ground (arith, h)

far_place : (i last n : ℕ) → i ≡ last + suc n → (i == last) ≡ false
far_place i last n h = ground (arith, h)

-- A field is put in front unless it is empty.
emit :
    (source done field rest : List ℕ) (i last : ℕ) (next fs : List (List ℕ))
    → IsAt source done field rest i last
    → next ≡ non_empty fs
    → (if not (i == last) then substr source last (i - last) ∷ next else next)
      ≡ non_empty (field ∷ fs)
emit source done [] rest i last next fs a h =
    rw (same_place i last (omega (arith, a.place, a.last_place))) h
emit source done (c ∷ f) rest i last next fs a h =
    rw (far_place i last (length f) (omega (arith, a.place, a.last_place)), IsAt-sub a)
      (ap (λ r. (c ∷ f) ∷ r) h)

swap_test : (i last : ℕ) → (last == i) ≡ (i == last)
swap_test i last = ground arith

pub tokenize_from-fields :
    (source : List ℕ) (delimiter i last : ℕ) (rest done field : List ℕ)
    → IsAt source done field rest i last
    → tokenize_from source delimiter i last rest ≡ non_empty (fields_of delimiter field rest)
unfolding tokenize_from
tokenize_from-fields source delimiter i last [] done field a =
    rw (swap_test (length source) last)
      (rw (IsAt-end a) at (emit source done field [] i last [] [] a refl))
tokenize_from-fields source delimiter i last (c ∷ cs) done field a =
    elim (Bool-cases (c == delimiter)) [
      | inl e ↦ rw e (
          emit source done field (c ∷ cs) i last _ _ a
            (tokenize_from-fields source delimiter (i + 1) (i + 1) cs _ [] (IsAt-next c a)))
      | inr e ↦ rw e (
          tokenize_from-fields source delimiter (i + 1) last cs done (field ++ c ∷ [])
            (IsAt-step c a))
    ]

-- Both loops start at the beginning of the first field.
pub start : (source : List ℕ) → IsAt source [] [] source 0 0
start source = record { parts = refl; last_place = refl; place = omega arith }
