-- ===== src/WebJson/Query.antt =====
-- The parameters of a URL.
use iot_zephyr_app.Base.{
  ℕ, zero, suc, ◌+◌, ◌≤◌, ◌≡◌, ◌⊎◌, refl, sym, ap, ◌∙◌, Bool, true, false, ◌&&◌, Bool-cases,
  Option-cases, inl, inr, Option, none, some, List, [], ◌∷◌, ◌++◌, append_assoc, if◌then◌else◌,
  ◌==◌, ==_no, length, length-append, drop, drop-append_self, get_or, All, arith,
}
use iot_zephyr_app.WebJson.{
  ampersand, question, equals, begins, strchr, until, stored, skip_separator, query_loop,
  url_query_get,
}

-- A name without an equals sign and an ampersand, and a value without an ampersand.
abbrev pub IsPlain : ℕ → ℕ → Type 0
IsPlain c x = ¬ (x ≡ c)

pub record IsField (field : List ℕ × List ℕ) : Type 0 where
  pub no_equals : All (IsPlain equals) field.0
  pub one_name : All (IsPlain ampersand) field.0
  pub one_value : All (IsPlain ampersand) field.1

-- The text of the fields; the first is behind the given character, the others behind ampersands.
abbrev pub render : ℕ → List (List ℕ × List ℕ) → List ℕ
render lead [] = []
render lead ((name, value) ∷ fields) =
    lead ∷ (name ++ (equals ∷ (value ++ render ampersand fields)))

abbrev pub same_text : List ℕ → List ℕ → Bool
same_text [] [] = true
same_text [] (x ∷ ys) = false
same_text (x ∷ xs) [] = false
same_text (x ∷ xs) (y ∷ ys) = x == y && same_text xs ys

-- What a buffer of that size takes of the value of the first field with that name.
abbrev pub lookup : List ℕ → ℕ → List (List ℕ × List ℕ) → Option (List ℕ)
lookup key outsz [] = none
lookup key outsz ((name, value) ∷ fields) =
    if same_text key name then some (stored outsz value) else lookup key outsz fields

strchr-skip : (c : ℕ) (xs ys : List ℕ) → All (IsPlain c) xs → strchr c (xs ++ ys) ≡ strchr c ys
strchr-skip c [] ys h = refl
strchr-skip c (x ∷ xs) ys h = rw (==_no x c h.0) (strchr-skip c xs ys h.1)

until-render :
    (value : List ℕ) (fields : List (List ℕ × List ℕ))
    → All (IsPlain ampersand) value
    → until ampersand (value ++ render ampersand fields) ≡ value
until-render [] [] h = refl
until-render [] (f ∷ fields) h = refl
until-render (x ∷ value) fields h =
    rw (==_no x ampersand h.0) (ap (◌∷◌ x) (until-render value fields h.1))

-- A name is found at a field just if it is the field's.
name_matches :
    (key name rest : List ℕ)
    → All (IsPlain equals) key
    → All (IsPlain equals) name
    → let p = name ++ (equals ∷ rest) in
      (begins key p && get_or p (length key) 0 == equals) ≡ same_text key name
name_matches [] [] rest h k = refl
name_matches [] (x ∷ name) rest h k = ==_no x equals k.0
name_matches (a ∷ key) [] rest h k = rw (==_no a equals h.0) refl
name_matches (a ∷ key) (x ∷ name) rest h k =
    let ih = name_matches key name rest h.1 k.1 in
    elim (Bool-cases (a == x)) [ inl same ↦ rw (same) ih | inr other ↦ rw (other) refl ]

same_length : (key name : List ℕ) → same_text key name ≡ true → length key ≡ length name
same_length [] [] h = refl
same_length [] (x ∷ ys) h = ground arith
same_length (x ∷ xs) [] h = ground arith
same_length (x ∷ xs) (y ∷ ys) h = ground (arith, same_length xs ys)

strchr-field :
    (name value : List ℕ) (fields : List (List ℕ × List ℕ))
    → IsField (name, value)
    → strchr ampersand (name ++ (equals ∷ (value ++ render ampersand fields)))
      ≡ strchr ampersand (render ampersand fields)
strchr-field name value fields v =
    strchr-skip ampersand name _ v.one_name
    ∙ strchr-skip ampersand value (render ampersand fields) v.one_value

drop_name :
    (key name rest : List ℕ)
    → same_text key name ≡ true
    → drop (length key + 1) (name ++ (equals ∷ rest)) ≡ rest
drop_name key name rest h = rw (sym (append_assoc name (equals ∷ []) rest)) (
    drop-append_self (name ++ (equals ∷ [])) rest (length key + 1)
      (omega (arith, same_length key name h, length-append name (equals ∷ []))))

skips :
    (lead : ℕ) (p : List ℕ) → (lead ≡ question) ⊎ (lead ≡ ampersand) → skip_separator (lead ∷ p) ≡ p
skips lead p sep = ground arith

-- A round with a field.
query_round :
    (left : ℕ) (key : List ℕ) (outsz lead : ℕ) (name value : List ℕ)
    (fields : List (List ℕ × List ℕ))
    → (lead ≡ question) ⊎ (lead ≡ ampersand)
    → All (IsPlain equals) key
    → IsField (name, value)
    → query_loop (suc left) key outsz (render lead ((name, value) ∷ fields)) ≡ (
        if same_text key name
        then some (stored outsz value)
        else elim (strchr ampersand (render ampersand fields)) [
          | none ↦ none
          | some next ↦ query_loop left key outsz next
        ])
unfolding query_loop
query_round left key outsz lead name value fields sep k v = elim (Bool-cases (same_text key name)) [
  | inl same ↦
      rw
        (
          skips lead _ sep,
          name_matches key name (value ++ render ampersand fields) k v.no_equals,
          same,
          drop_name key name (value ++ render ampersand fields) same,
          until-render value fields v.one_value,
        )
        refl
  | inr other ↦
      rw
        (
          skips lead _ sep,
          name_matches key name (value ++ render ampersand fields) k v.no_equals,
          other,
          strchr-field name value fields v,
        )
        refl
]

query_loop_lem :
    (left : ℕ) (key : List ℕ) (outsz lead : ℕ) (fields : List (List ℕ × List ℕ))
    → (lead ≡ question) ⊎ (lead ≡ ampersand)
    → All (IsPlain equals) key
    → All IsField fields
    → length fields ≤ left
    → query_loop left key outsz (render lead fields) ≡ lookup key outsz fields
unfolding query_loop
query_loop_lem left key outsz lead [] sep k v h = refl
query_loop_lem zero key outsz lead (f ∷ fields) sep k v h = absurd (omega arith)
query_loop_lem (suc left) key outsz lead ((name, value) ∷ []) sep k v h =
    query_round left key outsz lead name value [] sep k v.0
query_loop_lem (suc left) key outsz lead ((name, value) ∷ f ∷ fields) sep k v h =
    let ih = query_loop_lem left key outsz ampersand (f ∷ fields) (inr refl) k v.1 (omega arith) in
    query_round left key outsz lead name value (f ∷ fields) sep k v.0
    ∙ ap (λ (r : Option (List ℕ)). if same_text key name then some (stored outsz value) else r) ih

fields_fit :
    (lead : ℕ) (fields : List (List ℕ × List ℕ)) → length fields ≤ length (render lead fields)
fields_fit lead [] = omega arith
fields_fit lead ((name, value) ∷ fields) = omega (
  arith,
  fields_fit ampersand fields,
  length-append name (equals ∷ (value ++ render ampersand fields)),
  length-append value (render ampersand fields),
)

-- In the text of fields whose names have neither an equals sign nor an ampersand and whose values have no
-- ampersand, behind a question mark, a name without an equals sign gives the value of the first field
-- of that name, as far as the buffer takes it, and nothing if there is none.
pub url_query_get-lookup :
    (key : List ℕ) (outsz : ℕ) (fields : List (List ℕ × List ℕ))
    → All (IsPlain equals) key
    → All IsField fields
    → url_query_get (render question fields) key outsz ≡ lookup key outsz fields
unfolding url_query_get
url_query_get-lookup key outsz fields k v =
    query_loop_lem _ key outsz question fields (inl refl) k v (fields_fit question fields)

strchr-le : (c : ℕ) (text next : List ℕ) → strchr c text ≡ some next → length next ≤ length text
strchr-le c [] next h = ground arith
strchr-le c (x ∷ text) next h = ground (arith, strchr-le c text next)

goes_on :
    (c : ℕ) (text next : List ℕ)
    → strchr ampersand (skip_separator (c ∷ text)) ≡ some next
    → length next ≤ length text
goes_on c text next h = ground (arith, strchr-le ampersand text next)

-- More rounds than the text has characters change nothing.
pub query_loop-enough :
    (n m : ℕ) (key : List ℕ) (outsz : ℕ) (text : List ℕ)
    → length text ≤ n
    → length text ≤ m
    → query_loop n key outsz text ≡ query_loop m key outsz text
unfolding query_loop
query_loop-enough n m key outsz [] h k = refl
query_loop-enough zero m key outsz (c ∷ text) h k = absurd (omega arith)
query_loop-enough (suc n) zero key outsz (c ∷ text) h k = absurd (omega arith)
query_loop-enough (suc n) (suc m) key outsz (c ∷ text) h k =
    elim (Option-cases (strchr ampersand (skip_separator (c ∷ text)))) [
      | inl none_left ↦ rw none_left refl
      | inr (next, found) ↦
          let shorter = goes_on c text next found in
          let ih = query_loop-enough n m key outsz next (omega arith) (omega arith) in
          rw (found, ih) refl
    ]
