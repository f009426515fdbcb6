-- ===== src/WebJson/Tests.antt =====
-- Runs of web_json.h, and the theorem about it at a concrete input.
use iot_zephyr_app.Base.{ℕ, ◌≡◌, refl, none, some, List, [], ◌∷◌, All, arith, pos}
use iot_zephyr_app.WebJson.{
  quote, question, equals, colon, query_loop, url_query_get, find_loop, string_loop,
  json_find_value, json_get_str, json_get_i32,
}
use iot_zephyr_app.WebJson.Query.{IsPlain, IsField, render, lookup, url_query_get-lookup}

-- a, name and b, and their values.
abbrev name_text : List ℕ
name_text = 110 ∷ 97 ∷ 109 ∷ 101 ∷ []

abbrev fields : List (List ℕ × List ℕ)
fields = (97 ∷ [], 49 ∷ []) ∷ (name_text, 120 ∷ 121 ∷ 122 ∷ []) ∷ (name_text, 50 ∷ []) ∷ []

-- The text of an object with a number and a string: {"a": true,"b":"xyz"}.
abbrev object : List ℕ
object =
    123 ∷ quote ∷ 97 ∷ quote ∷ colon ∷ 32 ∷ 116 ∷ 114 ∷ 117 ∷ 101 ∷ 44 ∷ quote ∷ 98 ∷ quote ∷ colon
    ∷ quote ∷ 120 ∷ 121 ∷ 122 ∷ quote ∷ 125 ∷ []

test_values :
    (json_find_value object 21 (97 ∷ []) ≡ some 6)
    × (json_get_i32 (λ text. none) object 21 (97 ∷ []) ≡ some (pos 1))
    × (json_get_str object 21 (98 ∷ []) 8 ≡ some (120 ∷ 121 ∷ 122 ∷ []))
    × (json_get_str object 21 (98 ∷ []) 3 ≡ some (120 ∷ 121 ∷ []))
    × (json_get_str object 21 (97 ∷ []) 8 ≡ none)
unfolding json_find_value json_get_i32 json_get_str find_loop string_loop
test_values = (refl, refl, refl, refl, refl)

-- A value ends the name: ?a=1&b has no b.
test_no_value : url_query_get (63 ∷ 97 ∷ 61 ∷ 49 ∷ 38 ∷ 98 ∷ []) (98 ∷ []) 8 ≡ none
unfolding url_query_get query_loop
test_no_value = refl

name_text-IsPlain : All (IsPlain equals) name_text
name_text-IsPlain = ground arith

fields-IsField : All IsField fields
fields-IsField = (
  record { no_equals = ground arith; one_name = ground arith; one_value = ground arith },
  (
    record { no_equals = ground arith; one_name = ground arith; one_value = ground arith },
    (record { no_equals = ground arith; one_name = ground arith; one_value = ground arith }, tt),
  ),
)

url_query_get-lookup_example :
    url_query_get (render question fields) name_text 3 ≡ lookup name_text 3 fields
url_query_get-lookup_example =
    url_query_get-lookup name_text 3 fields name_text-IsPlain fields-IsField
