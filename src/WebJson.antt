-- ===== src/WebJson.antt =====
-- applications/io-edge-hub/src/web/web_json.h: the values of JSON keys and of URL parameters.
-- A C string is the list of its characters, without the final zero.
pub mod Query
mod Tests
use iot_zephyr_app.Base.{
  ℕ, zero, suc, ◌+◌, ◌-◌, Bool, true, false, not, ◌&&◌, ◌||◌, Option, none, some, List, [], ◌∷◌,
  if◌then◌else◌, ltb, leb, ◌==◌, length, take, drop, get_or, ℤ, pos,
}

-- The characters " & ? = : in ASCII.
abbrev pub quote : ℕ
quote = 34

abbrev pub ampersand : ℕ
ampersand = 38

abbrev pub question : ℕ
question = 63

abbrev pub equals : ℕ
equals = 61

abbrev pub colon : ℕ
colon = 58

abbrev is_blank : ℕ → Bool
is_blank c = c == 32 || c == 9

-- strncmp(text, key, strlen(key)) == 0.
abbrev pub begins : List ℕ → List ℕ → Bool
begins [] text = true
begins (k ∷ key) [] = false
begins (k ∷ key) (c ∷ text) = k == c && begins key text

-- The text from the first such character on.
abbrev pub strchr : ℕ → List ℕ → Option (List ℕ)
strchr c [] = none
strchr c (x ∷ text) = if x == c then some (x ∷ text) else strchr c text

-- The text up to the first such character.
abbrev pub until : ℕ → List ℕ → List ℕ
until c [] = []
until c (x ∷ text) = if x == c then [] else x ∷ until c text

-- What a buffer of that size takes of a value, with its final zero.
abbrev pub stored : ℕ → List ℕ → List ℕ
stored outsz value = take (outsz - 1) value

abbrev pub skip_separator : List ℕ → List ℕ
skip_separator [] = []
skip_separator (c ∷ text) = if c == question || c == ampersand then text else c ∷ text

-- The rounds of url_query_get, of which so many are left.
pub query_loop : ℕ → List ℕ → ℕ → List ℕ → Option (List ℕ)
query_loop left key outsz [] = none
query_loop zero key outsz (c ∷ text) = none
query_loop (suc left) key outsz (c ∷ text) =
    let p = skip_separator (c ∷ text) in
    if begins key p && get_or p (length key) 0 == equals
    then some (stored outsz (until ampersand (drop (length key + 1) p)))
    else elim (strchr ampersand p) [ none ↦ none | some next ↦ query_loop left key outsz next ]

-- Each round begins further on in the text.
pub url_query_get : List ℕ → List ℕ → ℕ → Option (List ℕ)
url_query_get query key outsz = query_loop (length query) key outsz query

-- In a buffer of `len` characters, of which `left` follow: the first one that is not blank.
pub skip_blanks : ℕ → List ℕ → ℕ → ℕ
skip_blanks zero buf j = j
skip_blanks (suc left) buf j =
    let further = skip_blanks left buf (j + 1) in if is_blank (get_or buf j 0) then further else j

abbrev is_key : List ℕ → List ℕ → ℕ → Bool
is_key buf key i =
    get_or buf i 0 == quote
    && (begins key (drop (i + 1) buf) && get_or buf (i + length key + 1) 0 == quote)

pub find_loop : ℕ → List ℕ → ℕ → List ℕ → ℕ → Option ℕ
unfolding skip_blanks
find_loop zero buf len key i = none
find_loop (suc left) buf len key i =
    let after = i + length key + 2 in
    let j = skip_blanks (len - after) buf after in
    let further = find_loop left buf len key (i + 1) in
    if ltb len after
    then none
    else if is_key buf key i && (ltb j len && get_or buf j 0 == colon)
    then some (skip_blanks (len - (j + 1)) buf (j + 1))
    else further

-- The place in the buffer of the key's value.
pub json_find_value : List ℕ → ℕ → List ℕ → Option ℕ
json_find_value buf len key = find_loop len buf len key 0

-- The number of characters up to a quote, a zero or the end.
pub string_loop : ℕ → List ℕ → ℕ → ℕ
string_loop zero buf v = 0
string_loop (suc left) buf v =
    let c = get_or buf v 0 in
    let n = string_loop left buf (v + 1) in if c == quote || c == 0 then 0 else n + 1

-- The string that `out` holds after a success.
pub json_get_str : List ℕ → ℕ → List ℕ → ℕ → Option (List ℕ)
json_get_str buf len key outsz = elim (json_find_value buf len key) [
  | none ↦ none
  | some v ↦
      let n = string_loop (len - (v + 1)) buf (v + 1) in
      if not (ltb v len) || not (get_or buf v 0 == quote)
      then none
      else if not (ltb (v + 1 + n) len) || not (get_or buf (v + 1 + n) 0 == quote)
      then none
      else some (stored outsz (take n (drop (v + 1) buf)))
]

-- `strtol` gives the number that a text begins with, as an int32_t, or none; `buf` goes on behind its `len`
-- characters, as the memory does.
pub json_get_i32 : (List ℕ → Option ℤ) → List ℕ → ℕ → List ℕ → Option ℤ
json_get_i32 strtol buf len key = elim (json_find_value buf len key) [
  | none ↦ none
  | some v ↦
      if not (ltb v len)
      then none
      else if begins (116 ∷ 114 ∷ 117 ∷ 101 ∷ []) (drop v buf)
      then some (pos 1)
      else if begins (102 ∷ 97 ∷ 108 ∷ 115 ∷ 101 ∷ []) (drop v buf)
      then some (pos 0)
      else strtol (drop v buf)
]
