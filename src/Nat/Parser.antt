-- ===== src/Nat/Parser.antt =====
-- _parse_kv (resources/libraries/python/nat.py): the key-value texts of a conntrack dump.
--
-- The cursor is the text that is left, `s[cursor:]`. The number that the function returns with the dict
-- is the distance of the cursor from the start, and the caller moves its own cursor by it.
use cne_ovs_sit.Base.{
  ℕ, zero, suc, String, Bool, true, false, Option, none, some, Result, ok, err, index_error, ◌==◌,
  if◌then◌else◌, ◌≡◌, refl,
}
use Prim.Native.Char.{Char, code}
use text.Mathlib.Text.{◌==◌ as text_eq}

-- The codes of the delimiters.
abbrev pub equals_sign : ℕ
equals_sign = 61

abbrev pub opening : ℕ
opening = 40

abbrev pub closing : ℕ
closing = 41

abbrev pub comma : ℕ
comma = 44

-- A dict in insertion order, whose values are texts and dicts.
pub data Kvs : Type 0 where
  empty : Kvs
  with_text : String → String → Kvs → Kvs
  with_nest : String → Kvs → Kvs → Kvs

-- `kvs[key] = value`, at the place that the key has already.
unfoldable pub put_text : String → String → Kvs → Kvs
put_text key value empty = with_text key value empty
put_text key value (with_text k v kvs) =
    if text_eq k key then with_text key value kvs else with_text k v (put_text key value kvs)
put_text key value (with_nest k v kvs) =
    if text_eq k key then with_text key value kvs else with_nest k v (put_text key value kvs)

unfoldable pub put_nest : String → Kvs → Kvs → Kvs
put_nest key value empty = with_nest key value empty
put_nest key value (with_text k v kvs) =
    if text_eq k key then with_nest key value kvs else with_text k v (put_nest key value kvs)
put_nest key value (with_nest k v kvs) =
    if text_eq k key then with_nest key value kvs else with_nest k v (put_nest key value kvs)

-- The text in front of the first '=' and the one behind it.
unfoldable pub split_key : String → Option (String × String)
split_key String.[] = none
split_key (String.◌∷◌ c s) =
    if code c == equals_sign
    then some ("", s)
    else elim (split_key s) [ none ↦ none | some (key, after) ↦ some (String.◌∷◌ c key, after) ]

-- What the loop over the characters takes, without its last one, which is a delimiter or the end of
-- the text; what is left; and whether the last one was ')'.
unfoldable pub take_value : String → String × String × Bool
take_value String.[] = ("", "", false)
take_value (String.◌∷◌ c s) =
    let (value, left, closed) = take_value s in
    if code c == closing
    then ("", s, true)
    else if code c == comma
    then ("", s, false)
    else take_more c s value left closed
  where
    take_more : Char → String → String → String → Bool → String × String × Bool
    take_more c String.[] value left closed = ("", "", false)
    take_more c (String.◌∷◌ d s) value left closed = (String.◌∷◌ c value, left, closed)

-- Out of fuel is `none`.
abbrev pub Parse : Type 0
Parse = Option (Result (Kvs × String))

module _ (again : String → Kvs → Parse) where
  -- The end of a round: at the end of the text, or behind a ',', or where the cursor is.
  unfoldable pub next_round : Kvs → String → Parse
  next_round kvs String.[] = some (ok (kvs, ""))
  next_round kvs (String.◌∷◌ c s) =
      if code c == comma then again s kvs else again (String.◌∷◌ c s) kvs

  unfoldable pub after_nest : String → Kvs → Parse → Parse
  unfolding next_round put_nest
  after_nest key kvs none = none
  after_nest key kvs (some (err e)) = some (err e)
  after_nest key kvs (some (ok (inner, left))) = next_round (put_nest key inner kvs) left

  unfoldable pub after_text : String → Kvs → String × String × Bool → Parse
  unfolding next_round put_text
  after_text key kvs (value, left, true) = some (ok (put_text key value kvs, left))
  after_text key kvs (value, left, false) = next_round (put_text key value kvs) left

  -- `s[cursor]` behind the end is an IndexError.
  unfoldable pub value_of : String → String → Kvs → Parse
  unfolding after_nest after_text take_value
  value_of key String.[] kvs = some (err index_error)
  value_of key (String.◌∷◌ c s) kvs =
      if code c == opening
      then after_nest key kvs (again s empty)
      else after_text key kvs (take_value (String.◌∷◌ c s))

unfoldable pub parse : ℕ → String → Kvs → Parse
unfolding value_of split_key
parse zero s kvs = none
parse (suc fuel) s kvs = elim (split_key s) [
  | none ↦ some (ok (kvs, s))
  | some (key, after) ↦ value_of (parse fuel) key after kvs
]

unfoldable pub text_length : String → ℕ
text_length String.[] = 0
text_length (String.◌∷◌ c s) = suc (text_length s)

-- Each round and each nest takes at least the '=', so the length and one more are enough fuel.
unfoldable pub parse_kv : String → Parse
unfolding parse text_length
parse_kv s = parse (suc (text_length s)) s empty

parse_kv_nest :
    parse_kv "a=(b=c,d=e),f=1\n"
    ≡ some (
        ok (
          with_nest "a" (with_text "b" "c" (with_text "d" "e" empty)) (with_text "f" "1" empty),
          "",
        ))
unfolding parse_kv parse value_of next_round
parse_kv_nest = refl
