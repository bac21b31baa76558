-- ===== src/Nat/Roundtrip.antt =====
-- _parse_kv (resources/libraries/python/nat.py) on the texts that list keys and values.
use cne_ovs_sit.Base.{
  ℕ, zero, suc, ◌+◌, ◌<◌, String, false, List, [], ◌∷◌, length, All, some, ok, append, ◌==◌, ◌≡◌,
  refl, ap, ◌∙◌, arith,
}
use Prim.Native.Char.{code}
use cne_ovs_sit.Nat.Parser.{
  Kvs, empty, put_text, split_key, take_value, Parse, next_round, after_text, value_of, parse,
  text_length, parse_kv, equals_sign, opening, closing, comma,
}

-- No character of the text has the code.
abbrev pub Without : ℕ → String → Type 0
Without n String.[] = Unit
Without n (String.◌∷◌ c s) = ((code c == n) ≡ false) × Without n s

-- The text does not begin with a character of the code.
abbrev pub NotFirst : ℕ → String → Type 0
NotFirst n String.[] = Unit
NotFirst n (String.◌∷◌ c s) = (code c == n) ≡ false

-- Keys and values, separated by commas; the line ends behind the last.
unfoldable pub print : String → String → List (String × String) → String
unfolding append
print key value [] = append key (append "=" (append value "\n"))
print key value ((k, v) ∷ items) =
    append key (append "=" (append value (append "," (print k v items))))

unfoldable pub put_all : Kvs → String → String → List (String × String) → Kvs
unfolding put_text
put_all kvs key value [] = put_text key value kvs
put_all kvs key value ((k, v) ∷ items) = put_all (put_text key value kvs) k v items

abbrev pub IsItem : String × String → Type 0
IsItem (key, value) =
    Without equals_sign key
    × Without comma value
    × Without closing value
    × NotFirst opening value
    × NotFirst comma key

split_key-append :
    (key rest : String)
    → Without equals_sign key
    → split_key (append key (append "=" rest)) ≡ some (key, rest)
unfolding split_key append
split_key-append String.[] rest h = refl
split_key-append (String.◌∷◌ c key) rest h = rw (h.0, split_key, split_key-append key rest h.1) refl

take_value-comma :
    (value rest : String)
    → Without comma value
    → Without closing value
    → take_value (append value (append "," rest)) ≡ (value, rest, false)
unfolding take_value append
take_value-comma String.[] rest h k = refl
take_value-comma (String.◌∷◌ c String.[]) rest h k = rw (h.0, k.0) refl
take_value-comma (String.◌∷◌ c (String.◌∷◌ d value)) rest h k =
    rw (h.0, k.0, take_value-comma (String.◌∷◌ d value) rest h.1 k.1) refl

take_value-line_end :
    (value : String)
    → Without comma value
    → Without closing value
    → take_value (append value "\n") ≡ (value, "", false)
unfolding take_value append
take_value-line_end String.[] h k = refl
take_value-line_end (String.◌∷◌ c String.[]) h k = rw (h.0, k.0) refl
take_value-line_end (String.◌∷◌ c (String.◌∷◌ d value)) h k =
    rw (h.0, k.0, take_value-line_end (String.◌∷◌ d value) h.1 k.1) refl

module _ (again : String → Kvs → Parse) (key : String) (kvs : Kvs) where
  value_of-comma :
      (value rest : String)
      → Without comma value
      → Without closing value
      → NotFirst opening value
      → value_of again key (append value (append "," rest)) kvs
        ≡ next_round again (put_text key value kvs) rest
  unfolding value_of after_text append
  value_of-comma String.[] rest h k l = ap (after_text again key kvs) (take_value-comma "" rest h k)
  value_of-comma (String.◌∷◌ c value) rest h k l =
      rw l (ap (after_text again key kvs) (take_value-comma (String.◌∷◌ c value) rest h k))

  value_of-line_end :
      (value : String)
      → Without comma value
      → Without closing value
      → NotFirst opening value
      → value_of again key (append value "\n") kvs ≡ some (ok (put_text key value kvs, ""))
  unfolding value_of after_text append next_round
  value_of-line_end String.[] h k l = ap (after_text again key kvs) (take_value-line_end "" h k)
  value_of-line_end (String.◌∷◌ c value) h k l =
      rw l (ap (after_text again key kvs) (take_value-line_end (String.◌∷◌ c value) h k))

  -- A key that does not begin with a comma stands where it is.
  next_round-key :
      (k rest : String)
      → NotFirst comma k
      → next_round again kvs (append k (append "=" rest)) ≡ again (append k (append "=" rest)) kvs
  unfolding next_round append
  next_round-key String.[] rest h = refl
  next_round-key (String.◌∷◌ c k) rest h = rw h refl

text_length-append : (s t : String) → text_length (append s t) ≡ text_length s + text_length t
unfolding text_length append
text_length-append String.[] t = omega arith
text_length-append (String.◌∷◌ c s) t = omega (arith, text_length-append s t)

length-print :
    (key value : String) (items : List (String × String))
    → length items < text_length (print key value items)
unfolding print text_length append
length-print key value [] = omega (arith, text_length-append key (append "=" (append value "\n")))
length-print key value ((k, v) ∷ items) =
    let rest = append value (append "," (print k v items)) in
    omega (
      arith,
      text_length-append key (append "=" rest),
      text_length-append value (append "," (print k v items)),
      length-print k v items,
    )

next_round-print :
    (again : String → Kvs → Parse) (kvs : Kvs) (k v : String) (items : List (String × String))
    → NotFirst comma k
    → next_round again kvs (print k v items) ≡ again (print k v items) kvs
unfolding print
next_round-print again kvs k v [] h = next_round-key again k kvs k _ h
next_round-print again kvs k v ((k', v') ∷ items) h = next_round-key again k kvs k _ h

parse-print :
    (fuel : ℕ) (kvs : Kvs) (key value : String) (items : List (String × String))
    → IsItem (key, value)
    → All IsItem items
    → length items < fuel
    → parse fuel (print key value items) kvs ≡ some (ok (put_all kvs key value items, ""))
unfolding parse print put_all
parse-print zero kvs key value items item all enough = absurd (omega (arith, enough))
parse-print (suc fuel) kvs key value [] item all enough =
    let (named, no_comma, no_closing, no_nest, no_skip) = item in
    rw (split_key-append key (append value "\n") named, parse)
      (value_of-line_end (parse fuel) key kvs value no_comma no_closing no_nest)
parse-print (suc fuel) kvs key value ((k, v) ∷ items) item all enough =
    let (named, no_comma, no_closing, no_nest, no_skip) = item in
    let rest = print k v items in
    rw (split_key-append key (append value (append "," rest)) named, parse)
      (value_of-comma (parse fuel) key kvs value rest no_comma no_closing no_nest
        ∙ next_round-print (parse fuel) (put_text key value kvs) k v items all.0.4
        ∙ parse-print fuel (put_text key value kvs) k v items all.0 all.1 (omega (arith, enough)))

-- Reading a line of keys and values gives the dict with each of them put in order, up to the end of
-- the line. No key has a '=' or begins with a ',', no value has a ',' or a ')' or begins with a '('.
pub parse_kv-print :
    (key value : String) (items : List (String × String))
    → IsItem (key, value)
    → All IsItem items
    → parse_kv (print key value items) ≡ some (ok (put_all empty key value items, ""))
unfolding parse_kv
parse_kv-print key value items item all =
    parse-print (suc (text_length (print key value items))) empty key value items item all
      (omega (arith, length-print key value items))
