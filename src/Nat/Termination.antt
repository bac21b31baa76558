-- ===== src/Nat/Termination.antt =====
-- The loops of _parse_kv (resources/libraries/python/nat.py) end on every text.
use cne_ovs_sit.Base.{
  ℕ, zero, suc, ◌≤◌, ◌<◌, String, Bool, true, false, none, some, Bool-cases, Option-cases, inl, inr,
  ok, err, ◌==◌, if◌then◌else◌, ◌≡◌, arith,
}
use Prim.Native.Char.{code}
use cne_ovs_sit.Nat.Parser.{
  Kvs, empty, put_text, put_nest, split_key, take_value, Parse, next_round, after_nest, after_text,
  value_of, parse, text_length, parse_kv, opening, closing, comma,
}

-- The run ends, and what it leaves of the text is no longer than `n`.
abbrev pub Settles : ℕ → Parse → Type 0
Settles n none = ⊥
Settles n (some (err e)) = Unit
Settles n (some (ok (kvs, left))) = text_length left ≤ n

Settles-mono : (m n : ℕ) (r : Parse) → m ≤ n → Settles m r → Settles n r
Settles-mono m n none h k = k
Settles-mono m n (some (err e)) h k = tt
Settles-mono m n (some (ok (kvs, left))) h k = omega (arith, h, k)

split_key-text_length :
    (s : String) {key after : String}
    → split_key s ≡ some (key, after)
    → text_length after < text_length s
unfolding split_key text_length
split_key-text_length String.[] h = cc
split_key-text_length (String.◌∷◌ c s) h = elim (Option-cases (split_key s)) [
  | inl absent ↦ ground arith
  | inr ((key, after), found) ↦
      ground (arith, split_key-text_length s {key = key} {after = after} found)
]

-- A choice between three, of which each keeps a property.
choose {ℓ κ} :
    {A : Type ℓ} (P : A → Type κ) (a b : Bool) (x y z : A)
    → P x
    → P y
    → P z
    → P (if a then x else if b then y else z)
choose P true b x y z h k l = h
choose P false true x y z h k l = k
choose P false false x y z h k l = l

take_value-text_length : (s : String) → text_length (take_value s).1 ≤ text_length s
unfolding take_value text_length
take_value-text_length String.[] = omega arith
take_value-text_length (String.◌∷◌ c String.[]) =
    choose {A = String × String × Bool} (λ r. text_length r.1 ≤ 1) (code c == closing)
      (code c == comma) ("", "", true) ("", "", false) ("", "", false) (omega arith) (omega arith)
      (omega arith)
take_value-text_length (String.◌∷◌ c (String.◌∷◌ d s)) =
    choose {A = String × String × Bool} (λ r. text_length r.1 ≤ suc (suc (text_length s)))
      (code c == closing) (code c == comma) ("", String.◌∷◌ d s, true) ("", String.◌∷◌ d s, false) _
      (omega arith) (omega arith) (omega (arith, take_value-text_length (String.◌∷◌ d s)))

module _ (again : String → Kvs → Parse) (fuel : ℕ)
    (settles : (s : String) (kvs : Kvs)
      → text_length s < fuel
      → Settles (text_length s) (again s kvs)) where
  next_round-Settles :
      (kvs : Kvs) (left : String) (n : ℕ)
      → text_length left ≤ n
      → n < fuel
      → Settles n (next_round again kvs left)
  unfolding next_round text_length
  next_round-Settles kvs String.[] n h k = omega arith
  next_round-Settles kvs (String.◌∷◌ c s) n h k = elim (Bool-cases (code c == comma)) [
    | inl e ↦ rw e (
        Settles-mono (text_length s) n (again s kvs) (omega (arith, h))
          (settles s kvs (omega (arith, h, k))))
    | inr e ↦ rw e (
        Settles-mono (suc (text_length s)) n (again (String.◌∷◌ c s) kvs) h
          (settles (String.◌∷◌ c s) kvs (omega (arith, h, k))))
  ]

  after_nest-Settles :
      (key : String) (kvs : Kvs) (inner : Parse) (n : ℕ)
      → Settles n inner
      → n < fuel
      → Settles n (after_nest again key kvs inner)
  unfolding after_nest
  after_nest-Settles key kvs none n h k = h
  after_nest-Settles key kvs (some (err e)) n h k = tt
  after_nest-Settles key kvs (some (ok (inner, left))) n h k =
      next_round-Settles (put_nest key inner kvs) left n h k

  after_text-Settles :
      (key : String) (kvs : Kvs) (taken : String × String × Bool) (n : ℕ)
      → text_length taken.1 ≤ n
      → n < fuel
      → Settles n (after_text again key kvs taken)
  unfolding after_text
  after_text-Settles key kvs (value, left, true) n h k = h
  after_text-Settles key kvs (value, left, false) n h k =
      next_round-Settles (put_text key value kvs) left n h k

  value_of-Settles :
      (key after : String) (kvs : Kvs)
      → text_length after < fuel
      → Settles (text_length after) (value_of again key after kvs)
  unfolding value_of text_length
  value_of-Settles key String.[] kvs h = tt
  value_of-Settles key (String.◌∷◌ c s) kvs h = elim (Bool-cases (code c == opening)) [
    | inl e ↦ rw e (
        Settles-mono (text_length s) (suc (text_length s)) _ (omega arith) (
          after_nest-Settles key kvs (again s empty) (text_length s)
            (settles s empty (omega (arith, h))) (omega (arith, h))))
    | inr e ↦ rw e (
        after_text-Settles key kvs (take_value (String.◌∷◌ c s)) (suc (text_length s))
          (take_value-text_length (String.◌∷◌ c s)) h)
  ]

parse-Settles :
    (fuel : ℕ) (s : String) (kvs : Kvs)
    → text_length s < fuel
    → Settles (text_length s) (parse fuel s kvs)
unfolding parse
parse-Settles zero s kvs h = absurd (omega (arith, h))
parse-Settles (suc fuel) s kvs h = elim (Option-cases (split_key s)) [
  | inl absent ↦ rw (absent, parse) (omega arith)
  | inr ((key, after), found) ↦
      let shorter = split_key-text_length s {key = key} {after = after} found in
      rw (found, parse)
        (Settles-mono (text_length after) (text_length s) _ (omega (arith, shorter)) (
          value_of-Settles (parse fuel) fuel (parse-Settles fuel) key after kvs
            (omega (arith, shorter, h))))
]

-- On every text, well-formed or not, _parse_kv ends: with a dict and a cursor that is not behind the
-- end of the text, or with an exception.
pub parse_kv-Settles : (s : String) → Settles (text_length s) (parse_kv s)
unfolding parse_kv
parse_kv-Settles s = parse-Settles (suc (text_length s)) s empty (omega arith)
