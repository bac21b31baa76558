-- ===== src/Nat/Conns.antt =====
-- _parse_conns and _check_nat_result (resources/libraries/python/nat.py): the connections of a dump.
use Prim.Native.Char.{code}
use text.Mathlib.Text.{◌==◌ as text_eq}
use cne_ovs_sit.Base.{
  ℕ, ◌+◌, String, Bool, true, false, List, [], ◌∷◌, Option, none, some, fstr, show, readlines, ◌==◌,
  Result, ok, err, chain, runtime_error, attribute_error, lift, or_raise, ◌>>=◌, if◌then◌else◌,
}
use cne_ovs_sit.Ssh.{Env}
use cne_ovs_sit.Switch.State.{Method}
use cne_ovs_sit.Switch.Exec.{execute}
use cne_ovs_sit.Nat.Parser.{Kvs, empty, with_text, with_nest, put_text, Parse, parse_kv, comma}

-- The text in front of the first comma, and the one behind it.
unfoldable pub split_comma : String → Option (String × String)
split_comma String.[] = none
split_comma (String.◌∷◌ c s) =
    let rest = split_comma s in
    if code c == comma
    then some ("", s)
    else elim rest [ none ↦ none | some (head, after) ↦ some (String.◌∷◌ c head, after) ]

-- `line[0:-1]`
unfoldable pub but_last : String → String
but_last String.[] = ""
but_last (String.◌∷◌ c String.[]) = ""
but_last (String.◌∷◌ c (String.◌∷◌ d s)) = String.◌∷◌ c (but_last (String.◌∷◌ d s))

-- A line without a comma: `find` gives -1, so the heading is the line without its last character, and
-- the key-value part is the whole line.
unfoldable pub heading : String → String × String
unfolding split_comma but_last
heading line = elim (split_comma line) [ some p ↦ p | none ↦ (but_last line, line) ]

-- The parser's fuel is enough, so the last case does not occur.
abbrev pub parsed : Parse → Result Kvs
parsed (some (ok p)) = ok p.0
parsed (some (err e)) = err e
parsed none = err (runtime_error "")

unfoldable pub parse_conn : String → Result Kvs
unfolding heading
parse_conn line =
    chain (parsed (parse_kv (heading line).1)) (λ conn. ok (put_text "proto" (heading line).0 conn))

unfoldable pub parse_lines : List String → Result (List Kvs)
unfolding parse_conn
parse_lines [] = ok []
parse_lines (line ∷ lines) =
    chain (parse_conn line) (λ conn. chain (parse_lines lines) (λ conns. ok (conn ∷ conns)))

unfoldable pub parse_conns : String → Result (List Kvs)
unfolding parse_lines
parse_conns dump = parse_lines (readlines dump)

-- `conn[key]`, where that is a text.
unfoldable pub text_at : String → Kvs → Option String
text_at key empty = none
text_at key (with_text k v kvs) = if text_eq k key then some v else text_at key kvs
text_at key (with_nest k v kvs) = if text_eq k key then none else text_at key kvs

-- `not proto or conn['proto'] == proto`
abbrev pub same_proto : Option String → Option String → Bool
same_proto none found = true
same_proto (some String.[]) found = true
same_proto (some (String.◌∷◌ c s)) none = false
same_proto (some (String.◌∷◌ c s)) (some found) = text_eq found (String.◌∷◌ c s)

unfoldable pub live_conns : Option String → List Kvs → ℕ
unfolding text_at
live_conns proto [] = 0
live_conns proto (conn ∷ conns) =
    (if same_proto proto (text_at "proto" conn) then 1 else 0) + live_conns proto conns

abbrev pub judge_conns : ℕ → Option String → List Kvs → Result (Unit {0})
judge_conns exp_conn_num proto conns =
    let live_conn = live_conns proto conns in
    if live_conn == exp_conn_num
    then ok tt
    else err (runtime_error (fstr ("NAT conn num is " ∷ show live_conn ∷ [])))

unfoldable pub check_nat_result : Env → ℕ → Option String → Method (Unit {0})
unfolding parse_conns live_conns
check_nat_result env exp_conn_num proto =
    execute env "ovs-appctl dpctl/dump-conntrack -m" 30 >>= λ answer.
    or_raise answer attribute_error >>= λ reply.
    lift (parse_conns reply.stdout) >>= λ conns. lift (judge_conns exp_conn_num proto conns)
