-- ===== src/Nat/Counting.antt =====
-- What _check_nat_result counts (resources/libraries/python/nat.py).
use text.Mathlib.Text.{◌==◌ as text_eq}
use cne_ovs_sit.Base.{ℕ, ◌+◌, String, List, [], ◌∷◌, Option, some, ◌==◌, if◌then◌else◌}
use cne_ovs_sit.Nat.Conns.{heading, same_proto}

-- The lines of a dump with a heading that counts.
abbrev pub lines_of : Option String → List String → ℕ
lines_of proto [] = 0
lines_of proto (line ∷ lines) =
    (if same_proto proto (some (heading line).0) then 1 else 0) + lines_of proto lines
