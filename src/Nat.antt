-- ===== src/Nat.antt =====
-- NAT (resources/libraries/python/nat.py): NATSpec, the text of a NAT action.
pub mod Parser
pub mod Termination
pub mod Roundtrip
pub mod Networks
pub mod Configure
pub mod Conns
pub mod Flows
pub mod Related
pub mod Verify
pub mod Counting
pub mod Heaps
pub mod Apart
pub mod Restoring
use cne_ovs_sit.Base.{
  ℕ, ◌+◌, ◌-◌, String, Bool, true, false, not, List, [], ◌∷◌, Option, none, some, fstr, show, ◌==◌,
  ltb, if◌then◌else◌,
}
use cne_ovs_sit.Ssh.{Env}

-- Addresses are numbers, as ipaddress computes with them.
pub record NatSpec : Type 0 where
  pub ipv4_ia_start : ℕ
  pub ipv6_ia_start : ℕ
  pub ia_num : ℕ
  pub port_start : ℕ
  pub port_num : ℕ
  pub flags : Option String
  pub vipv4 : Option String
  pub vipv6 : Option String

-- `if text:`, for a text that may be missing
abbrev pub is_set : Option String → Bool
is_set none = false
is_set (some String.[]) = false
is_set (some (String.◌∷◌ c s)) = true

unfoldable pub is_snat : NatSpec → Bool
is_snat spec = not (is_set spec.vipv4)

unfoldable pub is_dnat : NatSpec → Bool
unfolding is_snat
is_dnat spec = not (is_snat spec)

-- `first` and, for more than one, `-last` of `num` numbers.
abbrev pub numbers : (ℕ → String) → ℕ → ℕ → List String → List String
numbers show_number first num rest =
    show_number first ∷ (if ltb 1 num then "-" ∷ show_number (first + num - 1) ∷ rest else rest)

abbrev pub when : Bool → String → String
when true text = text
when false text = ""

abbrev flags_text : Option String → String
flags_text none = ""
flags_text (some String.[]) = ""
flags_text (some (String.◌∷◌ c s)) = fstr ("," ∷ String.◌∷◌ c s ∷ [])

abbrev ports_text : ℕ → ℕ → String
ports_text port_start port_num =
    when (not (port_num == 0)) (fstr (":" ∷ numbers show port_start port_num []))

-- An IPv6 address in front of a port is put in brackets.
unfoldable pub generate_nat_action : Env → NatSpec → Bool → String
unfolding is_snat
generate_nat_action env spec ipv4 =
    let bracket = not (spec.port_num == 0) in
    fstr (
      (if is_snat spec then "src=" else "dst=")
      ∷ (if ipv4
          then fstr (numbers env.show_ipv4 spec.ipv4_ia_start spec.ia_num [])
          else fstr (
              when bracket "["
              ∷ numbers env.show_ipv6 spec.ipv6_ia_start spec.ia_num (when bracket "]" ∷ [])))
      ∷ ports_text spec.port_start spec.port_num
      ∷ flags_text spec.flags
      ∷ [])
