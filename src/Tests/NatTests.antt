-- ===== src/Tests/NatTests.antt =====
-- The parser of conntrack dumps.
use cne_ovs_sit.Base.{
  arith, inl, inr, for_each, fstr, String, List, [], ◌∷◌, some, Result, ok, err, ◌≡◌, refl,
}
use cne_ovs_sit.World.{World, on_switch, read_sut, get_vms}
use cne_ovs_sit.Guest.Exec.{execute_batch}
use cne_ovs_sit.Ssh.{exec_cmd}
use cne_ovs_sit.Overlay.Assign.Effect.{heaps}
use cne_ovs_sit.Pal.Topology.{VerifyTopologyEntry, get_full_deps}
use cne_ovs_sit.Nat.Configure.{nat_configure_vms, nat_restore_vms}
use cne_ovs_sit.Nat.Apart.{AllApart}
use cne_ovs_sit.Nat.Restoring.{edit_all, forgotten, entries, nat_restore_vms-forgotten}
use cne_ovs_sit.Tests.Samples.{env, suts}
use cne_ovs_sit.Nat.Conns.{parse_conns}
use cne_ovs_sit.Nat.Parser.{Kvs, empty, parse_kv, text_length}
use cne_ovs_sit.Nat.Roundtrip.{print, put_all, parse_kv-print}
use cne_ovs_sit.Nat.Termination.{Settles, parse_kv-Settles}

parse_kv-Settles_example : Settles (text_length "a=(b=(c=d)),e=") (parse_kv "a=(b=(c=d)),e=")
parse_kv-Settles_example = parse_kv-Settles "a=(b=(c=d)),e="

parse_kv-print_example :
    parse_kv (print "src" "1" (("zone", "5") ∷ []))
    ≡ some (ok (put_all empty "src" "1" (("zone", "5") ∷ []), ""))
parse_kv-print_example =
    parse_kv-print "src" "1" (("zone", "5") ∷ [])
      ((refl, (refl, (refl, tt))), (refl, tt), (refl, tt), refl, refl)
      (((refl, (refl, (refl, (refl, tt)))), (refl, tt), (refl, tt), refl, refl), tt)

abbrev dump : String
dump = "tcp,id=1\nudp,id=2\ntcp,id=3\n"

abbrev conns_or : Result (List Kvs) → List Kvs
conns_or (ok conns) = conns
conns_or (err e) = []

unfoldable conns : List Kvs
conns = conns_or (parse_conns dump)

-- A source on the first node and two destinations, one on each node.
abbrev crossing : VerifyTopologyEntry
crossing = record {
  sep = record { host = 0; guest = 0; vif = 0 };
  dep_numa = record { host = 0; guest = 0; vif = 1 } ∷ [];
  dep_xnuma = [];
  dep_xhost = record { host = 1; guest = 0; vif = 0 } ∷ [];
}

crossing-AllApart : AllApart (crossing.sep ∷ get_full_deps crossing)
unfolding get_full_deps
crossing-AllApart = (
  (inr (λ p. omega arith), (inl (λ p. omega arith), tt)),
  ((inl (λ p. omega arith), tt), (tt, tt)),
)

abbrev with_addresses : World
with_addresses = (nat_configure_vms env (entries crossing [] []) [] [] suts).1

crossing-configured :
    (nat_configure_vms env (entries crossing [] []) [] [] suts).0 ≡ ok (entries crossing [] [])
unfolding nat_configure_vms on_switch read_sut get_vms execute_batch for_each exec_cmd fstr
    get_full_deps
crossing-configured = refl

nat_restore_vms-forgotten_example :
    ((nat_restore_vms env (entries crossing [] []) with_addresses).0 ≡ ok tt)
    × (heaps (nat_restore_vms env (entries crossing [] []) with_addresses).1
        ≡ edit_all forgotten (crossing.sep ∷ get_full_deps crossing) (heaps suts))
nat_restore_vms-forgotten_example =
    nat_restore_vms-forgotten env crossing [] [] [] [] suts (entries crossing [] [])
      crossing-AllApart crossing-configured
