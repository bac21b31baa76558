-- ===== src/Tests/OverlayTests.antt =====
-- The overlay on the sample nodes.
use cne_ovs_sit.Base.{ℕ, ◌+◌, [], ◌∷◌, get_elem?, All, some, str, show, ◌≡◌, ◌≢◌, refl, arith}
use cne_ovs_sit.Switch.Bridges.{find_bridge}
use cne_ovs_sit.Overlay.{delete_tunnel_ports}
use cne_ovs_sit.Switch.Reliable.{AllSucceed}
use cne_ovs_sit.Overlay.Removal.{AllApart, Leaves, delete_tunnel_ports-odds}
use cne_ovs_sit.Overlay.Assign.{
  number_vifs, set_vif_vni_by_idx_on_vm, set_vif_vni_by_idx_on_host, reset_vif_vni_on_all_suts,
}
use cne_ovs_sit.Overlay.Assign.Effect.{
  HasGroups, vni_at, Absent, number_vifs-vni_at, set_vif_vni-HasGroups,
}
use cne_ovs_sit.Tests.Samples.{env, good_reply, port, br0, switch, faces, suts}

env-AllSucceed : AllSucceed env
env-AllSucceed calls call = (good_reply, refl, refl)

found : find_bridge "br0" switch.bridges ≡ some (0, br0)
unfolding find_bridge
found = refl

apart : AllApart br0.tnl_ports
apart = ((refl, tt), (tt, tt))

delete_tunnel_ports-odds_example :
    Leaves "br0" 0 (port 1 101 ∷ []) (delete_tunnel_ports env "br0" switch)
delete_tunnel_ports-odds_example =
    delete_tunnel_ports-odds env "br0" switch 0 br0 env-AllSucceed found apart

number_vifs-vni_at_example :
    ((number_vifs (1 ∷ 0 ∷ []) 300 faces).0 ≡ 300 + 2)
    × ((i vif : ℕ)
        → get_elem? (1 ∷ 0 ∷ []) i ≡ some vif
        → vni_at (number_vifs (1 ∷ 0 ∷ []) 300 faces).1 vif ≡ some (str (show (300 + i))))
    × ((j : ℕ)
        → Absent j (1 ∷ 0 ∷ [])
        → get_elem? (number_vifs (1 ∷ 0 ∷ []) 300 faces).1 j ≡ get_elem? faces j)
number_vifs-vni_at_example =
    number_vifs-vni_at (1 ∷ 0 ∷ []) 300 faces ((one_not_zero, tt), (tt, tt))
      (omega arith, (omega arith, tt))
  where
    one_not_zero : ◌≢◌ {A = ℕ} 1 0
    one_not_zero e = omega (arith, e)

set_vif_vni-HasGroups_example :
    All HasGroups (set_vif_vni_by_idx_on_vm suts)
    × All HasGroups (set_vif_vni_by_idx_on_host suts)
    × All HasGroups (reset_vif_vni_on_all_suts suts)
set_vif_vni-HasGroups_example = set_vif_vni-HasGroups suts
