-- ===== src/Switch/Creation.antt =====
-- create_tunnel_port (resources/libraries/python/vswitch.py) on a node whose commands succeed.
use cne_ovs_sit.Base.{
  ℕ, ◌+◌, ◌≤◌, String, Bool, true, false, [], ◌∷◌, ◌++◌, modify_at, count, some, Value, or_raise,
  and_then, Result, ok, err, ◌≡◌, refl, ap, ◌∙◌, inl, inr, arith,
}
use cne_ovs_sit.Constants.{ofp_tunnel_base}
use cne_ovs_sit.Ssh.{Env}
use cne_ovs_sit.Switch.State.{
  Rip, TunnelPort, IdAllocator, get_id, Bridge, VirtualSwitch, update_bridge,
}
use cne_ovs_sit.Switch.Frames.{execute_-bridges}
use cne_ovs_sit.Switch.Reliable.{AllSucceed, execute_-ok}
use cne_ovs_sit.Switch.Bridges.{
  find_bridge, get_bridge, allocate_ofp, tunnel_command, record_tunnel_port, add_tunnel_port,
  create_tunnel_port,
}
use cne_ovs_sit.Switch.Ids.{
  ofps, IsAllocated, find_bridge-modify_at, add_tunnel_port-Adds, take_ids, join_port, get_id-held,
}

-- The call returns a port with the number; the bridge has it behind its others.
abbrev pub Creates :
    String → ℕ → Bridge → ℕ → IdAllocator → Result TunnelPort × VirtualSwitch → Type 0
Creates name b br ofp ids (r, s') =
    (port : TunnelPort) × (r ≡ ok port)
    × (port.ofp ≡ ofp)
    × (find_bridge name s'.bridges
        ≡ some (b, record br { ofp_ids_tunnel = ids; tnl_ports = br.tnl_ports ++ port ∷ [] }))

abbrev is_ok : Result TunnelPort → Bool
is_ok (ok port) = true
is_ok (err e) = false

-- The first free number of a bridge with allocated numbers is in the range and not in use.
pub get_id-fresh :
    (br : Bridge) (ofp : ℕ) (ids : IdAllocator)
    → IsAllocated br
    → get_id br.ofp_ids_tunnel ≡ some (ofp, ids)
    → (ofp_tunnel_base ≤ ofp)
      × (ofp ≤ ofp_tunnel_base + 100)
      × (count ofp (ofps br.tnl_ports) ≡ 0)
      × (count ofp ids.ids ≡ 0)
get_id-fresh br ofp ids fits taken =
    let total = get_id-held br taken ofp in
    let bound = fits ofp in
    (
      ground (arith, total, bound),
      ground (arith, total, bound),
      ground (arith, total, bound),
      ground (arith, total, bound),
    )

module _ (env : Env) (reliable : AllSucceed env) (name tnl_type : String) (rip : Rip) (vni : Value)
    (s : VirtualSwitch) (b : ℕ) (br : Bridge) (ofp : ℕ) (ids : IdAllocator)
    (found : find_bridge name s.bridges ≡ some (b, br))
    (taken : get_id br.ofp_ids_tunnel ≡ some (ofp, ids)) where
  abbrev created : Result TunnelPort × VirtualSwitch
  created = add_tunnel_port env name tnl_type rip vni ofp (update_bridge b (take_ids ids) s)

  found_again : find_bridge name (modify_at s.bridges b (take_ids ids)) ≡ some (b, take_ids ids br)
  found_again = find_bridge-modify_at name s.bridges (take_ids ids) (λ x. refl) found

  created-is_ok : is_ok created.0 ≡ true
  unfolding add_tunnel_port record_tunnel_port get_bridge
  created-is_ok =
      let cmd = tunnel_command env name tnl_type rip vni ofp in
      let s' = update_bridge b (take_ids ids) s in
      rw
        (
          execute_-ok env reliable cmd s',
          and_then,
          execute_-bridges env cmd s',
          found_again,
          or_raise,
        )
        refl

  same_bridge :
      {b' : ℕ} {br' : Bridge}
      → find_bridge name (modify_at s.bridges b (take_ids ids)) ≡ some (b', br')
      → b' ≡ b
  same_bridge found' = cc found_again

  created-Creates : Creates name b br ofp ids created
  created-Creates =
      elim (add_tunnel_port-Adds env name tnl_type rip vni ofp (update_bridge b (take_ids ids) s)) [
        | inl (e, failed, same) ↦ cc created-is_ok
        | inr (b', br', port, found', returned, named, changed) ↦ (
          port,
          returned,
          named,
          ap (find_bridge name) changed
              ∙ rw (same_bridge found') (
                  find_bridge-modify_at name (modify_at s.bridges b (take_ids ids)) (join_port port)
                    (λ x. refl) found_again),
        )
      ]

  -- Where every command succeeds, the bridge exists with allocated numbers and a number is free,
  -- create_tunnel_port returns a port with the first free number, which is from OFP_TUNNEL_BASE to
  -- OFP_TUNNEL_BASE + 100 and which no port of the bridge had; afterwards the bridge has the port
  -- behind its others, and the number is not free any more.
  pub create_tunnel_port-Creates :
      IsAllocated br
      → Creates name b br ofp ids (create_tunnel_port env name tnl_type rip vni s)
        × (ofp_tunnel_base ≤ ofp)
        × (ofp ≤ ofp_tunnel_base + 100)
        × (count ofp (ofps br.tnl_ports) ≡ 0)
        × (count ofp ids.ids ≡ 0)
  unfolding create_tunnel_port allocate_ofp get_bridge
  create_tunnel_port-Creates fits =
      let (above, below, unused, gone) = get_id-fresh br ofp ids fits taken in
      (rw (found, taken, or_raise) created-Creates, above, below, unused, gone)
