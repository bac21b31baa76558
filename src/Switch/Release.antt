-- ===== src/Switch/Release.antt =====
-- delete_tunnel_port (resources/libraries/python/vswitch.py): a port leaves its bridge, and its number
-- goes back to the end of the free ones.
use cne_ovs_sit.Base.{
  ℕ, ◌+◌, String, false, List, [], ◌∷◌, modify_at, All, All-modify_at, modify_at-modify_at, count,
  count-append, ◌==◌, some, PyError, or_raise, Result, ok, err, bind_post, if◌then◌else◌, ◌≡◌, refl,
  ◌⊎◌, inl, inr, arith,
}
use cne_ovs_sit.Ssh.{Env}
use cne_ovs_sit.Switch.State.{TunnelPort, put_id, Bridge, VirtualSwitch}
use cne_ovs_sit.Switch.Frames.{execute_-bridges}
use cne_ovs_sit.Switch.Bridges.{
  find_bridge, get_bridge, remove_port, delete_interface, forget_tunnel_port, delete_tunnel_port,
}
use cne_ovs_sit.Switch.Ids.{ofps, held, IsAllocated, find_bridge-get_elem?}

-- The port is the first object of the list with its identity.
abbrev pub HasPort : TunnelPort → List TunnelPort → Type 0
HasPort port [] = ⊥
HasPort port (p ∷ ps) = (p ≡ port) ⊎ (((p.ident == port.ident) ≡ false) × HasPort port ps)

-- Without the port, its number is in use once less.
pub remove_port_lem :
    (port : TunnelPort) (ps : List TunnelPort)
    → HasPort port ps
    → (rest : List TunnelPort) × (remove_port port.ident ps ≡ some rest)
      × ((a : ℕ) → count a (ofps rest) + (if a == port.ofp then 1 else 0) ≡ count a (ofps ps))
unfolding remove_port
remove_port_lem port [] h = absurd h
remove_port_lem port (p ∷ ps) (inl e) = (ps, rw e (ground arith), λ a. rw e (omega arith))
remove_port_lem port (p ∷ ps) (inr (other, h)) =
    let (rest, removed, counts) = remove_port_lem port ps h in
    (p ∷ rest, ground arith, λ a. omega (arith, counts a))

-- The port's bridge without it, and with its number at the end of the free ones.
abbrev pub release : TunnelPort → List TunnelPort → Bridge → Bridge
release port rest br = record br {
  ofp_ids_tunnel = put_id br.ofp_ids_tunnel port.ofp;
  tnl_ports = rest;
}

-- What deleting `port` from bridge `b` does to the bridges: nothing if the command fails, and else
-- the port leaves and its number is free again.
abbrev pub Deletes :
    TunnelPort → ℕ → List TunnelPort → VirtualSwitch → Result (Unit {0}) × VirtualSwitch → Type 0
Deletes port b rest s (r, s') =
    ((e : PyError) × (r ≡ err e) × (s'.bridges ≡ s.bridges))
    ⊎ ((r ≡ ok tt) × (s'.bridges ≡ modify_at s.bridges b (release port rest)))

-- The same, as the command to delete the interface ends.
abbrev pub DeletesAs :
    TunnelPort
    → ℕ
    → List TunnelPort
    → VirtualSwitch
    → Result (Unit {0})
    → Result (Unit {0}) × VirtualSwitch
    → Type 0
DeletesAs port b rest s (err e) (r, s') = (r ≡ err e) × (s'.bridges ≡ s.bridges)
DeletesAs port b rest s (ok _) (r, s') =
    (r ≡ ok tt) × (s'.bridges ≡ modify_at s.bridges b (release port rest))

DeletesAs-Deletes :
    (port : TunnelPort) (b : ℕ) (rest : List TunnelPort) (s : VirtualSwitch)
    (command : Result (Unit {0})) (q : Result (Unit {0}) × VirtualSwitch)
    → DeletesAs port b rest s command q
    → Deletes port b rest s q
DeletesAs-Deletes port b rest s (err e) q (failed, same) = inl (e, failed, same)
DeletesAs-Deletes port b rest s (ok _) q (done, changed) = inr (done, changed)

abbrev put_number : TunnelPort → Bridge → Bridge
put_number port br = record br { ofp_ids_tunnel = put_id br.ofp_ids_tunnel port.ofp }

abbrev set_ports : List TunnelPort → Bridge → Bridge
set_ports rest br = record br { tnl_ports = rest }

-- What is free or in use of each number stays the same.
release-held :
    (port : TunnelPort) (rest : List TunnelPort) (br : Bridge)
    → ((a : ℕ)
        → count a (ofps rest) + (if a == port.ofp then 1 else 0) ≡ count a (ofps br.tnl_ports))
    → (a : ℕ) → held a (release port rest br) ≡ held a br
unfolding put_id
release-held port rest br counts a =
    omega (arith, counts a, count-append a br.ofp_ids_tunnel.ids (port.ofp ∷ []))

delete_interface-bridges :
    (env : Env) (name if_name : String) (s : VirtualSwitch)
    → (delete_interface env name if_name s).1.bridges ≡ s.bridges
unfolding delete_interface
delete_interface-bridges env name if_name s = execute_-bridges env _ s

module _ (env : Env) (name : String) (port : TunnelPort) (s : VirtualSwitch) {b : ℕ} {br : Bridge}
    {rest : List TunnelPort} (found : find_bridge name s.bridges ≡ some (b, br))
    (removed : remove_port port.ident br.tnl_ports ≡ some rest) where
  forget_tunnel_port-DeletesAs :
      (done : Unit {0}) (s' : VirtualSwitch)
      → s'.bridges ≡ s.bridges
      → DeletesAs port b rest s (ok done) (forget_tunnel_port env (some (b, br)) port s')
  unfolding forget_tunnel_port
  forget_tunnel_port-DeletesAs done s' same =
      rw (removed, or_raise)
        (refl, rw (same, modify_at-modify_at s.bridges b (put_number port) (set_ports rest)))

  -- Deleting a tunnel port that is found on its bridge goes as the command that deletes the interface:
  -- where the command raises, the same exception is raised and all bridges are as they were, and
  -- where it returns, the call returns, and exactly that port has left the list of its bridge and its
  -- number is behind the free ones.
  pub delete_tunnel_port-DeletesAs :
      DeletesAs port b rest s
        (delete_interface env name port.name s).0
        (delete_tunnel_port env name port s)
  unfolding delete_tunnel_port get_bridge
  delete_tunnel_port-DeletesAs = rw found (
      bind_post (DeletesAs port b rest s (delete_interface env name port.name s).0)
        (delete_interface env name port.name) (λ _. forget_tunnel_port env (some (b, br)) port) s
        (λ e h. rw h (refl, unmoved))
        (λ done h. rw h (forget_tunnel_port-DeletesAs done _ unmoved)))
    where
      unmoved : (delete_interface env name port.name s).1.bridges ≡ s.bridges
      unmoved = delete_interface-bridges env name port.name s

  pub delete_tunnel_port-Deletes : Deletes port b rest s (delete_tunnel_port env name port s)
  delete_tunnel_port-Deletes =
      DeletesAs-Deletes port b rest s (delete_interface env name port.name s).0 _
        delete_tunnel_port-DeletesAs

-- Deleting a tunnel port that is on its bridge keeps every bridge's port numbers allocated, also
-- where the command raises.
pub delete_tunnel_port-IsAllocated :
    (env : Env) (name : String) (port : TunnelPort) (s : VirtualSwitch) {b : ℕ} {br : Bridge}
    → find_bridge name s.bridges ≡ some (b, br)
    → HasPort port br.tnl_ports
    → All IsAllocated s.bridges
    → All IsAllocated (delete_tunnel_port env name port s).1.bridges
delete_tunnel_port-IsAllocated env name port s {b} {br} found has h =
    let (rest, removed, counts) = remove_port_lem port br.tnl_ports has in
    elim (delete_tunnel_port-Deletes env name port s found removed) [
      | inl (e, failed, same) ↦ rw same h
      | inr (done, changed) ↦ rw changed (
          All-modify_at IsAllocated s.bridges b (release port rest) h
            (find_bridge-get_elem? name s.bridges found)
            (λ fits a. omega (arith, release-held port rest br counts a, fits a)))
    ]
