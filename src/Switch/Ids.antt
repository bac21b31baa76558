-- ===== src/Switch/Ids.antt =====
-- The port numbers of tunnel ports (class IDAllocator, create_tunnel_port and delete_tunnel_port in
-- resources/libraries/python/vswitch.py).
use cne_ovs_sit.Base.{
  ℕ, zero, suc, ◌+◌, ◌≤◌, String, List, [], ◌∷◌, ◌++◌, get_elem?, modify_at, All, All-modify_at,
  modify_at-modify_at, count, range, leb, ◌==◌, ◌&&◌, some, Option-cases, Value, PyError,
  attribute_error, or_raise, Result, ok, err, bind_post, if◌then◌else◌, ◌≡◌, refl, ◌⊎◌, inl, inr,
  arith,
}
use cne_ovs_sit.Constants.{ofp_tunnel_base}
use cne_ovs_sit.Ssh.{Env}
use cne_ovs_sit.Switch.State.{
  Rip, TunnelPort, IdAllocator, id_allocator, get_id, Bridge, new_bridge, VirtualSwitch,
  update_bridge,
}
use cne_ovs_sit.Switch.Exec.{execute_}
use cne_ovs_sit.Switch.Frames.{execute_-bridges}
use cne_ovs_sit.Switch.Bridges.{
  find_bridge, get_bridge, allocate_ofp, tunnel_name, tunnel_command, record_tunnel_port,
  add_tunnel_port, create_tunnel_port,
}

abbrev pub ofps : List TunnelPort → List ℕ
ofps [] = []
ofps (p ∷ ps) = p.ofp ∷ ofps ps

-- How often a number is free or in use for a tunnel port of a bridge.
abbrev pub held : ℕ → Bridge → ℕ
held a br = count a br.ofp_ids_tunnel.ids + count a (ofps br.tnl_ports)

-- Once for a number from OFP_TUNNEL_BASE to OFP_TUNNEL_BASE + 100, and never for another.
abbrev pub once_in_range : ℕ → ℕ
once_in_range a = if leb ofp_tunnel_base a && leb a (ofp_tunnel_base + 100) then 1 else 0

-- No tunnel port number is used twice, or free while it is used, or out of the range.
abbrev pub IsAllocated : Bridge → Type 0
IsAllocated br = (a : ℕ) → held a br ≤ once_in_range a

count-range :
    (a first n : ℕ)
    → count a (range first n) ≡ (if leb first a && leb (suc a) (first + n) then 1 else 0)
unfolding range
count-range a first zero = ground arith
count-range a first (suc n) = ground (arith, count-range a (first + 1) n)

-- A new bridge has every number of the range, once.
pub new_bridge-held : (name : String) (a : ℕ) → held a (new_bridge name) ≡ once_in_range a
unfolding new_bridge id_allocator
new_bridge-held name a = ground (arith, count-range a 100 101)

pub ofps-append :
    (a : ℕ) (ps : List TunnelPort) (p : TunnelPort)
    → count a (ofps (ps ++ p ∷ [])) ≡ count a (ofps ps) + (if a == p.ofp then 1 else 0)
ofps-append a [] p = omega arith
ofps-append a (q ∷ ps) p = omega (arith, ofps-append a ps p)

pub find_bridge-get_elem? :
    (name : String) (brs : List Bridge) {b : ℕ} {br : Bridge}
    → find_bridge name brs ≡ some (b, br)
    → get_elem? brs b ≡ some br
unfolding find_bridge
find_bridge-get_elem? name [] h = cc
find_bridge-get_elem? name (x ∷ brs) h = elim (Option-cases (find_bridge name brs)) [
  | inl f ↦ ground arith
  | inr ((b', br'), f) ↦ ground (arith, find_bridge-get_elem? name brs {b = b'} {br = br'} f)
]

-- A write through a bridge's reference keeps its name, and so what `get_bridge` finds.
pub find_bridge-modify_at :
    (name : String) (brs : List Bridge) (f : Bridge → Bridge) {b : ℕ} {br : Bridge}
    → ((x : Bridge) → (f x).name ≡ x.name)
    → find_bridge name brs ≡ some (b, br)
    → find_bridge name (modify_at brs b f) ≡ some (b, f br)
unfolding find_bridge
find_bridge-modify_at name [] f keep h = cc
find_bridge-modify_at name (x ∷ brs) f keep h = elim (Option-cases (find_bridge name brs)) [
  | inl none_below ↦ ground (arith, keep x)
  | inr ((b', br'), below) ↦
      ground (arith, keep x, find_bridge-modify_at name brs f {b = b'} {br = br'} keep below)
]

-- What `add_tunnel_port` does to the bridges: nothing, or one port joins the bridge it names.
abbrev pub Adds : String → ℕ → VirtualSwitch → Result TunnelPort × VirtualSwitch → Type 0
Adds name ofp s (r, s') =
    ((e : PyError) × (r ≡ err e) × (s'.bridges ≡ s.bridges))
    ⊎ ((b : ℕ) × (br : Bridge) × (port : TunnelPort) × (find_bridge name s.bridges ≡ some (b, br))
        × (r ≡ ok port)
        × (port.ofp ≡ ofp)
        × (s'.bridges
            ≡ modify_at s.bridges b (λ x. record x { tnl_ports = x.tnl_ports ++ port ∷ [] })))

abbrev pub take_ids : IdAllocator → Bridge → Bridge
take_ids ids br = record br { ofp_ids_tunnel = ids }

abbrev pub join_port : TunnelPort → Bridge → Bridge
join_port port br = record br { tnl_ports = br.tnl_ports ++ port ∷ [] }

pub get_id-held :
    (br : Bridge) {ofp : ℕ} {ids : IdAllocator}
    → get_id br.ofp_ids_tunnel ≡ some (ofp, ids)
    → (a : ℕ) → held a (take_ids ids br) + (if a == ofp then 1 else 0) ≡ held a br
unfolding get_id
get_id-held br h a = ground arith

module _ (env : Env) (name tnl_type : String) (rip : Rip) (vni : Value) where
  record_tunnel_port-Adds :
      (ofp : ℕ) (s s' : VirtualSwitch)
      → s'.bridges ≡ s.bridges
      → Adds name ofp s (record_tunnel_port env name tnl_type rip vni ofp s')
  unfolding record_tunnel_port get_bridge
  record_tunnel_port-Adds ofp s s' same = elim (Option-cases (find_bridge name s'.bridges)) [
    | inl absent ↦ inl (attribute_error, ground arith, ground arith)
    | inr ((b, br), found) ↦
        let port : TunnelPort = record {
          ident = s'.next_ident;
          name = tunnel_name env tnl_type ofp;
          rip = rip;
          vni = vni;
          ofp = ofp;
        } in
        inr (b, br, port, rw (← same) found, ground arith, refl, ground arith)
  ]

  pub add_tunnel_port-Adds :
      (ofp : ℕ) (s : VirtualSwitch)
      → Adds name ofp s (add_tunnel_port env name tnl_type rip vni ofp s)
  unfolding add_tunnel_port
  add_tunnel_port-Adds ofp s =
      let cmd = tunnel_command env name tnl_type rip vni ofp in
      bind_post (Adds name ofp s) (execute_ env cmd)
        (λ _. record_tunnel_port env name tnl_type rip vni ofp) s
        (λ e h. inl (e, refl, execute_-bridges env cmd s))
        (λ _ h. record_tunnel_port-Adds ofp s _ (execute_-bridges env cmd s))

  -- Behind the allocation of `ofp` on bridge `b`.
  added-IsAllocated :
      (s : VirtualSwitch) {b ofp : ℕ} {br : Bridge} {ids : IdAllocator}
      → All IsAllocated s.bridges
      → find_bridge name s.bridges ≡ some (b, br)
      → get_id br.ofp_ids_tunnel ≡ some (ofp, ids)
      → All IsAllocated
          (add_tunnel_port env name tnl_type rip vni ofp
            (update_bridge b (take_ids ids) s)).1.bridges
  added-IsAllocated s {b} {ofp} {br} {ids} h found taken =
      elim (add_tunnel_port-Adds ofp (update_bridge b (take_ids ids) s)) [
        | inl (e, failed, same) ↦ rw same (
            All-modify_at IsAllocated s.bridges b (take_ids ids) h at
              (λ fits a. omega (arith, get_id-held br taken a, fits a)))
        | inr (b', br', port, found', returned, named, changed) ↦
            rw (changed, same_bridge found')
              (rw (modify_at-modify_at s.bridges b (take_ids ids) (join_port port)) (
                All-modify_at IsAllocated s.bridges b (λ x. join_port port (take_ids ids x)) h at
                  (joins port named)))
      ]
    where
      joins :
          (port : TunnelPort)
          → port.ofp ≡ ofp
          → IsAllocated br
          → IsAllocated (join_port port (take_ids ids br))
      joins port named fits a =
          rw (ofps-append a br.tnl_ports port, named)
            (omega (arith, get_id-held br taken a, fits a))

      at : get_elem? s.bridges b ≡ some br
      at = find_bridge-get_elem? name s.bridges found

      same_bridge :
          {b' : ℕ} {br' : Bridge}
          → find_bridge name (modify_at s.bridges b (take_ids ids)) ≡ some (b', br')
          → b' ≡ b
      same_bridge found' =
          cc (find_bridge-modify_at name s.bridges (take_ids ids) (λ x. refl) found)

  -- Creating a tunnel port keeps every bridge's port numbers allocated, whether the command succeeds
  -- or raises, and also where the bridge is missing or no number is left.
  pub create_tunnel_port-IsAllocated :
      (s : VirtualSwitch)
      → All IsAllocated s.bridges
      → All IsAllocated (create_tunnel_port env name tnl_type rip vni s).1.bridges
  unfolding create_tunnel_port allocate_ofp get_bridge
  create_tunnel_port-IsAllocated s h = elim (Option-cases (find_bridge name s.bridges)) [
    | inl absent ↦ rw (absent, or_raise) h
    | inr ((b, br), found) ↦ elim (Option-cases (get_id br.ofp_ids_tunnel)) [
      | inl exhausted ↦ rw (found, exhausted, or_raise) h
      | inr ((ofp, ids), taken) ↦ rw (found, taken, or_raise) (added-IsAllocated s h found taken)
    ]
  ]
