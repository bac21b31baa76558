-- ===== src/Topology/Numbering.antt =====
-- What the addresses that SUT.__init__ (resources/libraries/python/topology.py) gives out tell of an
-- interface.
use cne_ovs_sit.Base.{
  ℕ, ◌+◌, ◌*◌, ◌/◌, ◌<◌, true, ◌&&◌, ok, err, value_error, ok-injective, if-cases, ◌≡◌, sym, ap,
  ◌∙◌, inl, inr, ◌==◌, ltb, arith,
}
use cne_ovs_sit.Vif.{InterfaceAddress, has_same_subnet}
use cne_ovs_sit.Topology.Addresses.{ipv4_of, if_addr_of}
use cne_ovs_sit.Topology.Machines.{MachineSpec, new_vif}

-- What an accepted address is.
record IsAddress (node_idx guest_idx i : ℕ) (a : InterfaceAddress) : Type 0 where
  octets : (i < 88) × (node_idx < 256) × (guest_idx < 256)
  is_ipv4 : a.ipv4 ≡ ((172 * 256 + (168 + i)) * 256 + node_idx) * 256 + guest_idx
  network_address : a.ipv4_network.address ≡ (172 * 256 + (168 + i)) * 65536
  network_prefixlen : a.ipv4_network.prefixlen ≡ 16

octets_of :
    (i n g : ℕ)
    → (ltb (168 + i) 256 && (ltb n 256 && ltb g 256)) ≡ true
    → (i < 88) × (n < 256) × (g < 256)
octets_of i n g h = ground arith

cleared :
    (i n g : ℕ)
    → (ltb (168 + i) 256 && (ltb n 256 && ltb g 256)) ≡ true
    → (((172 * 256 + (168 + i)) * 256 + n) * 256 + g) / 65536 * 65536
      ≡ (172 * 256 + (168 + i)) * 65536
cleared i n g h = let (_, n_small, g_small) = octets_of i n g h in omega arith

networks_eq :
    (i i' x y p q : ℕ)
    → x ≡ (172 * 256 + (168 + i)) * 65536
    → y ≡ (172 * 256 + (168 + i')) * 65536
    → p ≡ 16
    → q ≡ 16
    → (x == y && p == q) ≡ (i == i')
networks_eq i i' x y p q hx hy hp hq = ground arith

if_addr_of-IsAddress :
    (node_idx guest_idx i : ℕ) (a : InterfaceAddress)
    → if_addr_of node_idx guest_idx i ≡ ok a
    → IsAddress node_idx guest_idx i a
unfolding if_addr_of ipv4_of
if_addr_of-IsAddress node_idx guest_idx i a h =
    elim (if-cases (ltb (168 + i) 256 && (ltb node_idx 256 && ltb guest_idx 256)) (ok _)
      (err value_error) h) [
        | inl (valid, same) ↦ record {
          octets = octets_of i node_idx guest_idx valid;
          is_ipv4 = ap (λ a. a.ipv4) (sym (ok-injective same));
          network_address =
              ap (λ a. a.ipv4_network.address) (sym (ok-injective same))
              ∙ cleared i node_idx guest_idx valid;
          network_prefixlen = ap (λ a. a.ipv4_network.prefixlen) (sym (ok-injective same));
        }
        | inr (invalid, failed) ↦ cc
      ]

-- The IPv4 address of an interface tells the node, the machine and the interface apart.
pub if_addr_of-injective :
    (n g i n' g' i' : ℕ) (a b : InterfaceAddress)
    → if_addr_of n g i ≡ ok a
    → if_addr_of n' g' i' ≡ ok b
    → a.ipv4 ≡ b.ipv4
    → (n ≡ n') × (g ≡ g') × (i ≡ i')
if_addr_of-injective n g i n' g' i' a b h k same =
    let ha = if_addr_of-IsAddress n g i a h in
    let hb = if_addr_of-IsAddress n' g' i' b k in
    let (_, n_small, g_small) = ha.octets in
    let (_, n'_small, g'_small) = hb.octets in
    let eq = sym ha.is_ipv4 ∙ same ∙ hb.is_ipv4 in
    (omega (arith, eq), omega (arith, eq), omega (arith, eq))

-- Two interfaces are in one subnet exactly if they have the same position on their machines, on
-- whichever nodes and machines they are.
pub new_vif-has_same_subnet :
    (spec spec' : MachineSpec) (if_idx if_idx' g g' i i' : ℕ) (a b : InterfaceAddress)
    → if_addr_of spec.node_idx g i ≡ ok a
    → if_addr_of spec'.node_idx g' i' ≡ ok b
    → has_same_subnet (new_vif spec if_idx g i a) (new_vif spec' if_idx' g' i' b) ≡ ok (i == i')
unfolding has_same_subnet new_vif
new_vif-has_same_subnet spec spec' if_idx if_idx' g g' i i' a b h k =
    let ha = if_addr_of-IsAddress spec.node_idx g i a h in
    let hb = if_addr_of-IsAddress spec'.node_idx g' i' b k in
    ap ok (
      networks_eq i i' _ _ _ _ ha.network_address hb.network_address ha.network_prefixlen
        hb.network_prefixlen)
