-- ===== src/Nat/Restoring.antt =====
-- nat_restore_vms undoes _nat_configure_vms (resources/libraries/python/nat.py).
use cne_ovs_sit.Base.{
  ℕ, ◌+◌, ◌<◌, length, length-modify_at, List, [], ◌∷◌, All, modify_at, modify_at-modify_at, none,
  for_each, ok, bind-ok, bind_run, ok-injective, ◌≡◌, refl, sym, ap, ◌∙◌, Action, pure, ◌>>=◌,
}
use mathlib.Core.Path.{subst, fun_ext}
use cne_ovs_sit.Ssh.{Env}
use cne_ovs_sit.Vif.{InterfaceAddress, VirtualInterface}
use cne_ovs_sit.World.{World, on_switch}
use cne_ovs_sit.Overlay.Assign.Effect.{heaps}
use cne_ovs_sit.Pal.Topology.{EndPoint, VerifyTopologyEntry, VerifyTopology, get_full_deps}
use cne_ovs_sit.Nat.Configure.{
  Surroundings, update_point, readdressed, restored, configure_vm, configure_point, client_addr,
  server_addr, client_side, server_side, configure_servers, nat_configure_vms, nat_restore_vms,
}
use cne_ovs_sit.Nat.Apart.{Apart, AllApart, edit-Apart}
use cne_ovs_sit.Nat.Heaps.{
  Heaps, edit, configure_vm-Keeps, update_point-edit, update_point-below, update_point-returns,
}

-- The interface without the address to restore.
abbrev pub forgotten : VirtualInterface → VirtualInterface
forgotten vif = record vif { restore_if_addr = none }

abbrev pub edit_all : (VirtualInterface → VirtualInterface) → List EndPoint → Heaps → Heaps
edit_all f [] hs = hs
edit_all f (p ∷ ps) hs = edit_all f ps (edit p f hs)

edit-undone :
    (p : EndPoint) (addr : InterfaceAddress) (hs : Heaps)
    → edit p restored (edit p (readdressed addr) hs) ≡ edit p forgotten hs
edit-undone p addr hs =
    modify_at-modify_at hs p.host _ _
    ∙ ap (modify_at hs p.host) (fun_ext (λ heap. modify_at-modify_at heap p.vif _ _))

abbrev pub entries :
    VerifyTopologyEntry → List VerifyTopologyEntry → List VerifyTopologyEntry → VerifyTopology
entries vte rest denied = record { allow = vte ∷ rest; deny = denied }

module _ (env : Env) where
  abbrev readdress_all : ℕ → List EndPoint → Heaps → Heaps
  readdress_all idx [] hs = hs
  readdress_all idx (p ∷ ps) hs =
      readdress_all (idx + 1) ps (edit p (readdressed (server_addr idx)) hs)

  edit-readdress_all :
      (p : EndPoint) (idx : ℕ) (ps : List EndPoint) (hs : Heaps)
      → All (Apart p) ps
      → edit p restored (readdress_all idx ps hs) ≡ readdress_all idx ps (edit p restored hs)
  edit-readdress_all p idx [] hs h = refl
  edit-readdress_all p idx (q ∷ qs) hs (here, there) =
      edit-readdress_all p (idx + 1) qs _ there
      ∙ ap (readdress_all (idx + 1) qs)
          (sym (edit-Apart p q restored (readdressed (server_addr idx)) hs here))

  all_undone :
      (idx : ℕ) (ps : List EndPoint) (hs : Heaps)
      → AllApart ps
      → edit_all restored ps (readdress_all idx ps hs) ≡ edit_all forgotten ps hs
  all_undone idx [] hs h = refl
  all_undone idx (p ∷ ps) hs (apart, rest) =
      ap (edit_all restored ps) (
        edit-readdress_all p (idx + 1) ps _ apart
        ∙ ap (readdress_all (idx + 1) ps) (edit-undone p (server_addr idx) hs))
      ∙ all_undone (idx + 1) ps (edit p forgotten hs) rest

  configure_point-edit :
      (about : Surroundings) (addr : InterfaceAddress) (p : EndPoint) (w : World)
      → (configure_point env about addr p w).0 ≡ ok tt
      → heaps (configure_point env about addr p w).1 ≡ edit p (readdressed addr) (heaps w)
  unfolding configure_point
  configure_point-edit about addr p w h =
      let (_, first, rest) =
        bind-ok (update_point env p (readdressed addr)) (λ _. configure_vm env about p) w h in
      ap (λ q. heaps q.1)
        (bind_run (update_point env p (readdressed addr)) (λ _. configure_vm env about p) w first)
      ∙ configure_vm-Keeps env about p _
      ∙ update_point-edit env p (readdressed addr) w

  configure_servers-readdress_all :
      (about : Surroundings) (idx : ℕ) (ps : List EndPoint) (w : World)
      → (configure_servers env about idx ps w).0 ≡ ok tt
      → heaps (configure_servers env about idx ps w).1 ≡ readdress_all idx ps (heaps w)
  unfolding configure_servers
  configure_servers-readdress_all about idx [] w h = refl
  configure_servers-readdress_all about idx (p ∷ ps) w h =
      let one = configure_point env about (server_addr idx) p in
      let more = configure_servers env about (idx + 1) ps in
      let (_, first, rest) = bind-ok one (λ _. more) w h in
      ap (λ q. heaps q.1) (bind_run one (λ _. more) w first)
      ∙ configure_servers-readdress_all about (idx + 1) ps (one w).1 rest
      ∙ ap (readdress_all (idx + 1) ps) (configure_point-edit about (server_addr idx) p w first)

  restore_all :
      (ps : List EndPoint) (w : World)
      → (for_each ps (λ p. update_point env p restored) w).0 ≡ ok tt
      → heaps (for_each ps (λ p. update_point env p restored) w).1 ≡ edit_all restored ps (heaps w)
  unfolding for_each
  restore_all [] w h = refl
  restore_all (p ∷ ps) w h =
      let one = update_point env p restored in
      let more = for_each ps (λ p. update_point env p restored) in
      let (_, first, rest) = bind-ok one (λ _. more) w h in
      ap (λ q. heaps q.1) (bind_run one (λ _. more) w first)
      ∙ restore_all ps (one w).1 rest
      ∙ ap (edit_all restored ps) (update_point-edit env p restored w)

  abbrev On : ℕ → EndPoint → Type 0
  On n p = p.host < n

  length-updated :
      (p : EndPoint) (f : VirtualInterface → VirtualInterface) (w : World)
      → length (heaps (update_point env p f w).1) ≡ length (heaps w)
  length-updated p f w =
      ap length (update_point-edit env p f w) ∙ length-modify_at (heaps w) p.host _

  configure_point-On :
      (about : Surroundings) (addr : InterfaceAddress) (p : EndPoint) (w : World)
      → (configure_point env about addr p w).0 ≡ ok tt
      → On (length (heaps w)) p
  unfolding configure_point
  configure_point-On about addr p w h =
      update_point-below env p (readdressed addr) w
        (bind-ok (update_point env p (readdressed addr)) (λ _. configure_vm env about p) w h).1

  length-configured :
      (about : Surroundings) (addr : InterfaceAddress) (p : EndPoint) (w : World)
      → (configure_point env about addr p w).0 ≡ ok tt
      → length (heaps (configure_point env about addr p w).1) ≡ length (heaps w)
  length-configured about addr p w h =
      ap length (configure_point-edit about addr p w h) ∙ length-modify_at (heaps w) p.host _

  configure_servers-On :
      (about : Surroundings) (idx : ℕ) (ps : List EndPoint) (w : World)
      → (configure_servers env about idx ps w).0 ≡ ok tt
      → All (On (length (heaps w))) ps
  unfolding configure_servers
  configure_servers-On about idx [] w h = tt
  configure_servers-On about idx (p ∷ ps) w h =
      let one = configure_point env about (server_addr idx) p in
      let more = configure_servers env about (idx + 1) ps in
      let (_, first, rest) = bind-ok one (λ _. more) w h in
      (
        configure_point-On about (server_addr idx) p w first,
        subst (λ n. All (On n) ps) (length-configured about (server_addr idx) p w first)
            (configure_servers-On about (idx + 1) ps (one w).1 rest),
      )

  length-readdress_all :
      (idx : ℕ) (ps : List EndPoint) (hs : Heaps) → length (readdress_all idx ps hs) ≡ length hs
  length-readdress_all idx [] hs = refl
  length-readdress_all idx (p ∷ ps) hs =
      length-readdress_all (idx + 1) ps (edit p (readdressed (server_addr idx)) hs)
      ∙ length-modify_at hs p.host _

  restore_returns :
      (ps : List EndPoint) (w : World)
      → All (On (length (heaps w))) ps
      → (for_each ps (λ p. update_point env p restored) w).0 ≡ ok tt
  unfolding for_each
  restore_returns [] w h = refl
  restore_returns (p ∷ ps) w (here, there) =
      let one = update_point env p restored in
      let more = for_each ps (λ p. update_point env p restored) in
      ap (λ q. q.0) (bind_run one (λ _. more) w (update_point-returns env p restored w here))
      ∙ restore_returns ps (one w).1
          (subst (λ n. All (On n) ps) (sym (length-updated p restored w)) there)

  configured :
      (vte : VerifyTopologyEntry) (rest denied : List VerifyTopologyEntry)
      (neighs4 neighs6 : List ℕ) (w : World) (vt : VerifyTopology)
      → (nat_configure_vms env (entries vte rest denied) neighs4 neighs6 w).0 ≡ ok vt
      → (vt ≡ entries vte [] [])
        × (heaps (nat_configure_vms env (entries vte rest denied) neighs4 neighs6 w).1
            ≡ readdress_all 0
                (get_full_deps vte)
                (edit vte.sep (readdressed client_addr) (heaps w)))
        × All (On (length (heaps w))) (vte.sep ∷ get_full_deps vte)
  unfolding nat_configure_vms
  configured vte rest denied neighs4 neighs6 w vt h =
      let one = configure_point env client_side client_addr vte.sep in
      let deps = get_full_deps vte in
      let more = configure_servers env (server_side neighs4 neighs6) 0 deps in
      let last : Action World VerifyTopology = pure (entries vte [] []) in
      let (_, first, second) = bind-ok one (λ _. more >>= λ _. last) w h in
      let (_, servers, done) = bind-ok more (λ _. last) (one w).1 second in
      (
        sym (ok-injective done),
        ap (λ q. heaps q.1) (bind_run one (λ _. more >>= λ _. last) w first)
            ∙ ap (λ q. heaps q.1) (bind_run more (λ _. last) (one w).1 servers)
            ∙ configure_servers-readdress_all (server_side neighs4 neighs6) 0 deps (one w).1 servers
            ∙ ap (readdress_all 0 deps)
                (configure_point-edit client_side client_addr vte.sep w first),
        (
          configure_point-On client_side client_addr vte.sep w first,
          subst (λ n. All (On n) deps) (length-configured client_side client_addr vte.sep w first)
              (configure_servers-On (server_side neighs4 neighs6) 0 deps (one w).1 servers),
        ),
      )

  returns :
      (vte : VerifyTopologyEntry) (w : World)
      → All (On (length (heaps w))) (vte.sep ∷ get_full_deps vte)
      → (nat_restore_vms env (entries vte [] []) w).0 ≡ ok tt
  unfolding nat_restore_vms on_switch for_each
  returns vte w h = restore_returns (vte.sep ∷ get_full_deps vte) w h

  undone :
      (vte : VerifyTopologyEntry) (w : World)
      → (nat_restore_vms env (entries vte [] []) w).0 ≡ ok tt
      → heaps (nat_restore_vms env (entries vte [] []) w).1
        ≡ edit_all restored (vte.sep ∷ get_full_deps vte) (heaps w)
  unfolding nat_restore_vms
  undone vte w h =
      let one = update_point env vte.sep restored in
      let deps = get_full_deps vte in
      let more = for_each deps (λ dep. update_point env dep restored) in
      let (_, first, second) = bind-ok one (λ _. more) w h in
      ap (λ q. heaps q.1) (bind_run one (λ _. more) w first)
      ∙ restore_all deps (one w).1 second
      ∙ ap (edit_all restored deps) (update_point-edit env vte.sep restored w)

  -- Where the end points of the first allowed entry are different interfaces and
  -- _nat_configure_vms returns, nat_restore_vms of the topology that it leaves returns, and the
  -- interfaces of all nodes are as they were before, but that those of the entry remember no
  -- address to restore: each of them has its own address back, and no other is changed.
  pub nat_restore_vms-forgotten :
      (vte : VerifyTopologyEntry) (rest denied : List VerifyTopologyEntry)
      (neighs4 neighs6 : List ℕ) (w : World) (vt : VerifyTopology)
      → AllApart (vte.sep ∷ get_full_deps vte)
      → (nat_configure_vms env (entries vte rest denied) neighs4 neighs6 w).0 ≡ ok vt
      → ((nat_restore_vms env vt
            (nat_configure_vms env (entries vte rest denied) neighs4 neighs6 w).1).0
          ≡ ok tt)
        × (heaps
              (nat_restore_vms env vt
                (nat_configure_vms env (entries vte rest denied) neighs4 neighs6 w).1).1
            ≡ edit_all forgotten (vte.sep ∷ get_full_deps vte) (heaps w))
  nat_restore_vms-forgotten vte rest denied neighs4 neighs6 w vt (apart, others) h =
      let (same, before, on) = configured vte rest denied neighs4 neighs6 w vt h in
      let w' = (nat_configure_vms env (entries vte rest denied) neighs4 neighs6 w).1 in
      let deps = get_full_deps vte in
      let kept =
        ap length before
        ∙ length-readdress_all 0 deps (edit vte.sep (readdressed client_addr) (heaps w))
        ∙ length-modify_at (heaps w) vte.sep.host _ in
      let returned = returns vte w' (subst (λ n. All (On n) (vte.sep ∷ deps)) (sym kept) on) in
      (
        ap (λ t. (nat_restore_vms env t w').0) same ∙ returned,
        ap (λ t. heaps (nat_restore_vms env t w').1) same
            ∙ undone vte w' returned
            ∙ ap (edit_all restored (vte.sep ∷ deps)) before
            ∙ ap (edit_all restored deps) (
                edit-readdress_all vte.sep 0 deps _ apart
                ∙ ap (readdress_all 0 deps) (edit-undone vte.sep client_addr (heaps w)))
            ∙ all_undone 0 deps (edit vte.sep forgotten (heaps w)) others,
      )
