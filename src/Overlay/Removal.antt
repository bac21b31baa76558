-- ===== src/Overlay/Removal.antt =====
-- _delete_tunnel_ports (resources/libraries/python/overlay.py): which ports its loop leaves.
use cne_ovs_sit.Base.{
  ℕ, zero, suc, ◌+◌, ◌<◌, String, false, List, [], ◌∷◌, ◌++◌, length, length-append, get_elem?, All,
  none, some, fstr, or_raise, and_then, Result, ok, ◌==◌, ==_self, ◌≡◌, refl, sym, ap, ◌∙◌, inl,
  inr, arith,
}
use mathlib.Core.List.{append_assoc, append-nil}
use mathlib.Core.Path.{subst}
use cne_ovs_sit.Ssh.{Env}
use cne_ovs_sit.Switch.State.{TunnelPort, Bridge, VirtualSwitch}
use cne_ovs_sit.Switch.Bridges.{
  find_bridge, get_bridge, remove_port, delete_interface, forget_tunnel_port, delete_tunnel_port,
}
use cne_ovs_sit.Switch.Ids.{find_bridge-get_elem?, find_bridge-modify_at}
use cne_ovs_sit.Switch.Release.{delete_tunnel_port-Deletes, release}
use cne_ovs_sit.Switch.Reliable.{AllSucceed, execute_-ok}
use cne_ovs_sit.Overlay.{delete_ports, delete_tunnel_ports}

-- Every second one of a list, from the second on.
abbrev pub odds {ℓ} : {A : Type ℓ} → List A → List A
odds [] = []
odds (x ∷ []) = []
odds (x ∷ y ∷ xs) = y ∷ odds xs

-- No two ports of a list are the same object.
abbrev pub Apart : TunnelPort → List TunnelPort → Type 0
Apart port ps = All (λ p. (p.ident == port.ident) ≡ false) ps

-- Taking out the object behind `kept`, none of which it is.
remove_port-behind :
    (kept : List TunnelPort) (port : TunnelPort) (rest : List TunnelPort)
    → Apart port kept
    → remove_port port.ident (kept ++ port ∷ rest) ≡ some (kept ++ rest)
unfolding remove_port
remove_port-behind [] port rest h = rw (==_self port.ident) refl
remove_port-behind (k ∷ kept) port rest h = rw (h.0, remove_port-behind kept port rest h.1) refl

abbrev pub AllApart : List TunnelPort → Type 0
AllApart [] = Unit
AllApart (p ∷ ps) = All (λ q. (p.ident == q.ident) ≡ false) ps × AllApart ps

get_elem?-behind :
    (kept : List TunnelPort) (port : TunnelPort) (rest : List TunnelPort)
    → get_elem? (kept ++ port ∷ rest) (length kept) ≡ some port
get_elem?-behind [] port rest = refl
get_elem?-behind (k ∷ kept) port rest = get_elem?-behind kept port rest

get_elem?-past : (kept : List TunnelPort) (n : ℕ) → get_elem? kept (length kept + n) ≡ none
get_elem?-past [] n = refl
get_elem?-past (k ∷ kept) n =
    ap (get_elem? (k ∷ kept)) (suc-plus (length kept) n) ∙ get_elem?-past kept n
  where
    suc-plus : (m n : ℕ) → suc m + n ≡ suc (m + n)
    suc-plus m n = omega arith

All-behind {κ} :
    (P : TunnelPort → Type κ) (kept : List TunnelPort) (port : TunnelPort) (rest : List TunnelPort)
    → All P (kept ++ port ∷ rest)
    → P port × All P (kept ++ rest)
All-behind P [] port rest h = h
All-behind P (k ∷ kept) port rest h =
    let (here, others) = All-behind P kept port rest h.1 in (here, (h.0, others))

AllApart-kept :
    (kept : List TunnelPort) (port : TunnelPort) (rest : List TunnelPort)
    → AllApart (kept ++ port ∷ rest)
    → Apart port kept
AllApart-kept [] port rest h = tt
AllApart-kept (k ∷ kept) port rest h = (
  (All-behind (λ q. (k.ident == q.ident) ≡ false) kept port rest h.0).0,
  AllApart-kept kept port rest h.1,
)

AllApart-drop :
    (kept : List TunnelPort) (port : TunnelPort) (rest : List TunnelPort)
    → AllApart (kept ++ port ∷ rest)
    → AllApart (kept ++ rest)
AllApart-drop [] port rest h = h.1
AllApart-drop (k ∷ kept) port rest h = (
  (All-behind (λ q. (k.ident == q.ident) ≡ false) kept port rest h.0).1,
  AllApart-drop kept port rest h.1,
)

length-last : (kept : List TunnelPort) (y : TunnelPort) → length (kept ++ y ∷ []) ≡ length kept + 1
length-last kept y = length-append kept (y ∷ [])

-- The run ends well, and the bridge is left with the ports.
abbrev pub Leaves : String → ℕ → List TunnelPort → Result (Unit {0}) × VirtualSwitch → Type 0
Leaves name b ports r =
    (r.0 ≡ ok tt)
    × (br : Bridge) × (find_bridge name r.1.bridges ≡ some (b, br))
    × (br.tnl_ports ≡ ports)

module _ (env : Env) (reliable : AllSucceed env) where
  module _ (name : String) (b : ℕ) where
    delete_tunnel_port-ok :
        (s : VirtualSwitch) (br : Bridge) (port : TunnelPort) (rest : List TunnelPort)
        → find_bridge name s.bridges ≡ some (b, br)
        → remove_port port.ident br.tnl_ports ≡ some rest
        → (delete_tunnel_port env name port s).0 ≡ ok tt
    unfolding delete_tunnel_port get_bridge delete_interface forget_tunnel_port
    delete_tunnel_port-ok s br port rest found removed =
        rw
          (
            found,
            execute_-ok env reliable (fstr ("ovs-vsctl del-port " ∷ name ∷ " " ∷ port.name ∷ [])) s,
            and_then,
            removed,
            or_raise,
          )
          refl

    delete_tunnel_port-find_bridge :
        (s : VirtualSwitch) (br : Bridge) (port : TunnelPort) (rest : List TunnelPort)
        → find_bridge name s.bridges ≡ some (b, br)
        → remove_port port.ident br.tnl_ports ≡ some rest
        → find_bridge name (delete_tunnel_port env name port s).1.bridges
          ≡ some (b, release port rest br)
    delete_tunnel_port-find_bridge s br port rest found removed =
        elim (delete_tunnel_port-Deletes env name port s found removed) [
          | inl (e, failed, same) ↦ cc (delete_tunnel_port-ok s br port rest found removed, failed)
          | inr (passed, changed) ↦
              ap (find_bridge name) changed
              ∙ find_bridge-modify_at name s.bridges (release port rest) (λ x. refl) found
        ]

    delete_ports-step :
        (fuel position : ℕ) (s : VirtualSwitch) (br : Bridge) (port : TunnelPort)
        → get_elem? s.bridges b ≡ some br
        → get_elem? br.tnl_ports position ≡ some port
        → (delete_tunnel_port env name port s).0 ≡ ok tt
        → delete_ports env (suc fuel) name b position s
          ≡ delete_ports env fuel name b (position + 1) (delete_tunnel_port env name port s).1
    unfolding delete_ports
    delete_ports-step fuel position s br port at here passed =
        rw (at, here, passed, and_then, delete_ports) refl

    delete_ports-past :
        (fuel position : ℕ) (s : VirtualSwitch) (br : Bridge)
        → get_elem? s.bridges b ≡ some br
        → get_elem? br.tnl_ports position ≡ none
        → delete_ports env fuel name b position s ≡ (ok tt, s)
    unfolding delete_ports
    delete_ports-past zero position s br at none_left = refl
    delete_ports-past (suc fuel) position s br at none_left = rw (at, none_left, delete_ports) refl

    module _ (s : VirtualSwitch) (br : Bridge) (kept : List TunnelPort) (x : TunnelPort)
        (rest : List TunnelPort) (found : find_bridge name s.bridges ≡ some (b, br))
        (ports : br.tnl_ports ≡ kept ++ x ∷ rest) (apart : AllApart (kept ++ x ∷ rest)) where
      taken_out : remove_port x.ident br.tnl_ports ≡ some (kept ++ rest)
      taken_out =
          ap (remove_port x.ident) ports
          ∙ remove_port-behind kept x rest (AllApart-kept kept x rest apart)

      found_after :
          find_bridge name (delete_tunnel_port env name x s).1.bridges
          ≡ some (b, release x (kept ++ rest) br)
      found_after = delete_tunnel_port-find_bridge s br x (kept ++ rest) found taken_out

      delete_ports-next :
          (fuel : ℕ)
          → delete_ports env (suc fuel) name b (length kept) s
            ≡ delete_ports env fuel name b (length kept + 1) (delete_tunnel_port env name x s).1
      delete_ports-next fuel =
          delete_ports-step fuel (length kept) s br x (find_bridge-get_elem? name s.bridges found)
            (ap (λ ps. get_elem? ps (length kept)) ports ∙ get_elem?-behind kept x rest)
            (delete_tunnel_port-ok s br x (kept ++ rest) found taken_out)

    delete_ports-Leaves :
        (fuel : ℕ) (s : VirtualSwitch) (br : Bridge) (kept rest : List TunnelPort)
        → find_bridge name s.bridges ≡ some (b, br)
        → br.tnl_ports ≡ kept ++ rest
        → AllApart (kept ++ rest)
        → length rest < fuel
        → Leaves name b (kept ++ odds rest) (delete_ports env fuel name b (length kept) s)
    delete_ports-Leaves zero s br kept rest found ports apart enough =
        absurd (omega (arith, enough))
    delete_ports-Leaves (suc fuel) s br kept [] found ports apart enough =
        rw
          (delete_ports-past (suc fuel) (length kept) s br
            (find_bridge-get_elem? name s.bridges found)
            (rw (ports, append-nil kept)
              (ap (get_elem? kept) (omega arith) ∙ get_elem?-past kept 0)))
          (refl, br, found, ports)
    delete_ports-Leaves (suc fuel) s br kept (x ∷ []) found ports apart enough =
        let s' = (delete_tunnel_port env name x s).1 in
        let br' = release x (kept ++ []) br in
        let found' = found_after s br kept x [] found ports apart in
        rw
          (
            delete_ports-next s br kept x [] found ports apart fuel,
            delete_ports-past fuel (length kept + 1) s' br'
                (find_bridge-get_elem? name s'.bridges found')
                (ap (λ ps. get_elem? ps (length kept + 1)) (append-nil kept)
                  ∙ get_elem?-past kept 1),
          )
          (refl, br', found', refl)
    delete_ports-Leaves (suc fuel) s br kept (x ∷ y ∷ rest) found ports apart enough =
        let s' = (delete_tunnel_port env name x s).1 in
        let br' = release x (kept ++ y ∷ rest) br in
        let found' = found_after s br kept x (y ∷ rest) found ports apart in
        let split = append_assoc kept (y ∷ []) rest in
        rw
          (
            delete_ports-next s br kept x (y ∷ rest) found ports apart fuel,
            ← length-last kept y,
            ← append_assoc kept (y ∷ []) (odds rest),
          )
          (delete_ports-Leaves fuel s' br' (kept ++ y ∷ []) rest found' (sym split)
            (subst AllApart (sym split) (AllApart-drop kept x (y ∷ rest) apart))
            (omega (arith, enough)))

-- Where every command succeeds, and the bridge has no port twice, _delete_tunnel_ports returns and
-- leaves the bridge exactly every second of its tunnel ports, from the second on: the loop's list
-- shrinks under it. So the fuel is enough.
pub delete_tunnel_ports-odds :
    (env : Env) (name : String) (s : VirtualSwitch) (b : ℕ) (br : Bridge)
    → AllSucceed env
    → find_bridge name s.bridges ≡ some (b, br)
    → AllApart br.tnl_ports
    → Leaves name b (odds br.tnl_ports) (delete_tunnel_ports env name s)
unfolding delete_tunnel_ports get_bridge
delete_tunnel_ports-odds env name s b br reliable found apart =
    rw (found, or_raise)
      (delete_ports-Leaves env reliable name b (suc (length br.tnl_ports)) s br [] br.tnl_ports
        found refl apart (omega arith))
