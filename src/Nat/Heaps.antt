-- ===== src/Nat/Heaps.antt =====
-- What the actions of resources/libraries/python/nat.py do to the interfaces of the nodes: commands
-- leave them alone, and a write through a reference changes one.
use cne_ovs_sit.Base.{
  ℕ, zero, suc, List, [], ◌∷◌, get_elem?, modify_at, Option, none, some, some-injective,
  Option-cases, PyError, index_error, attribute_error, Result, ok, err, Action, and_then, pure,
  or_raise, ◌>>=◌, ◌≡◌, ◌≤◌, ◌<◌, arith, length, err, ok, refl, sym, ap, ◌∙◌, inl, inr,
}
use cne_ovs_sit.Vif.{InterfaceAddress, VirtualInterface}
use cne_ovs_sit.World.{VirtualMachine, get_vms, Sut, World, read_sut, on_switch}
use cne_ovs_sit.Switch.State.{VirtualSwitch, Method}
use cne_ovs_sit.Guest.Exec.{Session, execute_batch}
use cne_ovs_sit.Overlay.Assign.Effect.{heaps}
use cne_ovs_sit.Pal.Topology.{EndPoint}
use cne_ovs_sit.Pal.Traffic.{in_guest, end_point}
use cne_ovs_sit.Nat.Configure.{Surroundings, configure_commands, update_point, configure_vm}
use cne_ovs_sit.Ssh.{Env}

abbrev pub Heaps : Type 0
Heaps = List (List VirtualInterface)

-- The interface of an end point is replaced.
abbrev pub edit : EndPoint → (VirtualInterface → VirtualInterface) → Heaps → Heaps
edit p f hs = modify_at hs p.host (λ heap. modify_at heap p.vif f)

modify_at-id : {A : Type 0} (xs : List A) (i : ℕ) → modify_at xs i (λ x. x) ≡ xs
modify_at-id [] i = refl
modify_at-id (x ∷ xs) zero = refl
modify_at-id (x ∷ xs) (suc i) = cc (modify_at-id xs i)

missing :
    (w : World) (i : ℕ) (f : List VirtualInterface → List VirtualInterface)
    → get_elem? w i ≡ none
    → heaps w ≡ modify_at (heaps w) i f
missing [] i f h = refl
missing (sut ∷ w) zero f h = cc
missing (sut ∷ w) (suc i) f h = cc (missing w i f h)

written :
    (w : World) (i : ℕ) (f : List VirtualInterface → List VirtualInterface) (sut : Sut)
    (v : VirtualSwitch)
    → get_elem? w i ≡ some sut
    → v.vif_heap ≡ f sut.vswitch.vif_heap
    → heaps (modify_at w i (λ s. record s { vswitch = v })) ≡ modify_at (heaps w) i f
written [] i f sut v h k = cc
written (s ∷ w) zero f sut v h k =
    ap (λ heap. heap ∷ heaps w) (k ∙ ap (λ s. f s.vswitch.vif_heap) (sym (some-injective h)))
written (s ∷ w) (suc i) f sut v h k = ap (λ hs. s.vswitch.vif_heap ∷ hs) (written w i f sut v h k)

-- A method that changes the switch's heap by `f`.
on_switch-heaps :
    {A : Type 0} (i : ℕ) (m : Method A) (f : List VirtualInterface → List VirtualInterface)
    (w : World)
    → ((s : VirtualSwitch) → (m s).1.vif_heap ≡ f s.vif_heap)
    → heaps (on_switch i m w).1 ≡ modify_at (heaps w) i f
unfolding on_switch
on_switch-heaps i m f w h = elim (Option-cases (get_elem? w i)) [
  | inl absent ↦ rw (on_switch, absent) (missing w i f absent)
  | inr (sut, here) ↦
      rw (on_switch, here) (written w i f sut (m sut.vswitch).1 here (h sut.vswitch))
]

abbrev pub Keeps : {A : Type 0} → Action World A → Type 0
Keeps m = (w : World) → heaps (m w).1 ≡ heaps w

Keeps-bind :
    {A B : Type 0} (m : Action World A) (f : A → Action World B)
    → Keeps m
    → ((a : A) → Keeps (f a))
    → Keeps (m >>= f)
Keeps-bind {A} {B} m f h k w = goes_on (m w).0 (m w).1 ∙ h w
  where
    goes_on : (r : Result A) (w : World) → heaps (and_then r f w).1 ≡ heaps w
    goes_on (ok a) w = k a w
    goes_on (err e) w = refl

Keeps-or_raise : {A : Type 0} (o : Option A) (e : PyError) → Keeps (or_raise o e)
Keeps-or_raise none e w = refl
Keeps-or_raise (some a) e w = refl

Keeps-read_sut : (i : ℕ) → Keeps (read_sut i)
unfolding read_sut
Keeps-read_sut i w = Keeps-or_raise (get_elem? w i) _ w

Keeps-in_guest : {A : Type 0} (i : ℕ) (m : Session A) → Keeps (on_switch i (in_guest m))
unfolding in_guest
Keeps-in_guest i m w =
    on_switch-heaps i (in_guest m) (λ heap. heap) w (λ s. refl) ∙ modify_at-id (heaps w) i

Keeps-or_raise-bind :
    {A B : Type 0} (o : Option A) (e : PyError) (f : A → Action World B)
    → ((a : A) → Keeps (f a))
    → Keeps (or_raise o e >>= f)
Keeps-or_raise-bind o e f h = Keeps-bind (or_raise o e) f (Keeps-or_raise o e) h

abbrev Found : Type 0
Found = VirtualMachine × VirtualInterface

Keeps-end_point : (p : EndPoint) → Keeps (end_point p)
unfolding end_point
Keeps-end_point p =
    let last : Sut → VirtualMachine → Action World Found = λ sut vm.
      or_raise (get_elem? sut.vswitch.vif_heap p.vif) index_error >>= λ vif. pure (vm, vif) in
    Keeps-bind (read_sut p.host)
      (λ sut. or_raise (get_elem? (get_vms sut) p.guest) index_error >>= last sut)
      (Keeps-read_sut p.host)
      (λ sut. Keeps-or_raise-bind (get_elem? (get_vms sut) p.guest) index_error (last sut) (λ vm.
        Keeps-or_raise-bind (get_elem? sut.vswitch.vif_heap p.vif) index_error
          (λ vif. pure (vm, vif)) (λ vif w. refl)))

pub configure_vm-Keeps :
    (env : Env) (about : Surroundings) (p : EndPoint) → Keeps (configure_vm env about p)
unfolding configure_vm
configure_vm-Keeps env about p =
    let run : Found → InterfaceAddress → Action World (Unit {0}) = λ q addr.
      on_switch p.host (in_guest (execute_batch env q.0 (configure_commands env about q.1 addr))) in
    Keeps-bind (end_point p) (λ q. or_raise (q.1).if_addr attribute_error >>= run q)
      (Keeps-end_point p)
      (λ q. Keeps-or_raise-bind (q.1).if_addr attribute_error (run q) (λ addr.
        Keeps-in_guest p.host (execute_batch env q.0 (configure_commands env about q.1 addr))))

pub update_point-edit :
    (env : Env) (p : EndPoint) (f : VirtualInterface → VirtualInterface) (w : World)
    → heaps (update_point env p f w).1 ≡ edit p f (heaps w)
unfolding update_point
update_point-edit env p f w =
    on_switch-heaps p.host _ (λ heap. modify_at heap p.vif f) w (λ s. refl)

absent_beyond : (w : World) (i : ℕ) → get_elem? w i ≡ none → length (heaps w) ≤ i
absent_beyond [] i h = omega arith
absent_beyond (sut ∷ w) zero h = cc
absent_beyond (sut ∷ w) (suc i) h = omega (arith, absent_beyond w i h)

present_below : (w : World) (i : ℕ) (sut : Sut) → get_elem? w i ≡ some sut → i < length (heaps w)
present_below [] i sut h = cc
present_below (s ∷ w) zero sut h = omega arith
present_below (s ∷ w) (suc i) sut h = omega (arith, present_below w i sut h)

in_range : (w : World) (i : ℕ) → i < length (heaps w) → ¬ (get_elem? w i ≡ none)
in_range w i h absent = omega (arith, h, absent_beyond w i absent)

on_switch-absent :
    {A : Type 0} (i : ℕ) (m : Method A) (w : World)
    → get_elem? w i ≡ none
    → on_switch i m w ≡ (err index_error, w)
unfolding on_switch
on_switch-absent i m w absent = rw (on_switch, absent) refl

on_switch-below :
    {A : Type 0} (i : ℕ) (m : Method A) (w : World) (a : A)
    → (on_switch i m w).0 ≡ ok a
    → i < length (heaps w)
on_switch-below i m w a h = elim (Option-cases (get_elem? w i)) [
  | inl absent ↦ cc (ap (λ q. q.0) (on_switch-absent i m w absent), h)
  | inr (sut, here) ↦ present_below w i sut here
]

-- A write through a reference returns exactly if its node is there.
pub update_point-below :
    (env : Env) (p : EndPoint) (f : VirtualInterface → VirtualInterface) (w : World)
    → (update_point env p f w).0 ≡ ok tt
    → p.host < length (heaps w)
unfolding update_point
update_point-below env p f w h = on_switch-below p.host _ w tt h

pub update_point-returns :
    (env : Env) (p : EndPoint) (f : VirtualInterface → VirtualInterface) (w : World)
    → p.host < length (heaps w)
    → (update_point env p f w).0 ≡ ok tt
unfolding update_point on_switch
update_point-returns env p f w h = elim (Option-cases (get_elem? w p.host)) [
  | inl absent ↦ elim (in_range w p.host h absent) [ ]
  | inr (sut, here) ↦ rw (on_switch, here) refl
]
