-- ===== src/Topology/Nics.antt =====
-- SUT.__init__ (resources/libraries/python/topology.py): the NUMA node of the uplink interfaces, and
-- what the test that they are on one node lets through.
use cne_ovs_sit.Base.{
  ℕ, zero, suc, List, [], ◌∷◌, All, Option, none, some, fstr, Result, ok, err, Action, pure,
  or_raise, lift, ◌>>=◌, ◌==◌, ==_iff, if◌then◌else◌, ◌≡◌, refl, sym, ap, ◌∙◌, chain, chain-ok,
  bind-ok, ok-injective, some-injective, ◌⊎◌, inl, inr, Bool-cases, arith, type_error, system_exit,
}
use mathlib.Core.Path.{subst}
use cne_ovs_sit.Ssh.{Env, Node, Call}
use cne_ovs_sit.Switch.Startup.{UplinkSpec}
use cne_ovs_sit.Topology.Probe.{ask, normalized}

-- `self.pnic_numa_id` after one more interface. A NUMA node with number 0 counts as not set.
unfoldable pub note_pnic : Option ℕ → ℕ → Result (Option ℕ)
note_pnic none numa_id = ok (some numa_id)
note_pnic (some zero) numa_id = ok (some numa_id)
note_pnic (some (suc n)) numa_id = if numa_id == suc n then ok (some (suc n)) else err system_exit

-- The NUMA node of one interface. `int(None)` is a TypeError, which nothing catches.
unfoldable pub read_numa_id : Env → Node → UplinkSpec → Action (List Call) ℕ
unfolding normalized
read_numa_id env node spec = do
  answer ← ask env node (fstr ("cat /sys/bus/pci/devices/" ∷ spec.pci_address ∷ "/numa_node" ∷ []))
  reply ← or_raise answer type_error
  lift (normalized reply.stdout)

unfoldable pub locate_pnics :
    Env → Node → Option ℕ → List UplinkSpec → Action (List Call) (Option ℕ)
unfolding read_numa_id note_pnic
locate_pnics env node known [] = pure known
locate_pnics env node known (spec ∷ specs) = read_numa_id env node spec >>= λ numa_id.
    lift (note_pnic known numa_id) >>= λ found. locate_pnics env node found specs

-- What the files of the interfaces say, one after the other, from some commands on.
abbrev pub Reads : Env → Node → List UplinkSpec → List ℕ → List Call → Type 0
Reads env node [] ids calls = ids ≡ []
Reads env node (spec ∷ specs) ids calls =
    (i : ℕ) × (more : List ℕ) × (ids ≡ i ∷ more)
    × ((read_numa_id env node spec calls).0 ≡ ok i)
    × Reads env node specs more (read_numa_id env node spec calls).1

-- The tests of the loop on numbers alone.
note_all : Option ℕ → List ℕ → Result (Option ℕ)
unfolding note_pnic
note_all known [] = ok known
note_all known (numa_id ∷ ids) = chain (note_pnic known numa_id) (λ k. note_all k ids)

-- Zeros in front of the number that is kept are let through.
abbrev pub ZeroOr : ℕ → List ℕ → Type 0
ZeroOr k = All (λ i. (i ≡ 0) ⊎ (i ≡ k))

kept :
    (n i : ℕ) (k : Option ℕ) → note_pnic (some (suc n)) i ≡ ok k → (k ≡ some (suc n)) × (i ≡ suc n)
unfolding note_pnic
kept n i k h = elim (Bool-cases (i == suc n)) [
  | inl e ↦ (
    sym (ok-injective (sym (ap (λ b. if b then ok (some (suc n)) else err system_exit) e) ∙ h)),
    (==_iff i (suc n)).0 e,
  )
  | inr e ↦ cc
]

settled :
    (n k : ℕ) (ids : List ℕ)
    → note_all (some (suc n)) ids ≡ ok (some k)
    → (k ≡ suc n) × ZeroOr k ids
unfolding note_all
settled n k [] h = (omega (arith, some-injective (ok-injective h)), tt)
settled n k (i ∷ ids) h =
    let (known, first, rest) = chain-ok (note_pnic (some (suc n)) i) (λ k. note_all k ids) h in
    let (same, here) = kept n i known first in
    let (eq, more) = settled n k ids (subst (λ o. note_all o ids ≡ ok (some k)) same rest) in
    (eq, (inr (here ∙ sym eq), more))

zeros : (ids : List ℕ) (k : ℕ) → note_all (some zero) ids ≡ ok (some k) → ZeroOr k ids
unfolding note_all note_pnic
zeros [] k h = tt
zeros (zero ∷ ids) k h = (inl refl, zeros ids k h)
zeros (suc n ∷ ids) k h = let (eq, more) = settled n k ids h in (inr (sym eq), more)

all_noted-ZeroOr : (ids : List ℕ) (k : ℕ) → note_all none ids ≡ ok (some k) → ZeroOr k ids
unfolding note_all note_pnic
all_noted-ZeroOr [] k h = tt
all_noted-ZeroOr (zero ∷ ids) k h = (inl refl, zeros ids k h)
all_noted-ZeroOr (suc n ∷ ids) k h = let (eq, more) = settled n k ids h in (inr (sym eq), more)

locate_pnics-Reads :
    (env : Env) (node : Node) (known : Option ℕ) (specs : List UplinkSpec) (calls : List Call)
    (found : Option ℕ)
    → (locate_pnics env node known specs calls).0 ≡ ok found
    → (ids : List ℕ) × Reads env node specs ids calls × (note_all known ids ≡ ok found)
unfolding locate_pnics note_all
locate_pnics-Reads env node known [] calls found h = ([], refl, h)
locate_pnics-Reads env node known (spec ∷ specs) calls found h =
    let (i, read, h1) = bind-ok (read_numa_id env node spec) _ calls h in
    let (next, noted, h2) = bind-ok (lift (note_pnic known i)) _ _ h1 in
    let (ids, reads, rest) = locate_pnics-Reads env node next specs _ found h2 in
    (i ∷ ids, (i, ids, refl, read, reads), rw noted rest)

-- Where the loop over the uplinks returns a NUMA node, the file of each of them was read in order, and
-- each says that node or node 0.
pub locate_pnics-ZeroOr :
    (env : Env) (node : Node) (specs : List UplinkSpec) (calls : List Call) (k : ℕ)
    → (locate_pnics env node none specs calls).0 ≡ ok (some k)
    → (ids : List ℕ) × Reads env node specs ids calls × ZeroOr k ids
locate_pnics-ZeroOr env node specs calls k h =
    let (ids, reads, noted) = locate_pnics-Reads env node none specs calls (some k) h in
    (ids, reads, all_noted-ZeroOr ids k noted)
