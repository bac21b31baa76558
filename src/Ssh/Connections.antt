-- ===== src/Ssh/Connections.antt =====
-- The connections of class SSH (resources/libraries/python/ssh.py): connect, disconnect and _reconnect
-- over the table that all objects of the class share, and what a connect leaves in it.
--
-- Paramiko and the hosts are parameters: whether a connection is active, and how opening a new one
-- ends. `node_hash` is Python's hash of the host and the port. A client is a number.
use cne_ovs_sit.Base.{
  ℕ, zero, suc, ◌+◌, ◌≤◌, Bool, true, false, List, [], ◌∷◌, Option, none, some, ◌==◌, ==_self,
  PyError, io_error, Result, ok, err, Action, pure, raise, ◌>>◌, if◌then◌else◌, ◌≡◌, ◌≢◌, refl, sym,
  ◌∙◌, inl, inr, Bool-cases, Option-cases, arith,
}
use mathlib.Core.Path.{subst}
use cne_ovs_sit.Ssh.{Node}

-- A dict of clients by hash, which holds a hash once.
abbrev pub Table : Type 0
Table = List (ℕ × ℕ)

abbrev pub client_at : ℕ → Table → Option ℕ
client_at h [] = none
client_at h (e ∷ es) = if e.0 == h then some e.1 else client_at h es

abbrev pub drop_key : ℕ → Table → Table
drop_key h [] = []
drop_key h (e ∷ es) = if e.0 == h then drop_key h es else e ∷ drop_key h es

-- The table, the clients that were closed, the number of the next one, and the object's own client.
pub record Connections : Type 0 where
  pub existing_connections : Table
  pub closed : List ℕ
  pub next : ℕ
  pub ssh : Option ℕ

module _ (node_hash : Node → ℕ) (is_active : Connections → ℕ → Bool)
    (opening : Connections → Node → Option PyError) where
  abbrev closing : ℕ → Option ℕ → Connections → Connections
  closing h none s = s
  closing h (some client) s = record s {
    existing_connections = drop_key h s.existing_connections;
    closed = client ∷ s.closed;
  }

  -- A node without a connection is left alone.
  unfoldable pub disconnect : Node → Action Connections (Unit {0})
  disconnect node s =
      pure tt (closing (node_hash node) (client_at (node_hash node) s.existing_connections) s)

  abbrev opened : ℕ → Connections → Connections
  opened h s = record s {
    existing_connections = (h, s.next) ∷ s.existing_connections;
    next = s.next + 1;
    ssh = some s.next;
  }

  -- A new client stands in the table only once it is connected; the object has it in either case.
  unfoldable pub connect_new : Node → Action Connections (Unit {0})
  connect_new node s = elim (opening s node) [
    | some e ↦ raise e (record s { next = s.next + 1; ssh = some s.next })
    | none ↦ pure tt (opened (node_hash node) s)
  ]

  abbrev use_client : ℕ → Connections → Connections
  use_client client s = record s { ssh = some client }

  -- `_reconnect(attempts - 1)` is the disconnect followed by the connect.
  unfoldable pub connect : ℕ → Node → Action Connections (Unit {0})
  unfolding connect_new disconnect
  connect zero node s = elim (client_at (node_hash node) s.existing_connections) [
    | none ↦ connect_new node s
    | some client ↦
        if is_active s client
        then pure tt (use_client client s)
        else raise io_error (use_client client s)
  ]
  connect (suc attempts) node s =
      let again = (disconnect node >> connect attempts node) in
      elim (client_at (node_hash node) s.existing_connections) [
        | none ↦ connect_new node s
        | some client ↦
            if is_active s client
            then pure tt (use_client client s)
            else again (use_client client s)
      ]

  unfoldable pub reconnect : ℕ → Node → Action Connections (Unit {0})
  unfolding connect disconnect
  reconnect attempts node = disconnect node >> connect attempts node

  client_at-drop_key : (h : ℕ) (es : Table) → client_at h (drop_key h es) ≡ none
  client_at-drop_key h [] = refl
  client_at-drop_key h (e ∷ es) = elim (Bool-cases (e.0 == h)) [
    | inl here ↦ rw here (client_at-drop_key h es)
    | inr there ↦ rw (there, there) (client_at-drop_key h es)
  ]

  drop_key-other : (h k : ℕ) (es : Table) → h ≢ k → client_at k (drop_key h es) ≡ client_at k es
  drop_key-other h k [] differ = refl
  drop_key-other h k (e ∷ es) differ = ground (arith, drop_key-other h k es differ)

  -- Afterwards: the object has a client that the table holds for the node; the other nodes' entries
  -- stay; and at most one client was opened.
  pub record Connected (node : Node) (s t : Connections) : Type 0 where
    pub client : ℕ
    pub is_own : t.ssh ≡ some client
    pub is_held : client_at (node_hash node) t.existing_connections ≡ some client
    pub others_stay :
        (k : ℕ)
        → node_hash node ≢ k
        → client_at k t.existing_connections ≡ client_at k s.existing_connections
    pub opened_once : t.next ≤ s.next + 1

  opened-Connected : (node : Node) (s : Connections) → Connected node s (opened (node_hash node) s)
  opened-Connected node s = record {
    client = s.next;
    is_own = refl;
    is_held = rw (==_self (node_hash node)) refl;
    others_stay = λ k differ. ground arith;
    opened_once = omega arith;
  }

  connect_new-Connected :
      (node : Node) (s : Connections)
      → (connect_new node s).0 ≡ ok tt
      → Connected node s (connect_new node s).1
  unfolding connect_new
  connect_new-Connected node s h = elim (Option-cases (opening s node)) [
    | inl opens ↦ rw (connect_new, opens) (opened-Connected node s)
    | inr (e, fails) ↦ cc
  ]

  use_client-Connected :
      (node : Node) (s : Connections) (client : ℕ)
      → client_at (node_hash node) s.existing_connections ≡ some client
      → Connected node s (use_client client s)
  use_client-Connected node s client held = record {
    client = client;
    is_own = refl;
    is_held = held;
    others_stay = λ k differ. refl;
    opened_once = omega arith;
  }

  -- The state behind the disconnect of a node whose client is not active.
  abbrev dropped : Node → ℕ → Connections → Connections
  dropped node client s = closing (node_hash node) (some client) (use_client client s)

  dropped-Connected :
      (node : Node) (client : ℕ) (s t : Connections)
      → Connected node (dropped node client s) t
      → Connected node s t
  dropped-Connected node client s t c = record {
    client = c.client;
    is_own = c.is_own;
    is_held = c.is_held;
    others_stay = λ k differ.
        c.others_stay k differ ∙ drop_key-other (node_hash node) k s.existing_connections differ;
    opened_once = c.opened_once;
  }

  connect-absent :
      (node : Node) (s : Connections) (attempts : ℕ)
      → client_at (node_hash node) s.existing_connections ≡ none
      → connect attempts node s ≡ connect_new node s
  unfolding connect
  connect-absent node s zero absent = rw (connect, absent) refl
  connect-absent node s (suc attempts) absent = rw (connect, absent) refl

  module _ (node : Node) (s : Connections) where
    module _ (client : ℕ)
        (held : client_at (node_hash node) s.existing_connections ≡ some client) where
      connect-active :
          (attempts : ℕ)
          → is_active s client ≡ true
          → connect attempts node s ≡ (ok tt, use_client client s)
      unfolding connect
      connect-active zero active = rw (connect, held, active) refl
      connect-active (suc attempts) active = rw (connect, held, active) refl

      connect-dead :
          (attempts : ℕ)
          → is_active s client ≡ false
          → connect (suc attempts) node s ≡ connect attempts node (dropped node client s)
      unfolding connect disconnect
      connect-dead attempts dead = rw (connect, held, dead, disconnect, held) refl

      connect-refused :
          is_active s client ≡ false → connect zero node s ≡ (err io_error, use_client client s)
      unfolding connect
      connect-refused dead = rw (connect, held, dead) refl

      connect-anew :
          (attempts : ℕ)
          → is_active s client ≡ false
          → connect (suc attempts) node s ≡ connect_new node (dropped node client s)
      connect-anew attempts dead =
          connect-dead attempts dead
          ∙ connect-absent node (dropped node client s) attempts
              (client_at-drop_key (node_hash node) s.existing_connections)

  abbrev Ends : Node → Connections → Result (Unit {0}) × Connections → Type 0
  Ends node s p = p.0 ≡ ok tt → Connected node s p.1

  -- Where connecting returns, the object's client is the one that the table holds for the node; the
  -- clients of the other nodes stay, and at most one client was created, however many attempts were
  -- allowed.
  pub connect-Connected :
      (attempts : ℕ) (node : Node) (s : Connections)
      → (connect attempts node s).0 ≡ ok tt
      → Connected node s (connect attempts node s).1
  connect-Connected attempts node s =
      elim (Option-cases (client_at (node_hash node) s.existing_connections)) [
        | inl absent ↦
            subst (Ends node s) (sym (connect-absent node s attempts absent))
              (connect_new-Connected node s)
        | inr (client, held) ↦ elim (Bool-cases (is_active s client)) [
          | inl active ↦
              subst (Ends node s) (sym (connect-active node s client held attempts active))
                (λ done. use_client-Connected node s client held)
          | inr dead ↦ connect_dead-Connected attempts node s client held dead
        ]
      ]
    where
      connect_dead-Connected :
          (attempts : ℕ) (node : Node) (s : Connections) (client : ℕ)
          → client_at (node_hash node) s.existing_connections ≡ some client
          → is_active s client ≡ false
          → Ends node s (connect attempts node s)
      connect_dead-Connected zero node s client held dead =
          subst (Ends node s) (sym (connect-refused node s client held dead)) (λ failed. cc)
      connect_dead-Connected (suc attempts) node s client held dead =
          subst (Ends node s) (sym (connect-anew node s client held attempts dead)) (λ done.
            dropped-Connected node client s _
              (connect_new-Connected node (dropped node client s) done))

  connect_new_fails :
      (node : Node) (t : Connections) (e : PyError)
      → (connect_new node t).0 ≡ err e
      → opening t node ≡ some e
  unfolding connect_new
  connect_new_fails node t e h = elim (Option-cases (opening t node)) [
    | inl opens ↦ cc
    | inr (e', fails) ↦ cc
  ]

  -- A connect that may be tried again fails only as opening a new client fails, at a node that the
  -- table does not hold.
  pub connect-fails :
      (attempts : ℕ) (node : Node) (s : Connections) (e : PyError)
      → (connect (suc attempts) node s).0 ≡ err e
      → (t : Connections) × (client_at (node_hash node) t.existing_connections ≡ none)
        × (opening t node ≡ some e)
  connect-fails attempts node s e =
      elim (Option-cases (client_at (node_hash node) s.existing_connections)) [
        | inl absent ↦
            subst Fails (sym (connect-absent node s (suc attempts) absent)) (new_fails s absent)
        | inr (client, held) ↦ elim (Bool-cases (is_active s client)) [
          | inl active ↦
              subst Fails (sym (connect-active node s client held (suc attempts) active))
                (λ failed. cc)
          | inr dead ↦ subst Fails (sym (connect-anew node s client held attempts dead)) (
              new_fails (dropped node client s)
                (client_at-drop_key (node_hash node) s.existing_connections))
        ]
      ]
    where
      Fails : Result (Unit {0}) × Connections → Type 0
      Fails p =
          p.0 ≡ err e
          → (t : Connections) × (client_at (node_hash node) t.existing_connections ≡ none)
            × (opening t node ≡ some e)

      new_fails :
          (t : Connections)
          → client_at (node_hash node) t.existing_connections ≡ none
          → Fails (connect_new node t)
      new_fails t absent h = (t, absent, connect_new_fails node t e h)
