-- ===== src/Registry/Invariant.antt =====
-- The invariant of the registry: the maps agree with each other and with the objects' names.
pub mod Removal
pub mod Entry
pub mod Creation
use websocket_proxy.Base.{
  ℕ, suc, ◌+◌, ◌≤◌, ◌<◌, ◌≡◌, ◌≢◌, refl, none, some, List, [], ◌∷◌, nat_eq, ◌==◌, Takes, arith,
  Takes-swap, Takes-cons, subst, ap, Bool-cases, Option-cases, sym, ◌∙◌, inl, inr,
}
use websocket_proxy.Base.Maps.{
  Map, find, erase, emplace, find-erase, find-emplace, find-emplace-some, find-emplace_new,
}
use websocket_proxy.Server.State.{WebsocketKey, key_eq, key_beq_iff}
use websocket_proxy.Registry.{
  Name, Ticket, Registry, named, Move, count, create, abandon, enter, drop_socket, clear, Moves,
  stay, then_move,
}

-- The ticket's object has the key that is asked for, and is not registered.
pub record IsWaiting (r : Registry) (o : Ticket) : Type 0 where
  pub name : Name
  pub known : r.names o.address ≡ some name
  pub key : name.key ≡ o.key
  pub absent : find name.id r.by_id ≡ none

pub record IsConsistent (r : Registry) : Type 0 where
  pub registered :
      (id a : ℕ) → find id r.by_id ≡ some a → (n : Name) × (r.names a ≡ some n) × (n.id ≡ id)
  pub keyed :
      (k : WebsocketKey) (a : ℕ)
      → find k r.by_key ≡ some a
      → (n : Name) × (r.names a ≡ some n) × (n.key ≡ k) × (find n.id r.by_id ≡ some a)
  pub waiting : (o : Ticket) (os : List Ticket) → Takes o r.opening os → IsWaiting r o
  pub distinct :
      (o p : Ticket) (os ps : List Ticket)
      → Takes o r.opening os
      → Takes p os ps
      → o.address ≢ p.address
  pub unique :
      (a b : ℕ) (m n : Name) → r.names a ≡ some m → r.names b ≡ some n → m.id ≡ n.id → a ≡ b
  pub numbered :
      (a : ℕ) (n : Name)
      → r.names a ≡ some n
      → (r.base < n.id) × (n.id ≤ r.base + r.top) × (a < r.allocated)
