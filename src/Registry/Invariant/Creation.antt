-- ===== src/Registry/Invariant/Creation.antt =====
-- The invariant of the registry when an object is made.
use websocket_proxy.Base.{
  ℕ, suc, ◌+◌, ◌≤◌, ◌<◌, ◌≡◌, ◌≢◌, refl, none, some, List, ◌∷◌, nat_eq, Takes, arith, Takes-cons,
  subst, ap, Option-cases, sym, inl, inr,
}
use websocket_proxy.Base.Maps.{find}
use websocket_proxy.Server.State.{WebsocketKey, key_eq}
use websocket_proxy.Registry.{Name, Ticket, Registry, named}
use websocket_proxy.Registry.Invariant.{IsWaiting, IsConsistent}

module _ (r : Registry) (c : IsConsistent r) where
  module _ (key : WebsocketKey) where
    abbrev created : Registry
    created = record r {
      names = named r.names r.allocated (record { id = r.base + (r.top + 1); key = key });
      opening = record { address = r.allocated; key = key } ∷ r.opening;
      top = r.top + 1;
      allocated = suc r.allocated;
    }

    -- The objects that were there keep their names.
    old_name : (a : ℕ) (n : Name) → r.names a ≡ some n → created.names a ≡ some n
    old_name a n e = ground (arith, c.numbered a n e)

    fresh_id : find (r.base + (r.top + 1)) r.by_id ≡ none
    fresh_id = elim (Option-cases (find (r.base + (r.top + 1)) r.by_id)) [
      | inl none_there ↦ none_there
      | inr (a, f) ↦
          let (n, e, q) = c.registered (r.base + (r.top + 1)) a f in
          let h = c.numbered a n e in absurd (omega arith)
    ]

    create-IsWaiting :
        (o : Ticket) (os : List Ticket) → Takes o created.opening os → IsWaiting created o
    create-IsWaiting o os t = elim (Takes-cons t) [
      | inl (q, _) ↦ subst (IsWaiting created) (sym q) (record {
        name = record { id = r.base + (r.top + 1); key = key };
        known = ground arith;
        key = refl;
        absent = fresh_id;
      })
      | inr (zs, _, u) ↦
          let w = c.waiting o zs u in
          record {
            name = w.name;
            known = old_name o.address w.name w.known;
            key = w.key;
            absent = w.absent;
          }
    ]

    address_lt : (o : Ticket) (os : List Ticket) → Takes o r.opening os → o.address < r.allocated
    address_lt o os t = let w = c.waiting o os t in (c.numbered o.address w.name w.known).2

    create-distinct :
        (o p : Ticket) (os ps : List Ticket)
        → Takes o created.opening os
        → Takes p os ps
        → o.address ≢ p.address
    create-distinct o p os ps t u = elim (Takes-cons t) [
      | inl (q, z) ↦ λ same.
          let u' = subst (λ (xs : List Ticket). Takes p xs ps) z u in
          absurd (omega (arith, address_lt p ps u', ap (λ (x : Ticket). x.address) q, same))
      | inr (zs, z, t') ↦ elim (Takes-cons (subst (λ (xs : List Ticket). Takes p xs ps) z u)) [
        | inl (q, _) ↦ λ same.
            absurd (omega (arith, address_lt o zs t', ap (λ (x : Ticket). x.address) q, same))
        | inr (xs, _, u') ↦ c.distinct o p zs xs t' u'
      ]
    ]

    create_unique :
        (a b : ℕ) (m n : Name)
        → created.names a ≡ some m
        → created.names b ≡ some n
        → m.id ≡ n.id
        → a ≡ b
    create_unique a b m n e f q = ground (arith, c.numbered a m, c.numbered b n, c.unique a b m n)

    create-numbered :
        (a : ℕ) (n : Name)
        → created.names a ≡ some n
        → (r.base < n.id) × (n.id ≤ r.base + (r.top + 1)) × (a < suc r.allocated)
    create-numbered a n e = ground (arith, c.numbered a n)

    pub create-IsConsistent : IsConsistent created
    create-IsConsistent = record {
      registered = λ id a f. let (n, e, q) = c.registered id a f in (n, old_name a n e, q);
      keyed = λ k a f. let (n, e, q, g) = c.keyed k a f in (n, old_name a n e, q, g);
      waiting = create-IsWaiting;
      distinct = create-distinct;
      unique = create_unique;
      numbered = create-numbered;
    }
