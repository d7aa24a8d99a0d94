-- ===== src/Registry/Invariant/Entry.antt =====
-- The invariant of the registry when an opening fails or succeeds.
use websocket_proxy.Base.{
  ℕ, ◌≡◌, some, List, nat_eq, ◌==◌, Takes, arith, Takes-swap, Bool-cases, Option-cases, sym, ◌∙◌,
  inl, inr,
}
use websocket_proxy.Base.Maps.{find, emplace, find-emplace, find-emplace-some, find-emplace_new}
use websocket_proxy.Server.State.{WebsocketKey, key_eq, key_beq_iff}
use websocket_proxy.Registry.{Name, Ticket, Registry}
use websocket_proxy.Registry.Invariant.{IsWaiting, IsConsistent}

module _ (r : Registry) (c : IsConsistent r) where
  module _ (o : Ticket) (os : List Ticket) (t : Takes o r.opening os) where
    pub abandon-IsConsistent : IsConsistent (record r { opening = os })
    abandon-IsConsistent = record {
      registered = c.registered;
      keyed = c.keyed;
      waiting = λ p ps u.
          let (ws, v, _) = Takes-swap t u in
          let w = c.waiting p ws v in
          record { name = w.name; known = w.known; key = w.key; absent = w.absent };
      distinct = λ p q ps qs u v.
          let (ws, u', t') = Takes-swap t u in
          let (xs, v', _) = Takes-swap t' v in c.distinct p q ws xs u' v';
      unique = c.unique;
      numbered = c.numbered;
    }

    module _ (n : Name) (e : r.names o.address ≡ some n) where
      enter-registered :
          (id b : ℕ)
          → find id (emplace n.id o.address r.by_id) ≡ some b
          → (m : Name) × (r.names b ≡ some m) × (m.id ≡ id)
      enter-registered id b q = elim (Bool-cases (n.id == id)) [
        | inl same ↦ (
          n,
          ground (
            arith,
            find-emplace n.id id o.address r.by_id,
            (c.waiting o os t).known,
            (c.waiting o os t).absent,
          ),
          ground arith,
        )
        | inr other ↦ c.registered id b (ground (arith, find-emplace n.id id o.address r.by_id))
      ]

      enter-keyed :
          (k : WebsocketKey) (b : ℕ)
          → find k (emplace o.key o.address r.by_key) ≡ some b
          → (m : Name) × (r.names b ≡ some m)
            × (m.key ≡ k)
            × (find m.id (emplace n.id o.address r.by_id) ≡ some b)
      enter-keyed k b q = elim (Option-cases (find k r.by_key)) [
        | inl fresh ↦ (
          n,
          ground (arith, find-emplace o.key k o.address r.by_key, key_beq_iff o.key k, w.known),
          ground
              (arith, find-emplace o.key k o.address r.by_key, key_beq_iff o.key k, w.known, w.key),
          ground (
            arith,
            find-emplace o.key k o.address r.by_key,
            key_beq_iff o.key k,
            find-emplace_new n.id o.address r.by_id,
            w.known,
            w.absent,
          ),
        )
        | inr (a, old) ↦
            let (m, known, key, there) = c.keyed k b (kept a old) in
            (m, known, key, find-emplace-some n.id m.id o.address b r.by_id there)
      ]
        where
          w : IsWaiting r o
          w = c.waiting o os t

          kept : (a : ℕ) → find k r.by_key ≡ some a → find k r.by_key ≡ some b
          kept a old = old ∙ sym (find-emplace-some o.key k o.address a r.by_key old) ∙ q

      enter-IsWaiting :
          (p : Ticket) (ps : List Ticket)
          → Takes p os ps
          → IsWaiting
              (record r {
                opening = os;
                by_id = emplace n.id o.address r.by_id;
                by_key = emplace o.key o.address r.by_key;
              })
              p
      enter-IsWaiting p ps u =
          let (ws, v, _) = Takes-swap t u in
          let w = c.waiting p ws v in
          record {
            name = w.name;
            known = w.known;
            key = w.key;
            absent = ground (
              arith,
              find-emplace n.id w.name.id o.address r.by_id,
              w.absent,
              c.unique o.address p.address n w.name e w.known,
              c.distinct o p os ps t u,
            );
          }

      pub enter-IsConsistent : IsConsistent (record r {
        opening = os;
        by_id = emplace n.id o.address r.by_id;
        by_key = emplace o.key o.address r.by_key;
      })
      enter-IsConsistent = record {
        registered = enter-registered;
        keyed = enter-keyed;
        waiting = enter-IsWaiting;
        distinct = abandon-IsConsistent.distinct;
        unique = c.unique;
        numbered = c.numbered;
      }
