-- ===== src/Registry/Invariant/Removal.antt =====
-- The invariant of the registry when a socket is dropped, and when all are.
use websocket_proxy.Base.{ℕ, ◌+◌, ◌≡◌, refl, none, some, List, [], nat_eq, Takes, arith}
use websocket_proxy.Base.Maps.{Map, find, erase, find-erase}
use websocket_proxy.Server.State.{WebsocketKey, key_eq, key_beq_iff}
use websocket_proxy.Registry.{Name, Ticket, Registry}
use websocket_proxy.Registry.Invariant.{IsWaiting, IsConsistent}

module _ (r : Registry) (c : IsConsistent r) where
  drop-registered :
      (a : ℕ) (n : Name)
      → find n.id r.by_id ≡ some a
      → r.names a ≡ some n
      → (id b : ℕ) → find id (erase n.id r.by_id) ≡ some b
      → (m : Name) × (r.names b ≡ some m) × (m.id ≡ id)
  drop-registered a n f e id b q = c.registered id b (ground (arith, find-erase n.id id r.by_id))

  drop-keyed :
      (a : ℕ) (n : Name)
      → find n.id r.by_id ≡ some a
      → r.names a ≡ some n
      → (k : WebsocketKey) (b : ℕ) → find k (erase n.key r.by_key) ≡ some b
      → (m : Name) × (r.names b ≡ some m) × (m.key ≡ k) × (find m.id (erase n.id r.by_id) ≡ some b)
  drop-keyed a n f e k b q =
      let old : find k r.by_key ≡ some b = ground (arith, find-erase n.key k r.by_key) in
      let (m, known, key, there) = c.keyed k b old in
      (
        m,
        known,
        key,
        ground (
          arith,
          find-erase n.id m.id r.by_id,
          find-erase n.key k r.by_key,
          key_beq_iff n.key k,
          c.unique a b n m,
        ),
      )

  drop-IsWaiting :
      (a : ℕ) (n : Name)
      → find n.id r.by_id ≡ some a
      → r.names a ≡ some n
      → (o : Ticket) (os : List Ticket) → Takes o r.opening os
      → IsWaiting (record r { by_id = erase n.id r.by_id; by_key = erase n.key r.by_key }) o
  drop-IsWaiting a n f e o os t =
      let w = c.waiting o os t in
      record {
        name = w.name;
        known = w.known;
        key = w.key;
        absent = ground (arith, find-erase n.id w.name.id r.by_id, w.absent);
      }

  pub drop-IsConsistent :
      (id a : ℕ) (n : Name)
      → find id r.by_id ≡ some a
      → r.names a ≡ some n
      → IsConsistent (record r { by_id = erase id r.by_id; by_key = erase n.key r.by_key })
  drop-IsConsistent id a n f e =
      let (m, known, same) = c.registered id a f in
      let q : n.id ≡ id = ground arith in
      rw (← q) (record {
        registered = drop-registered a n (rw q f) e;
        keyed = drop-keyed a n (rw q f) e;
        waiting = drop-IsWaiting a n (rw q f) e;
        distinct = c.distinct;
        unique = c.unique;
        numbered = c.numbered;
      })

  pub clear-IsConsistent :
      (keys : Map WebsocketKey ℕ)
      → ((k : WebsocketKey) → find k keys ≡ none)
      → IsConsistent (record r { by_id = []; by_key = keys })
  unfolding find
  clear-IsConsistent keys h = record {
    registered = λ id a f. cc;
    keyed = λ k a f. cc (h k);
    waiting = λ o os t.
        let w = c.waiting o os t in
        record { name = w.name; known = w.known; key = w.key; absent = refl };
    distinct = c.distinct;
    unique = c.unique;
    numbered = c.numbered;
  }

  pub count-IsConsistent : IsConsistent (record r { top = r.top + 1 })
  count-IsConsistent = record {
    registered = c.registered;
    keyed = c.keyed;
    waiting = λ o os t.
        let w = c.waiting o os t in
        record { name = w.name; known = w.known; key = w.key; absent = w.absent };
    distinct = c.distinct;
    unique = c.unique;
    numbered = λ a n e. let h = c.numbered a n e in (h.0, omega arith, h.2);
  }
