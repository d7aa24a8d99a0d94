-- ===== src/Registry.antt =====
-- The abstract view of the sockets that the proxy process keeps (src/websocket_proxy.h): which object
-- is registered under which id and which key, and which objects are still opening. What the objects
-- hold beside their names is left out, and so is the order in which handlers run.
pub mod Invariant
pub mod Consistent
use websocket_proxy.Base.{
  ℕ, suc, ◌+◌, ◌*◌, ◌≡◌, Option, none, some, List, [], ◌∷◌, nat_eq, ◌==◌, if◌then◌else◌, Takes,
}
use websocket_proxy.Base.Maps.{Map, find, erase, emplace}
use websocket_proxy.Server.State.{WebsocketKey, key_eq}

-- What an object is called for as long as it lives.
pub record Name : Type 0 where
  pub id : ℕ
  pub key : WebsocketKey

-- An opening: its object, and the key that its request asks for.
pub record Ticket : Type 0 where
  pub address : ℕ
  pub key : WebsocketKey

-- `base` and `top` number the ids: `base` is below all of them, and `base + top` is the newest.
pub record Registry : Type 0 where
  pub by_id : Map ℕ ℕ
  pub by_key : Map WebsocketKey ℕ
  pub names : ℕ → Option Name
  pub opening : List Ticket
  pub base : ℕ
  pub top : ℕ
  pub allocated : ℕ

abbrev pub named : (ℕ → Option Name) → ℕ → Name → ℕ → Option Name
named names a n j = if a == j then some n else names j

pub data Move (r : Registry) : Registry → Type 0 where
  -- a number is used up
  count : Move r (record r { top = r.top + 1 })
  -- an object is made, and begins to open
  create :
      (key : WebsocketKey)
      → Move r (record r {
        names = named r.names r.allocated (record { id = r.base + (r.top + 1); key = key });
        opening = record { address = r.allocated; key = key } ∷ r.opening;
        top = r.top + 1;
        allocated = suc r.allocated;
      })
  -- an opening fails
  abandon :
      (o : Ticket) (os : List Ticket) → Takes o r.opening os → Move r (record r { opening = os })
  -- an opening succeeds, and the object is registered
  enter :
      (o : Ticket) (os : List Ticket) (n : Name)
      → Takes o r.opening os
      → r.names o.address ≡ some n
      → Move r (record r {
        opening = os;
        by_id = emplace n.id o.address r.by_id;
        by_key = emplace o.key o.address r.by_key;
      })
  -- a registered object is dropped, with whatever its key leads to
  drop_socket :
      (id a : ℕ) (n : Name)
      → find id r.by_id ≡ some a
      → r.names a ≡ some n
      → Move r (record r { by_id = erase id r.by_id; by_key = erase n.key r.by_key })
  -- nothing is registered any more
  clear :
      (keys : Map WebsocketKey ℕ)
      → ((k : WebsocketKey) → find k keys ≡ none)
      → Move r (record r { by_id = []; by_key = keys })

pub data Moves (r : Registry) : Registry → Type 0 where
  stay : Moves r r
  then_move : {t u : Registry} → Moves r t → Move t u → Moves r u

pub Moves-trans : {r t u : Registry} → Moves r t → Moves t u → Moves r u
Moves-trans p stay = p
Moves-trans p (then_move q m) = then_move (Moves-trans p q) m
