-- ===== src/Registry/Consistent.antt =====
-- What every move of the registry keeps.
pub use websocket_proxy.Registry.Invariant.{IsWaiting, IsConsistent}
use websocket_proxy.Base.{nat_eq}
use websocket_proxy.Server.State.{key_eq}
use websocket_proxy.Registry.{
  Registry, Move, count, create, abandon, enter, drop_socket, clear, Moves, stay, then_move,
}
use websocket_proxy.Registry.Invariant.Removal.{
  drop-IsConsistent, clear-IsConsistent, count-IsConsistent,
}
use websocket_proxy.Registry.Invariant.Entry.{abandon-IsConsistent, enter-IsConsistent}
use websocket_proxy.Registry.Invariant.Creation.{create-IsConsistent}

-- Every move keeps the registry consistent.
pub Move-IsConsistent : {r t : Registry} → Move r t → IsConsistent r → IsConsistent t
Move-IsConsistent {r} count c = count-IsConsistent r c
Move-IsConsistent {r} (create key) c = create-IsConsistent r c key
Move-IsConsistent {r} (abandon o os t) c = abandon-IsConsistent r c o os t
Move-IsConsistent {r} (enter o os n t e) c = enter-IsConsistent r c o os t n e
Move-IsConsistent {r} (drop_socket id a n f e) c = drop-IsConsistent r c id a n f e
Move-IsConsistent {r} (clear keys h) c = clear-IsConsistent r c keys h

pub Moves-IsConsistent : {r t : Registry} → Moves r t → IsConsistent r → IsConsistent t
Moves-IsConsistent stay c = c
Moves-IsConsistent (then_move ms m) c = Move-IsConsistent m (Moves-IsConsistent ms c)
