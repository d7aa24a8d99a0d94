-- ===== src/Server/Departure/Clients.antt =====
-- Which clients and sockets are left when a client unregisters or falls silent
-- (src/websocket_proxy.cpp, `unregisterClient`, `checkHeartbeats`).
use websocket_proxy.Base.{
  ℕ, ◌≡◌, ◌≢◌, refl, ap, sym, ◌∙◌, Bool, true, false, Option, none, some, [], ◌∷◌, nat_eq, ◌==◌,
  if◌then◌else◌, if-case, Bool-cases, inl, inr, arith, All, ltb, ◌||◌, ◌&&◌,
}
use websocket_proxy.Base.Maps.{Map, find, erase, contains, find-erase}
use websocket_proxy.Base.Sets.{has, is_empty}
use websocket_proxy.Protocol.{sub64, heartbeat_interval}
use websocket_proxy.Server.State.{Websocket, Server, ClientInfo, now, tick}
use websocket_proxy.Server.Callbacks.{send_heartbeat, send_message_at}
use websocket_proxy.Server.Clients.{
  detach, close_each, forget_client, unregister_found, unregister_client, is_lost, expire_clients,
  check_heartbeats,
}
use websocket_proxy.Server.View.{name_of, view}
use websocket_proxy.Registry.{Name}
use websocket_proxy.Registry.Consistent.{IsConsistent}
use websocket_proxy.Server.Departure.{
  Releases-trans, Releases-detach, Releases-close_each, free_all,
}

-- `forget_client` takes the client off the list, and leaves the sockets.
record Forgets (pid : ℕ) (s t : Server) : Type 0 where
  clients : t.clients ≡ erase pid s.clients
  heap : t.heap ≡ s.heap
  by_id : t.by_id ≡ s.by_id

Forgets-forget_client : (pid : ℕ) (s : Server) → Forgets pid s (forget_client pid s)
unfolding forget_client
Forgets-forget_client pid s =
    if-case (Forgets pid s) (is_empty (erase pid s.clients)) _ _
      (λ _. record { clients = refl; heap = refl; by_id = refl })
      (λ _. record { clients = refl; heap = refl; by_id = refl })

-- Client `pid` is gone; the other clients, and the sockets of those, are there as before.
pub record IsGone (pid : ℕ) (s t : Server) : Type 0 where
  pub client : find pid t.clients ≡ none
  pub others : (q : ℕ) → q ≢ pid → find q t.clients ≡ find q s.clients
  pub freed :
      (id a : ℕ)
      → find id t.by_id ≡ some a
      → (w : Websocket) × (t.heap a ≡ some w) × (has pid w.clients ≡ false)
  pub kept :
      (id a q : ℕ) (w : Websocket)
      → q ≢ pid
      → find id s.by_id ≡ some a
      → s.heap a ≡ some w
      → has q w.clients ≡ true
      → (find id t.by_id ≡ some a)
        × ((v : Websocket) × (t.heap a ≡ some v) × (has q v.clients ≡ true))

-- An object that has a name is there.
named_object :
    (o : Option Websocket) (n : Name)
    → elim o [ none ↦ none | some w ↦ some (name_of w) ] ≡ some n
    → (w : Websocket) × (o ≡ some w)
named_object none n h = cc
named_object (some w) n h = (w, refl)

module _ (pid : ℕ) (s : Server) where
  unregister_found-clients : (unregister_found pid s).clients ≡ erase pid s.clients
  unfolding unregister_found
  unregister_found-clients =
      let r = Releases-trans {pid = pid} (Releases-detach s.by_id s) (Releases-close_each _ _) in
      (Forgets-forget_client pid _).clients ∙ ap (erase pid) r.clients

  pub registered_object :
      IsConsistent (view s)
      → (id a : ℕ) → find id s.by_id ≡ some a
      → (w : Websocket) × (s.heap a ≡ some w)
  registered_object c id a f = let (n, e, _) = c.registered id a f in named_object (s.heap a) n e

  unregister_found-IsGone : IsConsistent (view s) → IsGone pid s (unregister_found pid s)
  unfolding unregister_found
  unregister_found-IsGone c =
      let r = Releases-detach {pid = pid} s.by_id s in
      let d = (detach pid s.by_id s).1 in
      let k = Releases-close_each {pid = pid} (detach pid s.by_id s).0 d in
      let rk = Releases-trans r k in
      let f = Forgets-forget_client pid (close_each pid (detach pid s.by_id s).0 d) in
      record {
        client = ground (
          arith,
          f.clients,
          find-erase pid pid (close_each pid (detach pid s.by_id s).0 d).clients,
        );
        others = λ q h. ground (
          arith,
          f.clients,
          rk.clients,
          find-erase pid q (close_each pid (detach pid s.by_id s).0 d).clients,
        );
        freed = λ id a g.
            let there = rk.fewer id a (ap (find id) (sym f.by_id) ∙ g) in
            let (w, e) = registered_object c id a there in
            let (v, e', free) = free_all pid id a w s.by_id s there e in
            let (x, e'', m) = k.objects a v e' in
            (x, ap (λ (h : ℕ → Option Websocket). h a) f.heap ∙ e'', m.free free);
        kept = λ id a q w h g e there.
            let (v, e', m) = rk.objects a w e in
            (
              ap (find id) f.by_id ∙ rk.stays id a q w h g e there,
              (v, ap (λ (k : ℕ → Option Websocket). k a) f.heap ∙ e', m.others q h ∙ there),
            );
      }

  -- In a consistent state, when a registered client unregisters, it is no client any more and no
  -- registered socket has it among its clients. The other clients stay, and so does every registered
  -- socket that one of them has.
  pub unregister_client-IsGone :
      IsConsistent (view s) → contains pid s.clients ≡ true → IsGone pid s (unregister_client pid s)
  unfolding unregister_client
  unregister_client-IsGone c there = rw there (unregister_found-IsGone c)

-- Whether the loop drops the client.
abbrev drops : ℕ → ℕ → Map ℕ ClientInfo → Bool
drops time q [] = false
drops time q ((pid, c) ∷ m) = (pid == q && is_lost time c) || drops time q m

expire-find :
    (time q : ℕ) (m : Map ℕ ClientInfo) (s : Server)
    → find q (expire_clients time m s).clients ≡ (if drops time q m then none else find q s.clients)
unfolding expire_clients
expire-find time q [] s = refl
expire-find time q ((pid, c) ∷ m) s = elim (Bool-cases (is_lost time c)) [
  | inl lost ↦ rw lost (
      ground (
        arith,
        expire-find time q m (unregister_found pid s),
        unregister_found-clients pid s,
        find-erase pid q s.clients,
      ))
  | inr heard ↦ rw heard (ground (arith, expire-find time q m s))
]

drops-find :
    (time q : ℕ) (c : ClientInfo) (m : Map ℕ ClientInfo)
    → find q m ≡ some c
    → is_lost time c ≡ true
    → drops time q m ≡ true
unfolding find
drops-find time q c [] f l = cc
drops-find time q c ((pid, d) ∷ m) f l = elim (Bool-cases (pid == q)) [
  | inl same ↦ let e : d ≡ c = ground arith in rw (same, e, l) refl
  | inr different ↦ rw different (drops-find time q c m (ground arith) l)
]

drops-empty : (time q : ℕ) (m : Map ℕ ClientInfo) → is_empty m ≡ true → drops time q m ≡ false
drops-empty time q [] h = refl
drops-empty time q (x ∷ m) h = cc

-- No entry of the client is lost.
abbrev pub IsHeard : ℕ → ℕ → Map ℕ ClientInfo → Type 0
IsHeard time q = All (λ e. (e.0 == q) ≡ true → is_lost time e.1 ≡ false)

drops-IsHeard : (time q : ℕ) (m : Map ℕ ClientInfo) → IsHeard time q m → drops time q m ≡ false
drops-IsHeard time q [] h = refl
drops-IsHeard time q ((pid, c) ∷ m) (h, k) = elim (Bool-cases (pid == q)) [
  | inl same ↦ rw (same, h same) (drops-IsHeard time q m k)
  | inr different ↦ rw different (drops-IsHeard time q m k)
]

send_heartbeat-clients : (time : ℕ) (s : Server) → (send_heartbeat time s).1.clients ≡ s.clients
unfolding send_heartbeat send_message_at
send_heartbeat-clients time s =
    if-case (λ (r : Bool × Server). r.1.clients ≡ s.clients)
      (ltb heartbeat_interval (sub64 time s.last_heartbeat_time)) _ _ (λ _. refl) (λ _. refl)

check_heartbeats-find :
    (q : ℕ) (s : Server)
    → find q (check_heartbeats s).1.clients
      ≡ (if drops (now s) q s.clients then none else find q s.clients)
unfolding check_heartbeats
check_heartbeats-find q s =
    if-case
      (λ (r : Bool × Server).
        find q r.1.clients ≡ (if drops (now s) q s.clients then none else find q s.clients))
      (is_empty s.clients) _ _ (λ nobody. rw (drops-empty (now s) q s.clients nobody) refl)
      (λ _. expire-find (now s) q s.clients _ ∙ rw (send_heartbeat-clients (now s) (tick s)) refl)

nothing : {A : Type 0} {a : A} → some a ≢ none
nothing h = cc

contrary : true ≢ false
contrary h = cc

-- A client that is left after the check of the heartbeats was there before, and was last heard from,
-- over uint64_t, 30000 milliseconds ago at most.
pub check_heartbeats-left :
    (q : ℕ) (s : Server) (c : ClientInfo)
    → find q (check_heartbeats s).1.clients ≡ some c
    → (find q s.clients ≡ some c) × (is_lost (now s) c ≡ false)
check_heartbeats-left q s c f = elim (Bool-cases (drops (now s) q s.clients)) [
  | inl gone ↦ absurd (nothing (sym f ∙ (check_heartbeats-find q s ∙ rw gone refl)))
  | inr there ↦
      let g : find q s.clients ≡ some c = sym (check_heartbeats-find q s ∙ rw there refl) ∙ f in
      (
        g,
        elim (Bool-cases (is_lost (now s) c)) [
          | inl lost ↦ absurd (contrary (sym (drops-find (now s) q c s.clients g lost) ∙ there))
          | inr heard ↦ heard
        ],
      )
]

-- The check of the heartbeats leaves a client as it is if each of its entries was last heard from,
-- over uint64_t, 30000 milliseconds ago at most.
pub check_heartbeats-heard :
    (q : ℕ) (s : Server)
    → IsHeard (now s) q s.clients
    → find q (check_heartbeats s).1.clients ≡ find q s.clients
check_heartbeats-heard q s h =
    check_heartbeats-find q s ∙ rw (drops-IsHeard (now s) q s.clients h) refl
