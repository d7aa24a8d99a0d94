-- ===== src/Server/Departure.antt =====
-- What is left when a client goes (src/websocket_proxy.cpp, `unregisterClient`, `closeWs`).
pub mod Clients
use websocket_proxy.Base.{
  ℕ, ◌≡◌, ◌≢◌, refl, ap, sym, ◌∙◌, Bool, true, false, Option, none, some, List, [], ◌∷◌, nat_eq,
  ◌==◌, if◌then◌else◌, Option-case, if-case, Option-cases, Bool-cases, inl, inr, arith,
}
use websocket_proxy.Base.Maps.{Map, find, erase, contains, find-erase}
use websocket_proxy.Base.Sets.{has, remove, has-remove, is_empty}
use websocket_proxy.Server.State.{
  Websocket, Server, ClientInfo, disconnecting, is_live, update, put_socket, key_of, key_eq, now,
  tick,
}
use websocket_proxy.Server.Sockets.{close_socket}
use websocket_proxy.Server.Clients.{
  close_socket_for, detach_one, detach, close_each, forget_client, unregister_found,
  unregister_client,
}
use websocket_proxy.Server.Core.{Core, SameCore-close_socket}
use websocket_proxy.Server.View.{name_of, names, view}
use websocket_proxy.Registry.Consistent.{IsConsistent}

-- An object loses no client but `pid`, and does not gain that one.
pub record Keeps (pid : ℕ) (w v : Websocket) : Type 0 where
  pub others : (q : ℕ) → q ≢ pid → has q v.clients ≡ has q w.clients
  pub free : has pid w.clients ≡ false → has pid v.clients ≡ false

-- All that taking `pid` off its sockets changes.
pub record Releases (pid : ℕ) (s t : Server) : Type 0 where
  pub clients : t.clients ≡ s.clients
  pub objects :
      (a : ℕ) (w : Websocket)
      → s.heap a ≡ some w
      → (v : Websocket) × (t.heap a ≡ some v) × Keeps pid w v
  pub fewer : (id a : ℕ) → find id t.by_id ≡ some a → find id s.by_id ≡ some a
  pub stays :
      (id a q : ℕ) (w : Websocket)
      → q ≢ pid
      → find id s.by_id ≡ some a
      → s.heap a ≡ some w
      → has q w.clients ≡ true
      → find id t.by_id ≡ some a

not_both : true ≢ false
not_both h = cc

has-empty : (q : ℕ) (xs : List ℕ) → is_empty xs ≡ true → has q xs ≡ false
unfolding has
has-empty q [] h = refl
has-empty q (x ∷ xs) h = cc

module _ {pid : ℕ} where
  Keeps-refl : (w : Websocket) → Keeps pid w w
  Keeps-refl w = record { others = λ q _. refl; free = λ h. h }

  Releases-refl : (s : Server) → Releases pid s s
  Releases-refl s = record {
    clients = refl;
    objects = λ a w e. (w, e, Keeps-refl w);
    fewer = λ id a f. f;
    stays = λ id a q w _ f _ _. f;
  }

  pub Releases-trans : {s t u : Server} → Releases pid s t → Releases pid t u → Releases pid s u
  Releases-trans k l = record {
    clients = l.clients ∙ k.clients;
    objects = λ a w e.
        let (v, e', m) = k.objects a w e in
        let (x, e'', n) = l.objects a v e' in
        (
          x,
          e'',
          record { others = λ q h. n.others q h ∙ m.others q h; free = λ h. n.free (m.free h) },
        );
    fewer = λ id a f. k.fewer id a (l.fewer id a f);
    stays = λ id a q w h f e c.
        let (v, e', m) = k.objects a w e in
        l.stays id a q v h (k.stays id a q w h f e c) e' (m.others q h ∙ c);
  }

  -- An object is written in place.
  Releases-put :
      (a : ℕ) (w v : Websocket) (s : Server)
      → s.heap a ≡ some w
      → Keeps pid w v
      → Releases pid s (put_socket a v s)
  Releases-put a w v s e k = record {
    clients = refl;
    objects = λ b u f. elim (Bool-cases (a == b)) [
      | inl same ↦
          let q : a ≡ b = ground arith in
          let p : w ≡ u = ground arith in (v, ground arith, rw (← p) k)
      | inr different ↦ (u, ground arith, Keeps-refl u)
    ];
    fewer = λ id b f. f;
    stays = λ id b q u _ f _ _. f;
  }

  -- Only the entry of one id goes, and its object has no client left.
  Releases-erase :
      (id a : ℕ) (w : Websocket) (s t : Server)
      → find id s.by_id ≡ some a
      → s.heap a ≡ some w
      → ((q : ℕ) → q ≢ pid → has q w.clients ≡ false)
      → t.clients ≡ s.clients
      → t.heap ≡ s.heap
      → t.by_id ≡ erase id s.by_id
      → Releases pid s t
  Releases-erase id a w s t f e nobody c h m = record {
    clients = c;
    objects = λ b u g. (u, ap (λ (k : ℕ → Option Websocket). k b) h ∙ g, Keeps-refl u);
    fewer = λ j b g. ground (arith, find-erase id j s.by_id, m);
    stays = λ j b q u other g k there.
        rw (m, find-erase id j s.by_id)
          (elim (Bool-cases (id == j)) [
            | inl same ↦
                let q' : id ≡ j = ground arith in
                let p : some a ≡ some b = sym f ∙ (ap (λ (i : ℕ). find i s.by_id) q' ∙ g) in
                let r : a ≡ b = ground arith in
                let o : some w ≡ some u = sym e ∙ (ap s.heap r ∙ k) in
                let o' : w ≡ u = ground arith in
                absurd (
                  not_both (
                    sym there
                    ∙ (ap (λ (x : Websocket). has q x.clients) (sym o') ∙ nobody q other)))
            | inr different ↦ rw different g
          ]);
  }

  Keeps-remove : (w : Websocket) → Keeps pid w (record w { clients = remove pid w.clients })
  Keeps-remove w = record {
    others = λ q h. ground (arith, has-remove pid q w.clients);
    free = λ h. ground (arith, has-remove pid pid w.clients);
  }

  Releases-close_socket : (a : ℕ) (s : Server) → Releases pid s (close_socket a s)
  unfolding close_socket
  Releases-close_socket a s =
      Option-case (Releases pid s) (s.heap a) s _ (λ _. Releases-refl s)
        λ w e.
          if-case (Releases pid s) (is_live w.status) _ _
            (λ _.
              let k =
                Releases-put a w (record w { status = disconnecting }) s e
                  (record { others = λ q _. refl; free = λ h. h }) in
              record { clients = k.clients; objects = k.objects; fewer = k.fewer; stays = k.stays })
            (λ _. Releases-refl s)

  Releases-detach_one : (a : ℕ) (s : Server) → Releases pid s (detach_one pid a s).1
  unfolding detach_one
  Releases-detach_one a s =
      Option-case (λ (r : Bool × Server). Releases pid s r.1) (s.heap a) _ _ (λ _. Releases-refl s)
        λ w e.
          if-case (λ (r : Bool × Server). Releases pid s r.1) (has pid w.clients) _ _
            (λ _.
              Releases-put a w (record w { clients = remove pid w.clients }) s e (Keeps-remove w))
            (λ _. Releases-refl s)

  pub Releases-detach : (m : Map ℕ ℕ) (s : Server) → Releases pid s (detach pid m s).1
  unfolding detach
  Releases-detach [] s = Releases-refl s
  Releases-detach ((id, a) ∷ m) s =
      Releases-trans (Releases-detach_one a s) (Releases-detach m (detach_one pid a s).1)

  Releases-close_socket_for : (id : ℕ) (s : Server) → Releases pid s (close_socket_for id pid s)
  unfolding close_socket_for
  Releases-close_socket_for id s =
      Option-case (Releases pid s) (find id s.by_id) s _ (λ _. Releases-refl s)
        λ a f.
          Option-case (Releases pid s) (s.heap a) s _ (λ _. Releases-refl s)
            λ w e.
              let w' = record w { clients = remove pid w.clients } in
              let t' = put_socket a w' s in
              let k =
                Releases-trans (Releases-put a w w' s e (Keeps-remove w))
                  (Releases-close_socket a t') in
              if-case (Releases pid s) (is_empty (remove pid w.clients)) _ _
                (λ gone.
                  let (v, e', m) = (Releases-close_socket a t').objects a w' (ground arith) in
                  let same = SameCore-close_socket a t' in
                  Releases-trans k (
                    Releases-erase id a v (close_socket a t') _
                      (ap (λ (c : Core). find id c.by_id) same.same ∙ f) e'
                      (λ q h. m.others q h ∙ has-empty q (remove pid w.clients) gone) refl refl
                      (ap (λ (c : Core). erase id c.by_id) (sym same.same))))
                (λ _. Releases-put a w w' s e (Keeps-remove w))

  pub Releases-close_each : (ids : List ℕ) (s : Server) → Releases pid s (close_each pid ids s)
  unfolding close_each
  Releases-close_each [] s = Releases-refl s
  Releases-close_each (id ∷ ids) s =
      Releases-trans (Releases-close_socket_for id s)
        (Releases-close_each ids (close_socket_for id pid s))

module _ (pid : ℕ) where
  -- The objects of the map that is gone through lose the client.
  free_one :
      (a : ℕ) (w : Websocket) (s : Server)
      → s.heap a ≡ some w
      → (v : Websocket) × ((detach_one pid a s).1.heap a ≡ some v) × (has pid v.clients ≡ false)
  unfolding detach_one
  free_one a w s e = elim (Bool-cases (has pid w.clients)) [
    | inl there ↦
        let w' = record w { clients = remove pid w.clients } in
        (w', rw (e, there, detach_one) (ground arith), ground (arith, has-remove pid pid w.clients))
    | inr away ↦ (w, rw (e, away, detach_one) e, away)
  ]

  pub free_all :
      (id a : ℕ) (w : Websocket) (m : Map ℕ ℕ) (s : Server)
      → find id m ≡ some a
      → s.heap a ≡ some w
      → (v : Websocket) × ((detach pid m s).1.heap a ≡ some v) × (has pid v.clients ≡ false)
  unfolding detach find
  free_all id a w [] s f e = cc
  free_all id a w ((j, b) ∷ m) s f e = elim (Bool-cases (j == id)) [
    | inl here_it_is ↦
        let q : b ≡ a = ground arith in
        let e'' : s.heap b ≡ some w = ap s.heap q ∙ e in
        let (v, e', h) = free_one b w s e'' in
        let (x, k, n) = (Releases-detach {pid = pid} m (detach_one pid b s).1).objects b v e' in
        (x, ap (detach pid m (detach_one pid b s).1).1.heap (sym q) ∙ k, n.free h)
    | inr further ↦
        let (v, e', n) = (Releases-detach_one {pid = pid} b s).objects a w e in
        free_all id a v m (detach_one pid b s).1 (ground arith) e'
  ]
