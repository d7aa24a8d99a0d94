-- ===== src/Owner/Exclusion.antt =====
-- Who owns the word, and when the processes keep to their order.
use websocket_proxy.Base.{
  ℕ, ◌≡◌, ◌≢◌, refl, subst, inl, inr, Bool, true, false, Option, some, ◌==◌, arith, Bool-cases,
}
use websocket_proxy.Owner.{
  Pc, absent, created, ready, loaded, trying, running, stopping, closing, gone, System, moved,
}

-- The process holds the word: it serves, or is about to, or has not cleared the word yet.
abbrev pub owns : Pc → Bool
owns (ready own) = own
owns (running own) = true
owns (stopping own) = own
owns absent = false
owns created = false
owns (loaded _) = false
owns (trying _) = false
owns closing = false
owns gone = false

-- While a process has made the mapping and not stored its id, no other one is at the compare-exchange
-- from 0.
abbrev pub IsSettled : System → Type 0
IsSettled s = (i j : ℕ) → s.pc i ≡ created → s.pc j ≢ trying 0

pub record IsOrderly (s : System) : Type 0 where
  pub owner : (i : ℕ) → owns (s.pc i) ≡ true → s.word ≡ some i
  pub named : (v : ℕ) → s.word ≡ some v → v ≢ 0 → s.pc v ≢ absent
  pub read : (i o : ℕ) → s.pc i ≡ loaded o → s.pc o ≢ absent
  pub dead : (i e : ℕ) → s.pc i ≡ trying e → e ≢ 0 → s.pc e ≡ gone
  pub zero : s.pc 0 ≡ absent
  pub fresh : (i : ℕ) → s.pc i ≡ created → s.word ≡ some 0
  pub maker : (i j : ℕ) → s.pc i ≡ created → s.pc j ≡ created → i ≡ j

-- What a move has to say for the system to stay orderly.
pub record IsFair (s : System) (i : ℕ) (w : Option ℕ) (p : Pc) : Type 0 where
  pub from : s.pc i ≢ gone
  pub to : p ≢ absent
  pub mine : owns p ≡ true → w ≡ some i
  pub theirs : (j : ℕ) → j ≢ i → owns (s.pc j) ≡ true → w ≡ some j
  pub named : (v : ℕ) → v ≢ i → w ≡ some v → v ≢ 0 → s.pc v ≢ absent
  pub read : (o : ℕ) → p ≡ loaded o → s.pc o ≢ absent
  pub dead : (e : ℕ) → p ≡ trying e → e ≢ 0 → s.pc e ≡ gone
  pub fresh : p ≡ created → w ≡ some 0
  pub makers : (j : ℕ) → j ≢ i → s.pc j ≡ created → w ≡ some 0
  pub alone : (j : ℕ) → j ≢ i → p ≡ created → s.pc j ≢ created

module _ (s : System) (i : ℕ) (w : Option ℕ) (p : Pc) (nz : i ≢ 0) (h : IsOrderly s)
    (f : IsFair s i w p) where
  at :
      (P : ℕ → Pc → Type 0)
      → P i p
      → ((j : ℕ) → j ≢ i → P j (s.pc j))
      → (j : ℕ) → P j ((moved s i w p).pc j)
  at P here there j = elim (Bool-cases (i == j)) [
    | inl same ↦ let q : i ≡ j = ground arith in rw same (subst (λ k. P k p) q here)
    | inr other ↦ rw other (there j (ground arith))
  ]

  still : (o : ℕ) → s.pc o ≢ absent → (moved s i w p).pc o ≢ absent
  still o n = at (λ k x. (s.pc k ≢ absent) → x ≢ absent) (λ _. f.to) (λ j _ m. m) o n

  pub IsOrderly-moved : IsOrderly (moved s i w p)
  IsOrderly-moved = record {
    owner = at (λ j x. owns x ≡ true → w ≡ some j) f.mine f.theirs;
    named = at (λ v x. w ≡ some v → v ≢ 0 → x ≢ absent) (λ _ _. f.to) f.named;
    read = λ j o.
        at (λ _ x. x ≡ loaded o → (moved s i w p).pc o ≢ absent) (λ e. still o (f.read o e))
          (λ k _ e. still o (h.read k o e)) j;
    dead = λ j e.
        at (λ _ x. x ≡ trying e → e ≢ 0 → (moved s i w p).pc e ≡ gone)
          (λ q n. dead_stays e (f.dead e q n)) (λ k _ q n. dead_stays e (h.dead k e q n)) j;
    zero = ground (arith, h.zero);
    fresh = at (λ _ x. x ≡ created → w ≡ some 0) f.fresh f.makers;
    maker = λ j k.
        at (λ j x. x ≡ created → (moved s i w p).pc k ≡ created → j ≡ k)
          (λ q. at (λ k y. y ≡ created → i ≡ k) (λ _. refl) (λ k n r. absurd (f.alone k n q r)) k)
          (λ j n q.
            at (λ k y. y ≡ created → j ≡ k) (λ r. absurd (f.alone j n r q)) (λ k _. h.maker j k q)
              k)
          j;
  }
    where
      dead_stays : (e : ℕ) → s.pc e ≡ gone → (moved s i w p).pc e ≡ gone
      dead_stays e q =
          at (λ k x. s.pc k ≡ gone → x ≡ gone) (λ g. absurd (f.from g)) (λ j _ g. g) e q
