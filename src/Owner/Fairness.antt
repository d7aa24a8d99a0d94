-- ===== src/Owner/Fairness.antt =====
-- Each move of a process, at a system that is orderly.
use websocket_proxy.Base.{
  ℕ, ◌≡◌, ◌≢◌, refl, ap, sym, subst, ◌∙◌, inl, inr, true, false, Option, some, ◌==◌, arith,
  Bool-cases, if-case,
}
use websocket_proxy.Owner.{
  Pc, absent, created, ready, loaded, trying, running, stopping, closing, gone, is_alive, System,
  Move, creates, opens, stores, starts, loads, sees_running, sees_dead, wins, loses, ends, clears,
  keeps, closes, is_killed,
}
use websocket_proxy.Owner.Exclusion.{owns, IsSettled, IsOrderly, IsFair}

pub owns-is_alive : (p : Pc) → owns p ≡ true → is_alive p ≡ true
owns-is_alive absent q = q
owns-is_alive created q = refl
owns-is_alive (ready own) q = refl
owns-is_alive (loaded o) q = refl
owns-is_alive (trying e) q = refl
owns-is_alive (running own) q = refl
owns-is_alive (stopping own) q = refl
owns-is_alive closing q = refl
owns-is_alive gone q = q

is_dead : (p : Pc) → is_alive p ≡ false → p ≢ absent → p ≡ gone
is_dead absent q n = absurd (n refl)
is_dead created q n = cc
is_dead (ready own) q n = cc
is_dead (loaded o) q n = cc
is_dead (trying e) q n = cc
is_dead (running own) q n = cc
is_dead (stopping own) q n = cc
is_dead closing q n = cc
is_dead gone q n = refl

pub some-injective : {a b : ℕ} → some a ≡ some b → a ≡ b
some-injective q = cc

trying-injective : {a b : ℕ} → trying a ≡ trying b → a ≡ b
trying-injective q = cc

loaded-injective : {a b : ℕ} → loaded a ≡ loaded b → a ≡ b
loaded-injective q = cc

module _ (s : System) (i : ℕ) (nz : i ≢ 0) (h : IsOrderly s) where
  -- The word stays, and the process does not come to own it.
  kept :
      (p : Pc)
      → s.pc i ≢ gone
      → p ≢ absent
      → (owns p ≡ true → owns (s.pc i) ≡ true)
      → p ≢ created
      → ((o : ℕ) → p ≡ loaded o → s.pc o ≢ absent)
      → ((e : ℕ) → p ≡ trying e → e ≢ 0 → s.pc e ≡ gone)
      → IsFair s i s.word p
  kept p from to own new read dead = record {
    from = from;
    to = to;
    mine = λ q. h.owner i (own q);
    theirs = λ j _. h.owner j;
    named = λ v _. h.named v;
    read = read;
    dead = dead;
    fresh = λ q. absurd (new q);
    makers = λ j _. h.fresh j;
    alone = λ j _ q. absurd (new q);
  }

  nobody : owns (s.pc 0) ≢ true
  nobody q = let none_there : owns absent ≡ true = sym (ap owns h.zero) ∙ q in cc

  -- The process that a compare-exchange expects does not own the word.
  expected_owner : (e : ℕ) → s.pc i ≡ trying e → owns (s.pc e) ≢ true
  expected_owner e a q = elim (Bool-cases (e == 0)) [
    | inl z ↦
        let z' : e ≡ 0 = ground arith in
        let nobody : owns absent ≡ true = sym (ap owns (ap s.pc z' ∙ h.zero)) ∙ q in cc
    | inr n ↦ let nobody : owns gone ≡ true = sym (ap owns (h.dead i e a (ground arith))) ∙ q in cc
  ]

  pub Move-IsFair : {w : Option ℕ} {p : Pc} → IsSettled s → Move s i w p → IsFair s i w p
  Move-IsFair settled (creates a n) = record {
    from = λ q. cc;
    to = λ q. cc;
    mine = λ q. cc;
    theirs = λ j _ q. cc (h.owner j q);
    named = λ v _ q m. absurd (m (sym (some-injective q)));
    read = λ o q. cc;
    dead = λ e q. cc;
    fresh = λ q. refl;
    makers = λ j _ q. refl;
    alone = λ j _ _ q. cc (h.fresh j q);
  }
  Move-IsFair settled (opens w a n) =
      kept (ready false) (λ q. cc) (λ q. cc) (λ q. cc) (λ q. cc) (λ o q. cc) (λ e q. cc)
  Move-IsFair settled (stores a) = record {
    from = λ q. cc;
    to = λ q. cc;
    mine = λ q. refl;
    theirs = λ j n q.
        let zero : 0 ≡ j = some-injective (sym (h.fresh i a) ∙ h.owner j q) in
        absurd (nobody (ap (λ k. owns (s.pc k)) zero ∙ q));
    named = λ v n q. absurd (n (sym (some-injective q)));
    read = λ o q. cc;
    dead = λ e q. cc;
    fresh = λ q. cc;
    makers = λ j n q. absurd (n (h.maker j i q a));
    alone = λ j _ q. cc;
  }
  Move-IsFair settled (starts a) =
      kept (running true) (λ q. cc) (λ q. cc) (λ q. ap owns a) (λ q. cc) (λ o q. cc) (λ e q. cc)
  Move-IsFair settled (loads w a n) =
      if-case (IsFair s i s.word) (w == 0) (trying 0) (loaded w)
        (λ _.
          kept (trying 0) (λ q. cc) (λ q. cc) (λ q. cc) (λ q. cc) (λ o q. cc)
            (λ e q m. absurd (m (sym (trying-injective q)))))
        (λ z.
          kept (loaded w) (λ q. cc) (λ q. cc) (λ q. cc) (λ q. cc)
            (λ o q. subst (λ v. s.pc v ≢ absent) (loaded-injective q) (h.named w n (ground arith)))
            (λ e q. cc))
  Move-IsFair settled (sees_running o a _) =
      kept gone (λ q. cc) (λ q. cc) (λ q. cc) (λ q. cc) (λ o q. cc) (λ e q. cc)
  Move-IsFair settled (sees_dead o a d) =
      kept (trying o) (λ q. cc) (λ q. cc) (λ q. cc) (λ q. cc) (λ o q. cc)
        (λ e q _.
          subst (λ v. s.pc v ≡ gone) (trying-injective q) (is_dead (s.pc o) d (h.read i o a)))
  Move-IsFair settled (wins e a n) = record {
    from = λ q. cc;
    to = λ q. cc;
    mine = λ q. refl;
    theirs = λ j m q.
        let same : e ≡ j = some-injective (sym n ∙ h.owner j q) in
        absurd (expected_owner e a (ap (λ k. owns (s.pc k)) same ∙ q));
    named = λ v m q. absurd (m (sym (some-injective q)));
    read = λ o q. cc;
    dead = λ o q. cc;
    fresh = λ q. cc;
    makers = λ j _ q.
        let zero : e ≡ 0 = some-injective (sym n ∙ h.fresh j q) in
        absurd (settled j i q (a ∙ ap trying zero));
    alone = λ j _ q. cc;
  }
  Move-IsFair settled (loses e w a n m) =
      if-case (IsFair s i s.word) (w == 0) (trying 0) gone
        (λ _.
          kept (trying 0) (λ q. cc) (λ q. cc) (λ q. cc) (λ q. cc) (λ o q. cc)
            (λ e q m. absurd (m (sym (trying-injective q)))))
        (λ _. kept gone (λ q. cc) (λ q. cc) (λ q. cc) (λ q. cc) (λ o q. cc) (λ e q. cc))
  Move-IsFair settled (ends own a) =
      kept (stopping own) (λ q. cc) (λ q. cc) (λ q. ap owns a) (λ q. cc) (λ o q. cc) (λ e q. cc)
  Move-IsFair settled (clears a) = record {
    from = λ q. cc;
    to = λ q. cc;
    mine = λ q. cc;
    theirs = λ j m q. absurd (m (some-injective (sym (h.owner j q) ∙ h.owner i (ap owns a))));
    named = λ v m q k. absurd (k (sym (some-injective q)));
    read = λ o q. cc;
    dead = λ e q. cc;
    fresh = λ q. cc;
    makers = λ j _ q. refl;
    alone = λ j _ q. cc;
  }
  Move-IsFair settled (keeps a) =
      kept closing (λ q. cc) (λ q. cc) (λ q. cc) (λ q. cc) (λ o q. cc) (λ e q. cc)
  Move-IsFair settled (closes a) =
      kept gone (λ q. cc) (λ q. cc) (λ q. cc) (λ q. cc) (λ o q. cc) (λ e q. cc)
  Move-IsFair settled (is_killed a) =
      kept gone (λ q. cc) (λ q. cc) (λ q. cc) (λ q. cc) (λ o q. cc) (λ e q. cc)
