-- ===== src/Url/Find.antt =====
-- `std::string::find`, with `none` for `npos`.
use websocket_proxy.Base.{
  ℕ, ◌+◌, ◌≡◌, refl, Bool, true, false, ◌&&◌, Option, none, some, [], ◌∷◌, ◌++◌, Text,
  if◌then◌else◌, ◌==◌, drop, length, arith,
}

unfoldable pub starts_with : Text → Text → Bool
starts_with [] t = true
starts_with (p ∷ ps) [] = false
starts_with (p ∷ ps) (c ∷ t) = p == c && starts_with ps t

abbrev pub plus : ℕ → Option ℕ → Option ℕ
plus n none = none
plus n (some i) = some (n + i)

-- t.find(pattern), of a pattern that is not empty
unfoldable pub index_of : Text → Text → Option ℕ
unfolding starts_with
index_of pattern [] = none
index_of pattern (c ∷ t) =
    let rest = index_of pattern t in if starts_with pattern (c ∷ t) then some 0 else plus 1 rest

-- t.find(pattern, start)
unfoldable pub index_from : Text → ℕ → Text → Option ℕ
unfolding index_of
index_from pattern start t = plus start (index_of pattern (drop start t))

-- The byte does not occur in the text.
abbrev pub Lacks : ℕ → Text → Type 0
Lacks c [] = Unit {0}
Lacks c (x ∷ t) = ((c == x) ≡ false) × Lacks c t

starts_with-append : (ps t : Text) → starts_with ps (ps ++ t) ≡ true
unfolding starts_with
starts_with-append [] t = refl
starts_with-append (p ∷ ps) t = ground (arith, starts_with-append ps t)

-- A pattern is found after a text that lacks its first byte.
pub index_of-append :
    (c : ℕ) (ps t u : Text) → Lacks c t → index_of (c ∷ ps) (t ++ (c ∷ ps ++ u)) ≡ some (length t)
unfolding index_of
index_of-append c ps [] u h = ground (arith, starts_with-append ps u)
index_of-append c ps (x ∷ t) u h = ground (arith, index_of-append c ps t u h.1)

pub index_of-none : (c : ℕ) (ps t : Text) → Lacks c t → index_of (c ∷ ps) t ≡ none
unfolding index_of
index_of-none c ps [] h = refl
index_of-none c ps (x ∷ t) h = ground (arith, index_of-none c ps t h.1)

pub Lacks-append : (c : ℕ) (t u : Text) → Lacks c t → Lacks c u → Lacks c (t ++ u)
Lacks-append c [] u h k = k
Lacks-append c (x ∷ t) u h k = (h.0, Lacks-append c t u h.1 k)
