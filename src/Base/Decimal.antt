-- ===== src/Base/Decimal.antt =====
-- `std::to_string` of a number that is not negative.
use websocket_proxy.Base.Tests.{Text, ltb, if◌then◌else◌}
use Prim.Native.Nat.{ℕ, zero, suc, ◌+◌, ◌/◌, ◌%◌}
use mathlib.Core.List.{[], ◌∷◌, ◌++◌}

unfoldable pub decimal : ℕ → ℕ → Text
decimal zero n = []
decimal (suc fuel) n =
    let rest = decimal fuel (n / 10) ++ (b'0' + n % 10) ∷ [] in
    if ltb n 10 then (b'0' + n) ∷ [] else rest

-- On `n + 1` rounds, each of which divides by ten.
unfoldable pub to_string : ℕ → Text
unfolding decimal
to_string n = decimal (suc n) n
