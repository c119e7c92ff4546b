-- ===== src/Base/Decimal.antt =====
-- Numbers in decimal, as `format!` prints them.
use Prim.Native.Nat.{ℕ, zero, suc, ◌+◌, ◌-◌, ◌/◌, ◌%◌}
use mathlib.Core.List.{[], ◌∷◌, ◌++◌}
use cobrust_studio.Base.Tests.{ltb, if◌then◌else◌}
use cobrust_studio.Base.Lists.{length, replicate}
use cobrust_studio.Base.Texts.{Text}

digits : ℕ → ℕ → Text
digits zero n = []
digits (suc fuel) n =
    let front = digits fuel (n / 10) in
    if ltb n 10 then (b'0' + n) ∷ [] else front ++ (b'0' + n % 10) ∷ []

-- `{n}`; a `u64` has at most 20 digits
unfoldable pub decimal : ℕ → Text
unfolding digits
decimal n = digits 20 n

-- `{n:0w}`
unfoldable pub padded : ℕ → ℕ → Text
padded w n = replicate (w - length (decimal n)) b'0' ++ decimal n
