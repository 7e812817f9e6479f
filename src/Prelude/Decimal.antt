-- ===== src/Prelude/Decimal.antt =====
-- Decimal print, as `format!` does it for the numbers of the program.
use Prim.Native.Nat.{ℕ, zero, suc, ◌/◌, ◌%◌}
use Prim.Native.String.{String}
use arrow_kanban.Prelude.Tests.{ltb, if◌then◌else◌}
use arrow_kanban.Prelude.Texts.{◌<>◌}
use arrow_kanban.Prelude.Int.{ℤ, pos, negsuc}

unfoldable pub digit : ℕ → String
digit zero = "0"
digit (suc zero) = "1"
digit (suc (suc zero)) = "2"
digit (suc (suc (suc zero))) = "3"
digit (suc (suc (suc (suc zero)))) = "4"
digit (suc (suc (suc (suc (suc zero))))) = "5"
digit (suc (suc (suc (suc (suc (suc zero)))))) = "6"
digit (suc (suc (suc (suc (suc (suc (suc zero))))))) = "7"
digit (suc (suc (suc (suc (suc (suc (suc (suc zero)))))))) = "8"
digit _ = "9"

-- The digits of `n`; more fuel than `n` is enough, since each round divides by ten.
unfoldable pub show_fuel : ℕ → ℕ → String
unfolding digit
show_fuel zero n = ""
show_fuel (suc f) n =
    let front = show_fuel f (n / 10) in if ltb n 10 then digit n else front <> digit (n % 10)

unfoldable pub show : ℕ → String
unfolding show_fuel
show n = show_fuel (suc n) n

unfoldable pub show_ℤ : ℤ → String
unfolding show
show_ℤ (pos n) = show n
show_ℤ (negsuc n) = "-" <> show (suc n)

-- `{:03}`
unfoldable pub show_padded : ℕ → String
unfolding show
show_padded n = if ltb n 10 then "00" <> show n else if ltb n 100 then "0" <> show n else show n
