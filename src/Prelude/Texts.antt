-- ===== src/Prelude/Texts.antt =====
-- Texts that the program assembles, and numbers in decimal.
use Prim.Native.Nat.{ℕ, zero, suc, ◌/◌, ◌%◌}
use Prim.Native.String.{String, ◌++◌}
use mathlib.Core.List.{List, [], ◌∷◌}
use aws_workload_identity_op.Prelude.Tests.{ltb, if◌then◌else◌}

-- The pieces of a format string and its arguments, one after the other.
abbrev pub cat : List String → String
cat [] = ""
cat (piece ∷ pieces) = piece ++ cat pieces

abbrev pub join : String → List String → String
join sep [] = ""
join sep (part ∷ []) = part
join sep (part ∷ parts) = part ++ (sep ++ join sep parts)

digit : ℕ → String
digit zero = "0"
digit (suc zero) = "1"
digit (suc (suc zero)) = "2"
digit (suc (suc (suc zero))) = "3"
digit (suc (suc (suc (suc zero)))) = "4"
digit (suc (suc (suc (suc (suc zero))))) = "5"
digit (suc (suc (suc (suc (suc (suc zero)))))) = "6"
digit (suc (suc (suc (suc (suc (suc (suc zero))))))) = "7"
digit (suc (suc (suc (suc (suc (suc (suc (suc zero)))))))) = "8"
digit _ = "9"

decimal_from : ℕ → ℕ → String
decimal_from zero n = ""
decimal_from (suc fuel) n =
    let more = decimal_from fuel (n / 10) ++ digit (n % 10) in if ltb n 10 then digit n else more

-- `%d` of a number that is not negative. A number has no more digits than its successor counts.
unfoldable pub decimal : ℕ → String
unfolding digit decimal_from
decimal n = decimal_from (suc n) n

-- `%q` of a text that needs no escape.
abbrev pub quote : String → String
quote s = "\"" ++ (s ++ "\"")
