-- ===== src/Prelude/Int32.antt =====
-- Go's int32 as its bit pattern, a number below 2^32, with the wrap-around written out.
use Prim.Native.Nat.{ℕ, ◌+◌, ◌-◌, ◌%◌}
use Prim.Native.String.{String}
use mathlib.Core.Bool.{Bool, ◌&&◌}
use mathlib.Core.List.{[], ◌∷◌}
use aws_workload_identity_op.Prelude.Tests.{ltb, if◌then◌else◌}
use aws_workload_identity_op.Prelude.Texts.{cat, decimal}
use aws_workload_identity_op.Prelude.Int.{ℤ, pos, negsuc, sub_ℕ, pos_part, neg_part}

abbrev pub max_int32 : ℕ
max_int32 = 2147483647

abbrev pub modulus32 : ℕ
modulus32 = 4294967296

abbrev pub add32 : ℕ → ℕ → ℕ
add32 a b = (a + b) % modulus32

-- n++
abbrev pub inc32 : ℕ → ℕ
inc32 n = add32 n 1

-- n > 0, of the signed value.
abbrev pub positive32 : ℕ → Bool
positive32 n = ltb 0 n && ltb n 2147483648

-- int(n)
abbrev pub int_of_32 : ℕ → ℤ
int_of_32 n = if ltb n 2147483648 then pos n else negsuc (modulus32 - n - 1)

-- `%d` of an int32.
abbrev pub text_of_32 : ℕ → String
text_of_32 n = if ltb n 2147483648 then decimal n else cat ("-" ∷ decimal (modulus32 - n) ∷ [])

-- int(a) + int(b)
abbrev pub add_ℤ : ℤ → ℤ → ℤ
add_ℤ a b = sub_ℕ (pos_part a + pos_part b) (neg_part a + neg_part b)
