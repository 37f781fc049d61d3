-- ===== src/Base/Text.antt =====
-- The texts that the code builds with `+` and fmt.Sprintf's %s and %d.
use Prim.Native.Nat.{ℕ, zero, suc, ◌/◌, ◌%◌, Ordering}
use Prim.Native.String.{String, ◌++◌, slice, compare}
use mathlib.Core.Bool.{Bool, true, false}
use mathlib.Core.List.{List, [], ◌∷◌}
use distributed_test_runner.Base.Tests.{leb, if◌then◌else◌}
use distributed_test_runner.Base.Int.{ℤ, pos, negsuc}

abbrev pub concat : List String → String
concat [] = ""
concat (s ∷ []) = s
concat (s ∷ t ∷ ts) = s ++ concat (t ∷ ts)

-- The digit below ten.
abbrev digit : ℕ → String
digit n = slice "0123456789" n (suc n)

-- The digits of `n` before the text `rest`; a number below 2^fuel has at most `fuel` of them.
unfoldable pub digits_before : ℕ → ℕ → String → String
digits_before zero n rest = rest
digits_before (suc fuel) n rest =
    let here = digit (n % 10) ++ rest in
    let more = digits_before fuel (n / 10) here in if leb n 9 then here else more

-- %d of a number below 2^64
unfoldable pub decimal : ℕ → String
unfolding digits_before
decimal n = digits_before 64 n ""

-- %d of an int
unfoldable pub decimal_int : ℤ → String
unfolding decimal
decimal_int (pos n) = decimal n
decimal_int (negsuc n) = "-" ++ decimal (suc n)

-- a < b for Go strings, which orders them by their bytes
abbrev pub text_less : String → String → Bool
text_less a b = elim (compare a b) [ Ordering.lt ↦ true | _ ↦ false ]
