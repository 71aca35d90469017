-- ===== src/Prelude/Decimal.antt =====
-- `ostream << int`: a number in decimal digits, and the proof that they tell it apart.
use Prim.Native.Nat.{ℕ, zero, suc, ◌+◌, ◌-◌, ◌*◌, ◌/◌, ◌%◌, ◌<◌}
use mathlib.Core.Path.{◌≡◌, sym, ap, ◌∙◌}
use mathlib.Core.List.{[], ◌∷◌}
use native.Mathlib.Omega.{arith}
use distributed_memory.Prelude.Tests.{ltb, if◌then◌else◌}
use distributed_memory.Prelude.Int.{ℤ, pos, negsuc}
use distributed_memory.Prelude.Keys.{Text}

-- The digits of `n` in front of `out`; `fuel` is a number above `n`, which is more than it has digits.
unfoldable pub digits : ℕ → ℕ → Text → Text
digits zero n out = out
digits (suc fuel) n out =
    let rest = digits fuel (n / 10) ((48 + n % 10) ∷ out) in
    if ltb n 10 then (48 + n) ∷ out else rest

unfoldable pub decimal : ℕ → Text
unfolding digits
decimal n = digits (suc n) n []

unfoldable pub print_int : ℤ → Text
unfolding decimal
print_int (pos n) = decimal n
print_int (negsuc n) = 45 ∷ decimal (suc n)

-- The number that a text of digits stands for, after the digits of `n`.
unfoldable pub scan : ℕ → Text → ℕ
scan n [] = n
scan n (c ∷ t) = scan (n * 10 + (c - 48)) t

scan-digits : (fuel n : ℕ) (out : Text) → n < fuel → scan 0 (digits fuel n out) ≡ scan n out
unfolding digits scan
scan-digits zero n out h = absurd (omega (arith, h))
scan-digits (suc fuel) n out h = ground (arith, h, scan-digits fuel (n / 10) ((48 + n % 10) ∷ out))

pub scan-decimal : (n : ℕ) → scan 0 (decimal n) ≡ n
unfolding decimal scan
scan-decimal n = scan-digits (suc n) n [] (omega arith)

pub decimal-injective : (m n : ℕ) → decimal m ≡ decimal n → m ≡ n
decimal-injective m n e = sym (scan-decimal m) ∙ ap (scan 0) e ∙ scan-decimal n
