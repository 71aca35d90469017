-- ===== src/Prelude/Keys.antt =====
-- `std::string` as its bytes, and the keys of `std::map`: types with an equality and an order test.
use Prim.Native.Char.{code}
use Prim.Native.String.{String}
use Prim.Native.Nat.{ℕ}
use mathlib.Core.Path.{◌≡◌, refl}
use mathlib.Core.Logic.{◌↔◌}
use mathlib.Core.Bool.{Bool, true, false, ◌&&◌}
use mathlib.Core.List.{List, [], ◌∷◌}
use native.Mathlib.Omega.{arith}
use distributed_memory.Prelude.Tests.{ltb, nat_beq, if◌then◌else◌}
use distributed_memory.Prelude.Int.{ℤ, int_beq, ltb_ℤ, int_beq_iff}

abbrev pub Text : Type 0
Text = List ℕ

-- The bytes of an ASCII literal.
abbrev pub codes : String → Text
codes String.[] = []
codes (String.◌∷◌ c s) = code c ∷ codes s

abbrev pub text_beq : Text → Text → Bool
text_beq [] [] = true
text_beq (a ∷ s) (b ∷ t) = nat_beq a b && text_beq s t
text_beq _ _ = false

-- `std::string::operator<`, byte by byte.
abbrev pub ltb_text : Text → Text → Bool
ltb_text [] [] = false
ltb_text [] (b ∷ t) = true
ltb_text (a ∷ s) [] = false
ltb_text (a ∷ s) (b ∷ t) = if ltb a b then true else nat_beq a b && ltb_text s t

pub text_beq_iff : (s t : Text) → (text_beq s t ≡ true) ↔ (s ≡ t)
text_beq_iff [] [] = ground arith
text_beq_iff [] (b ∷ t) = ground arith
text_beq_iff (a ∷ s) [] = ground arith
text_beq_iff (a ∷ s) (b ∷ t) = ground (arith, text_beq_iff s t)

pub record Key {ℓ} (K : Type ℓ) : Type ℓ where
  pub beq : K → K → Bool
  pub beq_iff : (a b : K) → (beq a b ≡ true) ↔ (a ≡ b)
  pub lt : K → K → Bool

instance abbrev pub int_key : Key ℤ
int_key = record { beq = int_beq; beq_iff = int_beq_iff; lt = ltb_ℤ }

instance abbrev pub text_key : Key Text
text_key = record { beq = text_beq; beq_iff = text_beq_iff; lt = ltb_text }

infix 50 ◌==◌
abbrev pub ◌==◌ {ℓ} : {K : Type ℓ} ⦃k : Key K⦄ → K → K → Bool
◌==◌ ⦃k⦄ = k.beq

module _ {ℓ} {K : Type ℓ} ⦃k : Key K⦄ where
  pub ==_iff : (a b : K) → (k.beq a b ≡ true) ↔ (a ≡ b)
  ==_iff a b = k.beq_iff a b

  pub ==_refl : (a : K) → k.beq a a ≡ true
  ==_refl a = (k.beq_iff a a).1 refl

  -- A test of a key against itself.
  pub own_key_lem {κ} : {A : Type κ} (a : K) (x z : A) → (if a == a then x else z) ≡ x
  own_key_lem a x z = rw (==_refl a) refl

  pub ==_false : (a b : K) → ¬ (a ≡ b) → k.beq a b ≡ false
  ==_false a b h = ground (arith, k.beq_iff a b)
