-- ===== src/BlockServer/Print.antt =====
-- The output operator of src/block_server.cpp.
use distributed_memory.Prelude.{
  ℕ, ◌≡◌, refl, ◌⊎◌, inl, inr, arith, Bool-cases, nat_beq, true, false, none, some, List, [], ◌∷◌,
  ◌++◌, Text, codes, Outcome, returns, undefined, ◌>>=◌,
}
use distributed_memory.Prelude.Decimal.{print_int}
use distributed_memory.BlockServer.{BlockServer}

-- `(char*) b.data()`: the bytes before the first zero, for which memory is read past the area if the area
-- has none.
unfoldable pub c_string : List ℕ → Outcome Text
c_string [] = undefined
c_string (b ∷ bs) = elim (nat_beq b 0) [
  | true ↦ returns []
  | false ↦ c_string bs >>= λ t. returns (b ∷ t)
]

-- A zero is among the bytes, so that they can be read as a C string.
abbrev pub HasZero : List ℕ → Type 0
HasZero [] = ⊥
HasZero (b ∷ bs) = (b ≡ 0) ⊎ HasZero bs

pub c_string-HasZero : (bs : List ℕ) → HasZero bs → (t : Text) × (c_string bs ≡ returns t)
unfolding c_string
c_string-HasZero [] h = absurd h
c_string-HasZero (b ∷ bs) h = elim (Bool-cases (nat_beq b 0)) [
  | inl first ↦ ([], rw (first, c_string) refl)
  | inr other ↦
      let (t, e) = c_string-HasZero bs (later h other) in (b ∷ t, rw (other, c_string) (rw e refl))
]
  where
    later : (b ≡ 0) ⊎ HasZero bs → nat_beq b 0 ≡ false → HasZero bs
    later (inl p) q = absurd (ground (arith, p, q))
    later (inr p) q = p

pub c_string-unterminated : (bs : List ℕ) → ¬ HasZero bs → c_string bs ≡ undefined
unfolding c_string
c_string-unterminated [] h = refl
c_string-unterminated (b ∷ bs) h = elim (Bool-cases (nat_beq b 0)) [
  | inl first ↦ absurd (h (inl (ground (arith, first))))
  | inr other ↦ rw (other, c_string) (rw (c_string-unterminated bs (λ z. h (inr z)), c_string) refl)
]

-- The data of a block can be read as a C string.
pub record IsTerminated (b : BlockServer) : Type 0 where
  pub area : List ℕ
  pub bytes : b.bytes ≡ some area
  pub zero_in : HasZero area

unfoldable pub print_clients : List Text → Text
print_clients [] = []
print_clients (client ∷ clients) = client ++ (codes ", " ++ print_clients clients)

-- operator<<
unfoldable pub print : BlockServer → Outcome Text
unfolding c_string print_clients
print b = elim b.bytes [
  | none ↦ undefined
  | some bytes ↦ c_string bytes >>= λ t. returns (
      codes "b.id(): \nBlockServer: {id: "
      ++ (print_int b.id
          ++ (codes ", revision: "
              ++ (print_int b.revision
                  ++ (codes ", mapped_clients: ["
                      ++ (print_clients b.mapped_clients
                          ++ (codes "], data: " ++ (t ++ codes "}"))))))))
]
