-- ===== src/Reader/Waiting.antt =====
-- The loops of the programs of test/reader/ that wait for a counter.
use distributed_memory.Prelude.{
  ℕ, zero, suc, Bool-cases, inl, inr, Ensures, ◌≡◌, refl, ℤ, pos, int_key, ltb_ℤ, true, false, ◌==◌,
  Outcome, returns, throws, undefined,
}
use distributed_memory.Yaml.{Yaml}
use distributed_memory.Network.{Network}
use distributed_memory.Client.{State, Result}
use distributed_memory.Client.Operations.{dm_block_update, dm_block_wait}
use distributed_memory.Reader.Programs.{
  Progress, goes, exits, waits, Program, continue, must, checked, load, wait_for,
}

module _ (y : Yaml) {W : Type 0} (n : Network W) where
  -- How the loop can end: with another number than 0, with exit code 1, or with a 0 after all its rounds.
  abbrev pub Ended : ℕ → Progress (Unit {0}) W → Type 0
  Ended a (goes u s) = (load s.memory a == pos 0) ≡ false
  Ended a (exits code s) = code ≡ pos 1
  Ended a (waits s) = (load s.memory a == pos 0) ≡ true

  abbrev ExitsOne : {A : Type 0} → Progress A W → Type 0
  ExitsOne (goes a s) = Unit {0}
  ExitsOne (exits code s) = code ≡ pos 1
  ExitsOne (waits s) = ⊥

  must-ExitsOne :
      (operation : State W → Result W) (s : State W) → Ensures ExitsOne (must operation s)
  must-ExitsOne operation s = called (operation s)
    where
      called :
          (r : Result W)
          → Ensures ExitsOne (
              continue
                (elim r [
                  | returns p ↦ returns (goes p.0 p.1)
                  | throws ↦ throws
                  | undefined ↦ undefined
                ])
                checked)
      called (returns (status, t)) = elim (Bool-cases (ltb_ℤ status (pos 0))) [
        | inl e ↦ rw e refl
        | inr e ↦ rw e tt
      ]
      called throws = tt
      called undefined = tt

  then-ExitsOne :
      {A B : Type 0} (o : Outcome (Progress A W)) (rest : A → Program W B)
      → Ensures ExitsOne o
      → ((a : A) (s : State W) → Ensures ExitsOne (rest a s))
      → Ensures ExitsOne (continue o rest)
  then-ExitsOne (returns (goes a s)) rest h k = k a s
  then-ExitsOne (returns (exits code s)) rest h k = h
  then-ExitsOne (returns (waits s)) rest h k = h
  then-ExitsOne throws rest h k = tt
  then-ExitsOne undefined rest h k = tt

  then-Ended :
      (a : ℕ) (o : Outcome (Progress (Unit {0}) W)) (rest : Unit {0} → Program W (Unit {0}))
      → Ensures ExitsOne o
      → ((u : Unit {0}) (s : State W) → Ensures (Ended a) (rest u s))
      → Ensures (Ended a) (continue o rest)
  then-Ended a (returns (goes u s)) rest h k = k u s
  then-Ended a (returns (exits code s)) rest h k = h
  then-Ended a (returns (waits s)) rest h k = elim h [ ]
  then-Ended a throws rest h k = tt
  then-Ended a undefined rest h k = tt

  -- The loop that waits for a counter goes on only when the counter is not 0; else it has ended the
  -- program with exit code 1, or the counter is still 0 after as many rounds as were looked at.
  pub wait_for_lem :
      (fuel : ℕ) (id : ℤ) (a : ℕ) (s : State W) → Ensures (Ended a) (wait_for y n fuel id a s)
  unfolding wait_for
  wait_for_lem zero id a s = elim (Bool-cases (load s.memory a == pos 0)) [
    | inl e ↦ rw e e
    | inr e ↦ rw e e
  ]
  wait_for_lem (suc fuel) id a s = elim (Bool-cases (load s.memory a == pos 0)) [
    | inr e ↦ rw (e, wait_for) e
    | inl e ↦
        rw (e, wait_for)
          (then-Ended a
            (continue (must (dm_block_wait y n id) s) (λ u. must (dm_block_update y n id)))
            (λ u. wait_for y n fuel id a)
            (then-ExitsOne (must (dm_block_wait y n id) s) (λ u. must (dm_block_update y n id))
              (must-ExitsOne (dm_block_wait y n id) s)
              (λ u t. must-ExitsOne (dm_block_update y n id) t))
            (λ u t. wait_for_lem fuel id a t))
  ]
