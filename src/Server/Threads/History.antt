-- ===== src/Server/Threads/History.antt =====
-- What any interleaving of the threads of src/server.cpp does to a block over time.
use distributed_memory.Prelude.{
  ℕ, suc, ◌+◌, ◌≤◌, ◌<◌, ◌≡◌, refl, sym, ap, ◌∙◌, inl, inr, ℤ, pos, int_key, int_max, add_one,
  add_one-pos, Option, some, List, Text, arith,
}
use distributed_memory.Yaml.{Yaml}
use distributed_memory.Server.{Server}
use distributed_memory.Server.Invariant.{IsValid}
use distributed_memory.Server.Versions.{Version, view}
use distributed_memory.Server.Answers.{Advances, handle-Advances, check_wait-view}
use distributed_memory.Server.Threads.{
  System, Step, connect, request, spurious, recheck, reply, leave, Reach,
}
use distributed_memory.Server.Threads.Waits.{Inv, Step-Inv, Reach-Inv}

-- A block at a later time, `steps` steps on: its revision has not fallen, it has grown by one step
-- at most at each step, and where it is the same the bytes are the same.
pub record Later (steps n : ℕ) (bytes : Option (List ℕ)) (v : Option Version) : Type 0 where
  pub revision : ℕ
  pub contents : Option (List ℕ)
  pub now : v ≡ some (pos revision, contents)
  pub grown : n ≤ revision
  pub bounded : revision ≤ n + steps
  pub same : revision ≡ n → contents ≡ bytes

version-injective :
    {a b : ℤ} {c d : Option (List ℕ)} → ◌≡◌ {A = Option Version} (some (a, c)) (some (b, d)) → a ≡ b
version-injective e = cc

Later-advance :
    (steps n : ℕ) (bytes : Option (List ℕ)) (old new : Option Version)
    → n + steps < int_max
    → Advances old new
    → Later steps n bytes old
    → Later (suc steps) n bytes new
Later-advance steps n bytes old new h (inl e) l = record {
  revision = l.revision;
  contents = l.contents;
  now = e ∙ l.now;
  grown = l.grown;
  bounded = omega (arith, l.bounded);
  same = l.same;
}
Later-advance steps n bytes old new h (inr (revision, was, is, e, e')) l = record {
  revision = l.revision + 1;
  contents = is;
  now =
      e'
      ∙ ap (λ i. some (i, is))
          (ap add_one here ∙ add_one-pos l.revision (omega (arith, l.bounded)));
  grown = omega (arith, l.grown);
  bounded = omega (arith, l.bounded);
  same = λ p. absurd (omega (arith, l.grown));
}
  where
    here : revision ≡ pos l.revision
    here = version-injective (sym e ∙ l.now)

module _ (y : Yaml) (client_id : ℕ → Text) where
  -- Some steps in a row.
  pub data Steps (s : System) : ℕ → System → Type 0 where
    stay : Steps s 0 s
    step : {n : ℕ} {t u : System} → Steps s n t → Step y client_id t u → Steps s (suc n) u

  pub Step-Advances :
      {s t : System} (k : ℤ)
      → Step y client_id s t
      → Inv s
      → Advances (view s.server k) (view t.server k)
  Step-Advances k (connect i a) inv = inl refl
  Step-Advances k (request i message a m e) inv =
      handle-Advances y (client_id i) message k inv.valid e
  Step-Advances k (spurious i a) inv = inl refl
  Step-Advances {s} k (recheck i {block_id} {revision} a) inv =
      inl (check_wait-view y s.server block_id revision k)
  Step-Advances k (reply i a) inv = inl refl
  Step-Advances k (leave i a b c) inv = inl refl

  pub Steps-Inv : {s : System} {n : ℕ} {t : System} → Steps s n t → Inv s → Inv t
  Steps-Inv stay inv = inv
  Steps-Inv (step p st) inv = Step-Inv y client_id st (Steps-Inv p inv)

  pub Steps-Later :
      {s : System} {m : ℕ} {t : System} (k : ℤ) (n : ℕ) (bytes : Option (List ℕ))
      → Steps s m t
      → Inv s
      → view s.server k ≡ some (pos n, bytes)
      → n + m ≤ int_max
      → Later m n bytes (view t.server k)
  Steps-Later k n bytes stay inv e h = record {
    revision = n;
    contents = bytes;
    now = e;
    grown = omega arith;
    bounded = omega arith;
    same = λ p. refl;
  }
  Steps-Later k n bytes (step {n = m} p st) inv e h =
      Later-advance m n bytes _ _ (omega arith) (Step-Advances k st (Steps-Inv p inv))
        (Steps-Later k n bytes p inv e (omega arith))

  -- A revision stands for one content. In whatever order the threads of a server run, while a
  -- revision cannot have reached INT_MAX, the revision of a block never falls, and as long as it
  -- is the same the block has the same bytes.
  pub revision_identifies_bytes :
      {start : Server} {s : System} {m : ℕ} {t : System} (k : ℤ) (n : ℕ) (bytes : Option (List ℕ))
      → IsValid start
      → Reach y client_id start s
      → Steps s m t
      → view s.server k ≡ some (pos n, bytes)
      → n + m ≤ int_max
      → Later m n bytes (view t.server k)
  revision_identifies_bytes k n bytes v r p e h =
      Steps-Later k n bytes p (Reach-Inv y client_id v r) e h
