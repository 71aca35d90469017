-- ===== src/Socket/Texts.antt =====
-- The unencrypted operators of src/socket/socket.cpp: a text is sent at once, and received in pieces
-- until it has the stop token.
use distributed_memory.Prelude.{
  ℕ, zero, suc, ◌<◌, ◌≤◌, ◌≡◌, refl, sym, ap, subst, ◌∙◌, arith, Bool, true, false, ◌&&◌, ◌||◌,
  List, [], ◌∷◌, ◌++◌, Text, length, length-append, take, nat_beq, Outcome, returns, throws,
  if◌then◌else◌,
}
use mathlib.Core.List.{append_assoc, append-nil}
use distributed_memory.Yaml.{stop}
use distributed_memory.Socket.{Os, failed, bytes, send, recv}
use distributed_memory.Socket.Scripts.{Script, script}

-- Socket::operator<<
unfoldable pub put_text : {W : Type 0} → Os W → Text → W → Outcome (Unit {0}) × W
put_text os s w = let (sent, w') = send os s w in (if sent then returns tt else throws, w')

-- `message += buffer`: what stands before the first zero.
unfoldable pub c_text : List ℕ → Text
c_text [] = []
c_text (b ∷ bs) = let rest = c_text bs in if nat_beq b 0 then [] else b ∷ rest

unfoldable pub begins_with : Text → Text → Bool
begins_with t [] = true
begins_with [] (b ∷ bs) = false
begins_with (a ∷ t) (b ∷ bs) = nat_beq a b && begins_with t bs

-- `message.find( Message::STOP ) != string::npos`
unfoldable pub has_stop : Text → Bool
unfolding begins_with
has_stop [] = false
has_stop (a ∷ t) = begins_with (a ∷ t) stop || has_stop t

-- How the loop of `operator>>` ends; `unfinished` is a loop that has not ended yet.
pub data Receipt : Type 0 where
  received : Text → Receipt
  peer_disconnected : Receipt
  out_of_bounds : Receipt
  unfinished : Receipt

-- TCP_BUFFER_SIZE-1
abbrev pub buffer_size : ℕ
buffer_size = 1023

-- Socket::operator>>, with the number of calls of `recv` as fuel. A failed `recv` returns -1, and the
-- element of the buffer at that index is written.
unfoldable pub receive_loop : {W : Type 0} → Os W → ℕ → Text → W → Receipt × W
unfolding c_text has_stop
receive_loop os zero message w = (unfinished, w)
receive_loop os (suc fuel) message w =
    let (r, w') = recv os buffer_size w in
    elim r [
      | failed ↦ (out_of_bounds, w')
      | bytes [] ↦ (peer_disconnected, w')
      | bytes (b ∷ bs) ↦
          let message' = message ++ c_text (b ∷ bs) in
          let rest = receive_loop os fuel message' w' in
          if has_stop message' then (received message', w') else rest
    ]

-- No stop token before the end of `acc ++ rest`, as far as it is longer than `acc`.
abbrev pub NoEarlyStop : Text → Text → Type 0
NoEarlyStop acc [] = Unit {0}
NoEarlyStop acc (b ∷ bs) = (has_stop acc ≡ false) × NoEarlyStop (acc ++ b ∷ []) bs

abbrev pub concat : List (List ℕ) → List ℕ
concat [] = []
concat (c ∷ cs) = c ++ concat cs

abbrev pub NoZero : List ℕ → Type 0
NoZero [] = Unit {0}
NoZero (b ∷ bs) = (0 < b) × NoZero bs

-- Pieces that `recv` can return, of a text without zeros.
abbrev pub ArePieces : List (List ℕ) → Type 0
ArePieces [] = Unit {0}
ArePieces (c ∷ cs) = (0 < length c) × (length c ≤ buffer_size) × NoZero c × ArePieces cs

c_text-whole : (c : List ℕ) → NoZero c → c_text c ≡ c
unfolding c_text
c_text-whole [] h = refl
c_text-whole (b ∷ bs) h = ground (arith, c_text-whole bs h.1, h.0)

take_all : (n : ℕ) (c : List ℕ) → length c ≤ n → take n c ≡ c
take_all zero [] h = refl
take_all (suc n) [] h = refl
take_all zero (b ∷ bs) h = absurd (omega (arith, h))
take_all (suc n) (b ∷ bs) h = ap (◌∷◌ b) (take_all n bs (omega (arith, h)))

NoEarlyStop-append : (acc c rest : Text) → NoEarlyStop acc (c ++ rest) → NoEarlyStop (acc ++ c) rest
NoEarlyStop-append acc [] rest h = rw (append-nil acc) h
NoEarlyStop-append acc (b ∷ bs) rest h =
    subst (λ t. NoEarlyStop t rest) (append_assoc acc (b ∷ []) bs)
      (NoEarlyStop-append (acc ++ b ∷ []) bs rest h.1)

NoEarlyStop-now : (acc rest : Text) → 0 < length rest → NoEarlyStop acc rest → has_stop acc ≡ false
NoEarlyStop-now acc [] some_bytes h = absurd (omega (arith, some_bytes))
NoEarlyStop-now acc (b ∷ bs) some_bytes h = h.0

-- One round of the loop with a piece that `recv` returns whole.
receive-piece :
    (fuel : ℕ) (message : Text) (c : List ℕ) (cs out : List (List ℕ))
    → 0 < length c
    → length c ≤ buffer_size
    → NoZero c
    → receive_loop script (suc fuel) message (record { incoming = c ∷ cs; outgoing = out }) ≡ (
        if has_stop (message ++ c)
        then (received (message ++ c), record { incoming = cs; outgoing = out })
        else receive_loop script fuel (message ++ c) (record { incoming = cs; outgoing = out }))
unfolding receive_loop recv script
receive-piece fuel message [] cs out some_bytes fits h = absurd (omega (arith, some_bytes))
receive-piece fuel message (b ∷ bs) cs out some_bytes fits h =
    rw (take_all 1022 bs (omega (arith, fits)), c_text-whole (b ∷ bs) h) refl

true_ne_false : ¬ (true ≡ false)
true_ne_false e = cc

receive_pieces :
    (message : Text) (cs out : List (List ℕ))
    → ArePieces cs
    → has_stop message ≡ false
    → has_stop (message ++ concat cs) ≡ true
    → NoEarlyStop message (concat cs)
    → receive_loop script (length cs) message (record { incoming = cs; outgoing = out })
      ≡ (received (message ++ concat cs), record { incoming = []; outgoing = out })
receive_pieces message [] out h none_yet ends early =
    absurd (true_ne_false (sym (rw (append-nil message) at ends) ∙ none_yet))
receive_pieces message (c ∷ []) out h none_yet ends early =
    receive-piece 0 message c [] out h.0 h.1 h.2
    ∙ rw (append-nil c) (rw (rw (append-nil c) at ends) refl)
receive_pieces message (c ∷ d ∷ ds) out h none_yet ends early =
    receive-piece (suc (length ds)) message c (d ∷ ds) out h.0 h.1 h.2
    ∙ rw not_yet (
        receive_pieces (message ++ c) (d ∷ ds) out h.3 not_yet
          (subst (λ t. has_stop t ≡ true) (sym (append_assoc message c (concat (d ∷ ds)))) ends)
          later
        ∙ ap (λ t. both t) (append_assoc message c (concat (d ∷ ds))))
  where
    both : Text → Receipt × Script
    both t = (received t, record { incoming = []; outgoing = out })

    more : 0 < length (concat (d ∷ ds))
    more = omega (arith, length-append d (concat ds), h.3.0)

    later : NoEarlyStop (message ++ c) (concat (d ∷ ds))
    later = NoEarlyStop-append message c (concat (d ∷ ds)) early

    not_yet : has_stop (message ++ c) ≡ false
    not_yet = NoEarlyStop-now (message ++ c) (concat (d ∷ ds)) more later

-- In however many pieces a text without zero bytes arrives, of which none is empty or larger than the
-- buffer, the loop returns the whole of it after as many calls of `recv` as there are pieces, if its
-- only stop token stands at its end.
pub receive_loop_lem :
    (cs out : List (List ℕ))
    → ArePieces cs
    → has_stop (concat cs) ≡ true
    → NoEarlyStop [] (concat cs)
    → receive_loop script (length cs) [] (record { incoming = cs; outgoing = out })
      ≡ (received (concat cs), record { incoming = []; outgoing = out })
unfolding has_stop
receive_loop_lem cs out h ends early = receive_pieces [] cs out h refl ends early
