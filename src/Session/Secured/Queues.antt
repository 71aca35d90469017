-- ===== src/Session/Secured/Queues.antt =====
-- Packets of src/socket/secure_socket.cpp that are under way on a connection, in the order in which
-- they were sent.
use distributed_memory.Prelude.{
  ℕ, ◌<◌, ◌≡◌, ◌≢◌, refl, sym, ap, ◌∙◌, List, [], ◌∷◌, ◌++◌, Text, length, returns,
}
use mathlib.Core.List.{append-nil, append_assoc}
use distributed_memory.Secure.{Crypto, encipher, decipher, put_text, get_text, text_of, plain}
use distributed_memory.Secure.Packets.{pipe, frame, send_frame, recv_frame}

module _ (c : Crypto) (session_key : List ℕ) where
  -- What the cipher has to do with a text: a packet of it can be sent and is deciphered to it.
  pub record Fits (t : Text) : Type 0 where
    pub some_text : t ≢ []
    pub inverse : decipher c session_key (encipher c session_key t) ≡ t
    pub some_bytes : 0 < length (encipher c session_key t)
    pub short : length (encipher c session_key t) < 2147483648

  pub puts :
      (t : Text) (queue : List ℕ)
      → put_text c pipe session_key t queue ≡ (returns tt, queue ++ frame c session_key t)
  unfolding put_text
  puts t queue = rw (send_frame c session_key t queue) refl

  text_of-plain : (t : Text) → t ≢ [] → text_of c pipe (plain t) ≡ returns t
  unfolding text_of
  text_of-plain [] h = absurd (h refl)
  text_of-plain (b ∷ t) h = refl

  pub gets :
      (t : Text) (rest : List ℕ)
      → Fits t
      → get_text c pipe session_key (frame c session_key t ++ rest) ≡ (returns t, rest)
  unfolding get_text
  gets t rest f =
      ap (λ r. (text_of c pipe r.0, r.1))
        (recv_frame c session_key t rest f.some_bytes f.short ∙ ap (λ m. (plain m, rest)) f.inverse)
      ∙ ap (λ o. (o, rest)) (text_of-plain t f.some_text)

  -- The bytes of texts, one packet after the other.
  abbrev pub packets : List Text → List ℕ
  packets [] = []
  packets (t ∷ ts) = frame c session_key t ++ packets ts

  -- The first of some texts and a last one, and those behind the first.
  abbrev pub first : List Text → Text → Text
  first [] a = a
  first (t ∷ ts) a = t

  abbrev pub later : List Text → Text → List Text
  later [] a = []
  later (t ∷ ts) a = ts ++ a ∷ []

  packets-append :
      (ts : List Text) (a : Text) → packets (ts ++ a ∷ []) ≡ packets ts ++ frame c session_key a
  packets-append [] a = append-nil (frame c session_key a)
  packets-append (t ∷ ts) a =
      ap (λ bs. frame c session_key t ++ bs) (packets-append ts a)
      ∙ sym (append_assoc (frame c session_key t) (packets ts) (frame c session_key a))

  pub packets-first :
      (ts : List Text) (a : Text)
      → (packets ts ++ frame c session_key a)
        ≡ frame c session_key (first ts a) ++ packets (later ts a)
  packets-first [] a = sym (append-nil (frame c session_key a))
  packets-first (t ∷ ts) a =
      append_assoc (frame c session_key t) (packets ts) (frame c session_key a)
      ∙ ap (λ bs. frame c session_key t ++ bs) (sym (packets-append ts a))
