-- ===== src/Message/Types.antt =====
-- The names of the message types, and the table by which src/message.cpp reads them.
use distributed_memory.Prelude.{
  ◌≡◌, ◌≢◌, refl, none, some, List, [], ◌∷◌, ◌↔◌, inl, inr, ◌∙◌, sym, arith, Text, text_key, ==_iff,
  Option-cases,
}
use distributed_memory.Prelude.Assoc.{Map, find, put, find-put}
use distributed_memory.Message.{
  Message, MessageType, map, unmap, update, write, wait, ack, nack, undef, type_to_string,
  maps_initializer, type_text, type,
}

abbrev types_at_start : Map Text MessageType
types_at_start = maps_initializer []

-- What the table says of a name: UNDEF for one that is not there.
abbrev named : Map Text MessageType → Text → MessageType
named types t = elim (find t types) [ none ↦ undef | some ty ↦ ty ]

-- The type of a message under the table as it is initialised.
unfoldable pub type_of : Message → MessageType
unfolding type_text maps_initializer
type_of m = elim (type_text m) [ none ↦ undef | some t ↦ named types_at_start t ]

-- The table after the types of some messages have been asked for.
unfoldable pub types_after : List Message → Map Text MessageType
types_after [] = types_at_start
types_after (m ∷ ms) = (type m (types_after ms)).1

named-type :
    (m : Message) (types : Map Text MessageType) (t : Text)
    → named (type m types).1 t ≡ named types t
unfolding type
named-type m types t = elim (Option-cases (type_text m)) [
  | inl e ↦ rw (e, type) refl
  | inr (s, e) ↦ elim (Option-cases (find s types)) [
    | inl absent ↦ rw (e, type, absent) (ground (arith, find-put s t undef types, ==_iff s t))
    | inr (ty, here) ↦ rw (e, type, here) refl
  ]
]

named-types_after :
    (ms : List Message) (t : Text) → named (types_after ms) t ≡ named types_at_start t
unfolding types_after
named-types_after [] t = refl
named-types_after (m ∷ ms) t = named-type m (types_after ms) t ∙ named-types_after ms t

-- Unknown names that earlier messages have put into the table change no answer.
pub type-eq-type_of : (ms : List Message) (m : Message) → (type m (types_after ms)).0 ≡ type_of m
unfolding type type_of
type-eq-type_of ms m = elim (Option-cases (type_text m)) [
  | inl e ↦ rw (e, type, type_of) refl
  | inr (s, e) ↦ rw (e, type, type_of) (ground (arith, named-types_after ms s))
]

named-name : (ty : MessageType) → named types_at_start (type_to_string ty) ≡ ty
unfolding maps_initializer find put
named-name map = refl
named-name unmap = refl
named-name update = refl
named-name write = refl
named-name wait = refl
named-name ack = refl
named-name nack = refl
named-name undef = refl

-- Every entry has the name of its value for a key.
abbrev HasNames : Map Text MessageType → Type 0
HasNames [] = Unit {0}
HasNames ((t, ty) ∷ types) = (t ≡ type_to_string ty) × HasNames types

name_of_find :
    (types : Map Text MessageType) (t : Text) (ty : MessageType)
    → HasNames types
    → find t types ≡ some ty
    → t ≡ type_to_string ty
unfolding find
name_of_find [] t ty h e = cc
name_of_find ((s, ty') ∷ types) t ty h e = ground (arith, name_of_find types t ty h.1, ==_iff s t)

types_at_start-HasNames : HasNames types_at_start
unfolding maps_initializer put
types_at_start-HasNames = (refl, (refl, (refl, (refl, (refl, (refl, (refl, (refl, tt))))))))

pub type_of-name :
    (m : Message) (ty : MessageType) → type_text m ≡ some (type_to_string ty) → type_of m ≡ ty
unfolding type_of
type_of-name m ty e = rw (e, type_of) (named-name ty)

type_text_of_type :
    (m : Message) (ty : MessageType)
    → ty ≢ undef
    → type_of m ≡ ty
    → type_text m ≡ some (type_to_string ty)
unfolding type_of find put
type_text_of_type m ty h p = elim (Option-cases (type_text m)) [
  | inl e ↦ absurd (h (sym (rw (e, type_of) at p)))
  | inr (t, e) ↦ elim (Option-cases (find t types_at_start)) [
    | inl absent ↦ absurd (h (sym (rw (e, type_of, absent) at p)))
    | inr (ty', here) ↦
        cc (
          name_of_find types_at_start t ty' types_at_start-HasNames here,
          rw (e, type_of, here) at p,
        )
  ]
]

-- A message has a type other than UNDEF exactly when the text of its key `type` is the name of
-- that type, whatever messages were read before it.
pub type_lem :
    (ms : List Message) (m : Message) (ty : MessageType)
    → ty ≢ undef
    → ((type m (types_after ms)).0 ≡ ty) ↔ (type_text m ≡ some (type_to_string ty))
type_lem ms m ty h = (
  λ p. type_text_of_type m ty h (sym (type-eq-type_of ms m) ∙ p),
  λ e. type-eq-type_of ms m ∙ type_of-name m ty e,
)
