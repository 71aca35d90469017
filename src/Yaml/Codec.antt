-- ===== src/Yaml/Codec.antt =====
-- A concrete function for each field of `Yaml`, with its laws: a small codec that meets what the
-- program assumes of yaml-cpp. The tests run the program with it.
use distributed_memory.Prelude.{
  ℕ, zero, suc, ◌+◌, ◌-◌, ◌≡◌, refl, ap, ◌∙◌, ℤ, pos, negsuc, Bool, false, Option, none, some, List,
  [], ◌∷◌, ◌++◌, arith, Text, ltb, nat_beq, if◌then◌else◌,
}
use mathlib.Core.List.{append_assoc, append-nil}
use distributed_memory.Yaml.{
  Yaml, Node, Nodes, Fields, scalar, sequence, mapping, nil, cons, end, field, Event, flow,
  begin_map, end_map, key, value, begin_seq, end_seq, text, serialize, serialize_nodes,
  serialize_fields, stop,
}

-- What a parser that reads the events from the last to the first has on its stack.
pub data Item : Type 0 where
  node : Node → Item
  nodes : Nodes → Item
  fields : Fields → Item

unfoldable pub push : Node → List Item → List Item
push n (nodes ns ∷ items) = nodes (cons n ns) ∷ items
push n items = node n ∷ items

unfoldable pub parse_event : Event → List Item → List Item
parse_event end_map items = fields end ∷ items
parse_event end_seq items = nodes nil ∷ items
parse_event (text t) items = push (scalar t) items
parse_event begin_map (fields fs ∷ items) = push (mapping fs) items
parse_event begin_seq (nodes ns ∷ items) = push (sequence ns) items
parse_event key (node (scalar k) ∷ node n ∷ fields fs ∷ items) = fields (field k n fs) ∷ items
parse_event e items = items

unfoldable pub parse_events : List Event → List Item
unfolding parse_event push
parse_events [] = []
parse_events (e ∷ es) = parse_event e (parse_events es)

mutual
  unfolding parse_events serialize

  parse_serialize :
      (n : Node) (rest : List Event) → parse_events (serialize n rest) ≡ push n (parse_events rest)
  parse_serialize (scalar t) rest = refl
  parse_serialize (sequence ns) rest = ap (parse_event begin_seq) (parse_serialize_nodes ns rest)
  parse_serialize (mapping fs) rest = ap (parse_event begin_map) (parse_serialize_fields fs rest)

  parse_serialize_nodes :
      (ns : Nodes) (rest : List Event)
      → parse_events (serialize_nodes ns (end_seq ∷ rest)) ≡ nodes ns ∷ parse_events rest
  parse_serialize_nodes nil rest = refl
  parse_serialize_nodes (cons n ns) rest =
      parse_serialize n (serialize_nodes ns (end_seq ∷ rest))
      ∙ ap (push n) (parse_serialize_nodes ns rest)

  parse_serialize_fields :
      (fs : Fields) (rest : List Event)
      → parse_events (serialize_fields fs (end_map ∷ rest)) ≡ fields fs ∷ parse_events rest
  parse_serialize_fields end rest = refl
  parse_serialize_fields (field k n fs) rest =
      ap (λ items. parse_event key (push (scalar k) items))
        (parse_serialize n (serialize_fields fs (end_map ∷ rest))
          ∙ ap (push n) (parse_serialize_fields fs rest))

-- The bytes of a scalar are moved above the codes of the events and the bytes of STOP.
unfoldable pub shift : Text → Text
shift [] = []
shift (c ∷ t) = (c + 14) ∷ shift t

unfoldable pub encode_event : Event → Text
unfolding shift
encode_event begin_map = 0 ∷ []
encode_event end_map = 1 ∷ []
encode_event key = 2 ∷ []
encode_event value = 3 ∷ []
encode_event begin_seq = 4 ∷ []
encode_event end_seq = 5 ∷ []
encode_event flow = 6 ∷ []
encode_event (text t) = 7 ∷ shift t

unfoldable pub encode : List Event → Text
unfolding encode_event
encode [] = []
encode (e ∷ es) = encode_event e ++ encode es

unfoldable pub decode_code : ℕ → Text × List Event → Text × List Event
decode_code c (pending, es) =
    if ltb 13 c
    then ((c - 14) ∷ pending, es)
    else if nat_beq c 0
    then ([], begin_map ∷ es)
    else if nat_beq c 1
    then ([], end_map ∷ es)
    else if nat_beq c 2
    then ([], key ∷ es)
    else if nat_beq c 3
    then ([], value ∷ es)
    else if nat_beq c 4
    then ([], begin_seq ∷ es)
    else if nat_beq c 5
    then ([], end_seq ∷ es)
    else if nat_beq c 6
    then ([], flow ∷ es)
    else if nat_beq c 7
    then ([], text pending ∷ es)
    else ([], es)

unfoldable pub decode : Text → Text × List Event
unfolding decode_code
decode [] = ([], [])
decode (c ∷ t) = decode_code c (decode t)

decode_byte : (c : ℕ) (r : Text × List Event) → decode_code (c + 14) r ≡ (c ∷ r.0, r.1)
unfolding decode_code
decode_byte c r = ground arith

decode-shift : (t rest : Text) → decode (shift t ++ rest) ≡ (t ++ (decode rest).0, (decode rest).1)
unfolding decode shift
decode-shift [] rest = refl
decode-shift (c ∷ t) rest =
    ap (decode_code (c + 14)) (decode-shift t rest)
    ∙ decode_byte c (t ++ (decode rest).0, (decode rest).1)

decode-event :
    (e : Event) (rest : Text) (es : List Event)
    → decode rest ≡ ([], es)
    → decode (encode_event e ++ rest) ≡ ([], e ∷ es)
unfolding decode encode_event
decode-event (text t) rest es h =
    ap (decode_code 7) (decode-shift t rest ∙ ap (λ r. (t ++ r.0, r.1)) h)
    ∙ ap (λ s. ([], text s ∷ es)) (append-nil t)
decode-event flow rest es h = ap (decode_code 6) h
decode-event begin_map rest es h = ap (decode_code 0) h
decode-event end_map rest es h = ap (decode_code 1) h
decode-event key rest es h = ap (decode_code 2) h
decode-event value rest es h = ap (decode_code 3) h
decode-event begin_seq rest es h = ap (decode_code 4) h
decode-event end_seq rest es h = ap (decode_code 5) h

decode-encode : (es : List Event) → decode (encode es ++ stop) ≡ ([], es)
unfolding encode
decode-encode [] = unfold decode in refl
decode-encode (e ∷ es) =
    ap decode (append_assoc (encode_event e) (encode es) stop)
    ∙ decode-event e (encode es ++ stop) es (decode-encode es)

unfoldable pub root : List Item → Option Node
root (node n ∷ items) = some n
root _ = none

-- Nothing throws: a text that is no document leaves no node.
unfoldable pub load : Text → Option Node → Option Node × Bool
unfolding root
load t old = (root (parse_events (decode t).1), false)

pub load-encode :
    (n : Node) (old : Option Node)
    → load (encode (flow ∷ serialize n []) ++ stop) old ≡ (some n, false)
unfolding load
load-encode n old =
    rw (decode-encode (flow ∷ serialize n [])) (ap (λ items. (root items, false)) top)
  where
    top : parse_events (flow ∷ serialize n []) ≡ node n ∷ []
    top = unfold parse_events in parse_serialize n []

unfoldable pub write_number : ℤ → Text
write_number (pos n) = 0 ∷ n ∷ []
write_number (negsuc n) = 1 ∷ n ∷ []

unfoldable pub read_number : Text → Option ℤ
read_number (zero ∷ n ∷ []) = some (pos n)
read_number (suc zero ∷ n ∷ []) = some (negsuc n)
read_number _ = none

pub read-write_number : (i : ℤ) → read_number (write_number i) ≡ some i
unfolding read_number write_number
read-write_number (pos n) = refl
read-write_number (negsuc n) = refl

-- Binary data stands behind a mark.
unfoldable pub read_data : Text → Option (List ℕ)
read_data (zero ∷ zero ∷ zero ∷ bytes) = some bytes
read_data _ = none

pub read_data_lem : (bytes : List ℕ) → read_data (0 ∷ 0 ∷ 0 ∷ bytes) ≡ some bytes
unfolding read_data
read_data_lem bytes = refl

unfoldable pub codec : Yaml
unfolding load encode decode parse_events write_number read_number read_data
codec = record {
  get_next_document = load;
  dump = encode;
  read_int = read_number;
  write_int = write_number;
  read_binary = read_data;
  write_binary = λ bytes. 0 ∷ 0 ∷ 0 ∷ bytes;
  get_next_document-dump = load-encode;
  read_int-write_int = read-write_number;
  read_binary-write_binary = read_data_lem;
}
