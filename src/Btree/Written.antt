-- ===== src/Btree/Written.antt =====
-- src/core/btree.rs: the bytes that the serialization of a node writes.
use jasonisnthappy.Base.{
  ℕ, ◌+◌, ◌≤◌, ◌<◌, ◌≡◌, refl, sym, ap, ◌∙◌, true, Option, none, some, List, [], ◌∷◌, ◌++◌, length,
  drop, leb, inl, inr, Bool-cases, false, append-nil, replicate, length-append, length-drop,
  length-replicate, arith, append_assoc,
}
use jasonisnthappy.Base.Bytes.{copy_at-append, to_le, drop-drop}
use jasonisnthappy.Wal.Frame.{page_size}
use jasonisnthappy.Pager.Codec.{pack}
use jasonisnthappy.Btree.Node.{
  NodeType, internal_node, leaf_node, as_u8, Key, LeafEntry, BTreeNode, Cursor, ◌>>>◌, put_bytes,
  put_key, put_entries, put_children, put_keys, put_body, serialize_node_into, page_of, node_page,
}

abbrev pub key_layout : Key → List ℕ
key_layout key = to_le 2 (length key) ++ key

abbrev pub entries_layout : List LeafEntry → List ℕ
entries_layout [] = []
entries_layout (e ∷ es) = (key_layout e.key ++ to_le 8 e.value) ++ entries_layout es

abbrev pub keys_layout : List Key → List ℕ
keys_layout [] = []
keys_layout (k ∷ ks) = key_layout k ++ keys_layout ks

abbrev pub body_layout : BTreeNode → NodeType → List ℕ
body_layout node leaf_node =
    (to_le 8 node.next_leaf ++ to_le 2 (length node.entries)) ++ entries_layout node.entries
body_layout node internal_node =
    (to_le 2 (length node.children) ++ pack node.children) ++ keys_layout node.keys

abbrev pub node_layout : BTreeNode → List ℕ
node_layout node =
    (((as_u8 node.node_type ∷ []) ++ to_le 2 node.num_keys) ++ to_le 8 node.parent)
    ++ body_layout node node.node_type

-- A step that writes `bytes` behind what is written if there is room, and panics otherwise.
record Writes (f : Cursor → Option Cursor) (bytes : List ℕ) : Type 0 where
  puts :
      (w rest : List ℕ)
      → length bytes ≤ length rest
      → f (w ++ rest, length w)
        ≡ some ((w ++ bytes) ++ drop (length bytes) rest, length (w ++ bytes))
  fails : (w rest : List ℕ) → length rest < length bytes → f (w ++ rest, length w) ≡ none

put_bytes-Writes : (bytes : List ℕ) → Writes (put_bytes bytes) bytes
unfolding put_bytes
put_bytes-Writes bytes = record {
  puts = λ w rest room.
      let fits : leb (length w + length bytes) (length (w ++ rest)) ≡ true =
        ground (arith, length-append w rest) in
      rw (fits, copy_at-append (length w) w rest bytes refl, ← length-append w bytes) refl;
  fails = λ w rest short.
      let out : leb (length w + length bytes) (length (w ++ rest)) ≡ false =
        ground (arith, length-append w rest) in
      rw out refl;
}

-- one step behind the other
>>>-Writes :
    (f g : Cursor → Option Cursor) (a b : List ℕ)
    → Writes f a
    → Writes g b
    → Writes (λ c. f c >>> g) (a ++ b)
>>>-Writes f g a b p q = record {
  puts = λ w rest room.
      let size = length-append a b in
      let first = p.puts w rest (omega (arith, room, size)) in
      let second =
        q.puts (w ++ a) (drop (length a) rest)
          (omega (arith, room, size, length-drop (length a) rest)) in
      let left : drop (length b) (drop (length a) rest) ≡ drop (length (a ++ b)) rest =
        sym (drop-drop (length a) (length b) rest) ∙ ap (λ (k : ℕ). drop k rest) (sym size) in
      rw (first, second, left) (simp append_assoc);
  fails = λ w rest short.
      let size = length-append a b in
      elim (Bool-cases (leb (length a) (length rest))) [
        | inl fits ↦
            let first = p.puts w rest (ground arith) in
            let second =
              q.fails (w ++ a) (drop (length a) rest)
                (ground (arith, size, length-drop (length a) rest)) in
            rw (first, second) refl
        | inr out ↦ rw (p.fails w rest (ground arith)) refl
      ];
}

put_nothing-Writes : Writes (λ c. some c) []
unfolding drop
put_nothing-Writes = record {
  puts = λ w rest room. rw (append-nil w) refl;
  fails = λ w rest short. elim short [ ];
}

put_key-Writes : (key : Key) → Writes (put_key key) (key_layout key)
unfolding put_key
put_key-Writes key =
    >>>-Writes (put_bytes (to_le 2 (length key))) (put_bytes key) (to_le 2 (length key)) key
      (put_bytes-Writes (to_le 2 (length key))) (put_bytes-Writes key)

put_entry-Writes :
    (e : LeafEntry)
    → Writes
        (λ c. put_key e.key c >>> put_bytes (to_le 8 e.value))
        (key_layout e.key ++ to_le 8 e.value)
put_entry-Writes e =
    >>>-Writes (put_key e.key) (put_bytes (to_le 8 e.value)) (key_layout e.key) (to_le 8 e.value)
      (put_key-Writes e.key) (put_bytes-Writes (to_le 8 e.value))

put_entries-Writes : (es : List LeafEntry) → Writes (put_entries es) (entries_layout es)
unfolding put_entries
put_entries-Writes [] = put_nothing-Writes
put_entries-Writes (e ∷ es) =
    >>>-Writes (λ c. put_key e.key c >>> put_bytes (to_le 8 e.value)) (put_entries es)
      (key_layout e.key ++ to_le 8 e.value) (entries_layout es) (put_entry-Writes e)
      (put_entries-Writes es)

put_children-Writes : (ps : List ℕ) → Writes (put_children ps) (pack ps)
unfolding put_children
put_children-Writes [] = put_nothing-Writes
put_children-Writes (p ∷ ps) =
    >>>-Writes (put_bytes (to_le 8 p)) (put_children ps) (to_le 8 p) (pack ps)
      (put_bytes-Writes (to_le 8 p)) (put_children-Writes ps)

put_keys-Writes : (ks : List Key) → Writes (put_keys ks) (keys_layout ks)
unfolding put_keys
put_keys-Writes [] = put_nothing-Writes
put_keys-Writes (k ∷ ks) =
    >>>-Writes (put_key k) (put_keys ks) (key_layout k) (keys_layout ks) (put_key-Writes k)
      (put_keys-Writes ks)

put_body-Writes : (node : BTreeNode) (t : NodeType) → Writes (put_body node t) (body_layout node t)
put_body-Writes node leaf_node =
    >>>-Writes
      (λ c. put_bytes (to_le 8 node.next_leaf) c >>> put_bytes (to_le 2 (length node.entries)))
      (put_entries node.entries) (to_le 8 node.next_leaf ++ to_le 2 (length node.entries))
      (entries_layout node.entries)
      (>>>-Writes (put_bytes (to_le 8 node.next_leaf)) (put_bytes (to_le 2 (length node.entries)))
        (to_le 8 node.next_leaf) (to_le 2 (length node.entries))
        (put_bytes-Writes (to_le 8 node.next_leaf))
        (put_bytes-Writes (to_le 2 (length node.entries))))
      (put_entries-Writes node.entries)
put_body-Writes node internal_node =
    >>>-Writes (λ c. put_bytes (to_le 2 (length node.children)) c >>> put_children node.children)
      (put_keys node.keys) (to_le 2 (length node.children) ++ pack node.children)
      (keys_layout node.keys)
      (>>>-Writes (put_bytes (to_le 2 (length node.children))) (put_children node.children)
        (to_le 2 (length node.children)) (pack node.children)
        (put_bytes-Writes (to_le 2 (length node.children))) (put_children-Writes node.children))
      (put_keys-Writes node.keys)

-- the whole node, on a page that is not yet written
node-Writes :
    (node : BTreeNode)
    → Writes
        (λ c.
          put_bytes (as_u8 node.node_type ∷ []) c
          >>> put_bytes (to_le 2 node.num_keys)
          >>> put_bytes (to_le 8 node.parent)
          >>> put_body node node.node_type)
        (node_layout node)
node-Writes node =
    let kind = as_u8 node.node_type ∷ [] in
    let a = put_bytes-Writes kind in
    let b = put_bytes-Writes (to_le 2 node.num_keys) in
    let c = put_bytes-Writes (to_le 8 node.parent) in
    let ab =
      >>>-Writes (put_bytes kind) (put_bytes (to_le 2 node.num_keys)) kind (to_le 2 node.num_keys) a
        b in
    let abc =
      >>>-Writes (λ c. put_bytes kind c >>> put_bytes (to_le 2 node.num_keys))
        (put_bytes (to_le 8 node.parent)) (kind ++ to_le 2 node.num_keys) (to_le 8 node.parent) ab
        c in
    >>>-Writes
      (λ c.
        put_bytes kind c >>> put_bytes (to_le 2 node.num_keys) >>> put_bytes (to_le 8 node.parent))
      (put_body node node.node_type) ((kind ++ to_le 2 node.num_keys) ++ to_le 8 node.parent)
      (body_layout node node.node_type) abc (put_body-Writes node node.node_type)

-- A node whose bytes fit a page is written to it,
pub node_page-fits :
    (node : BTreeNode)
    → length (node_layout node) ≤ page_size
    → node_page node
      ≡ some (node_layout node ++ drop (length (node_layout node)) (replicate page_size 0))
unfolding node_page serialize_node_into
node_page-fits node fits =
    let room : length (node_layout node) ≤ length (replicate {A = ℕ} page_size 0) =
      omega (arith, length-replicate {A = ℕ} page_size 0, fits) in
    ap page_of ((node-Writes node).puts [] (replicate page_size 0) room)

-- and for any other node the code panics.
pub node_page-overflows :
    (node : BTreeNode) → page_size < length (node_layout node) → node_page node ≡ none
unfolding node_page serialize_node_into
node_page-overflows node long =
    let short : length (replicate {A = ℕ} page_size 0) < length (node_layout node) =
      omega (arith, length-replicate {A = ℕ} page_size 0, long) in
    ap page_of ((node-Writes node).fails [] (replicate page_size 0) short)
