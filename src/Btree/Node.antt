-- ===== src/Btree/Node.antt =====
-- src/core/btree.rs: nodes, and their bytes. A key is its UTF-8 bytes. Where the code slices a page
-- out of range it panics, and `none` stands for that.
use jasonisnthappy.Base.{
  ℕ, zero, suc, ◌+◌, ◌*◌, Option, none, some, List, [], ◌∷◌, length, replicate, ltb, leb, ◌==◌,
  if◌then◌else◌,
}
use jasonisnthappy.Base.Bytes.{slice, copy_at, to_le, from_le}
use jasonisnthappy.Base.Error.{Result, ok, err, corruption, invalid_document, other, ◌>>=◌}
use jasonisnthappy.Wal.Frame.{page_size}
use jasonisnthappy.Btree.Utf8.{is_utf8}
use Prim.Native.String.{String}

pub data NodeType : Type 0 where
  internal_node leaf_node : NodeType

abbrev pub as_u8 : NodeType → ℕ
as_u8 internal_node = 0
as_u8 leaf_node = 1

unfoldable pub from_u8 : ℕ → Result NodeType
from_u8 value =
    if value == 0
    then ok internal_node
    else if value == 1
    then ok leaf_node
    else err (other "invalid node type")

abbrev pub Key : Type 0
Key = List ℕ

pub record LeafEntry : Type 0 where
  pub key : Key
  pub value : ℕ

pub record BTreeNode : Type 0 where
  pub page_num : ℕ
  pub node_type : NodeType
  pub num_keys : ℕ
  pub parent : ℕ
  pub entries : List LeafEntry
  pub next_leaf : ℕ
  pub keys : List Key
  pub children : List ℕ

abbrev pub new_node : NodeType → ℕ → BTreeNode
new_node node_type page_num = record {
  page_num = page_num;
  node_type = node_type;
  num_keys = 0;
  parent = 0;
  entries = [];
  next_leaf = 0;
  keys = [];
  children = [];
}

abbrev pub new_leaf : ℕ → BTreeNode
new_leaf page_num = new_node leaf_node page_num

abbrev pub new_internal : ℕ → BTreeNode
new_internal page_num = new_node internal_node page_num

-- The page that is written, and the offset behind what is written.
abbrev pub Cursor : Type 0
Cursor = List ℕ × ℕ

infixl 5 ◌>>>◌
abbrev pub ◌>>>◌ : Option Cursor → (Cursor → Option Cursor) → Option Cursor
none >>> f = none
some c >>> f = f c

-- `data[offset..offset + n].copy_from_slice(bytes)`, and `offset += n`
unfoldable pub put_bytes : List ℕ → Cursor → Option Cursor
put_bytes bytes (page, offset) =
    if leb (offset + length bytes) (length page)
    then some (copy_at page offset bytes, offset + length bytes)
    else none

-- a key behind its length
unfoldable pub put_key : Key → Cursor → Option Cursor
unfolding put_bytes
put_key key c = put_bytes (to_le 2 (length key)) c >>> put_bytes key

unfoldable pub put_entries : List LeafEntry → Cursor → Option Cursor
unfolding put_key put_bytes
put_entries [] c = some c
put_entries (e ∷ es) c = put_key e.key c >>> put_bytes (to_le 8 e.value) >>> put_entries es

unfoldable pub put_children : List ℕ → Cursor → Option Cursor
unfolding put_bytes
put_children [] c = some c
put_children (p ∷ ps) c = put_bytes (to_le 8 p) c >>> put_children ps

unfoldable pub put_keys : List Key → Cursor → Option Cursor
unfolding put_key
put_keys [] c = some c
put_keys (k ∷ ks) c = put_key k c >>> put_keys ks

-- what stands behind the parent, for each type of node
abbrev pub put_body : BTreeNode → NodeType → Cursor → Option Cursor
put_body node leaf_node c =
    put_bytes (to_le 8 node.next_leaf) c
    >>> put_bytes (to_le 2 (length node.entries))
    >>> put_entries node.entries
put_body node internal_node c =
    put_bytes (to_le 2 (length node.children)) c
    >>> put_children node.children
    >>> put_keys node.keys

unfoldable pub serialize_node_into : BTreeNode → List ℕ → Option Cursor
unfolding put_bytes put_entries put_children put_keys
serialize_node_into node page =
    put_bytes (as_u8 node.node_type ∷ []) (page, 0)
    >>> put_bytes (to_le 2 node.num_keys)
    >>> put_bytes (to_le 8 node.parent)
    >>> put_body node node.node_type

abbrev pub page_of : Option Cursor → Option (List ℕ)
page_of none = none
page_of (some (page, _)) = some page

-- the page of a node, in the zeroed buffer of `get_node_serialize_buffer`
unfoldable pub node_page : BTreeNode → Option (List ℕ)
unfolding serialize_node_into
node_page node = page_of (serialize_node_into node (replicate page_size 0))

-- the error of every check of `deserialize_node`
abbrev pub damaged {ℓ} : {A : Type ℓ} → ℕ → String → Result A
damaged page_num details = err (corruption "btree" page_num details)

-- `n` bytes at `offset`, if the page has them
unfoldable pub bytes_at : ℕ → String → List ℕ → ℕ → ℕ → Result (List ℕ)
bytes_at page_num details page offset n =
    if ltb (length page) (offset + n) then damaged page_num details else ok (slice page offset n)

-- a number of at most 1000, in two bytes
unfoldable pub count_at : ℕ → String → String → List ℕ → ℕ → Result ℕ
count_at page_num details large page offset = bytes_at page_num details page offset 2 >>= λ bytes.
    if ltb 1000 (from_le bytes) then damaged page_num large else ok (from_le bytes)

abbrev pub to_text : List ℕ → Result Key
to_text bytes = if is_utf8 bytes then ok bytes else err invalid_document

-- a key behind its length
unfoldable pub key_at : ℕ → String → String → String → List ℕ → ℕ → Result Key
key_at page_num details large short page offset =
    count_at page_num details large page offset >>= λ key_len.
    bytes_at page_num short page (offset + 2) key_len >>= to_text

unfoldable pub read_entries : ℕ → ℕ → List ℕ → ℕ → Result (List LeafEntry)
read_entries zero page_num page offset = ok []
read_entries (suc left) page_num page offset =
    elim (key_at page_num "insufficient data for entry keyLen" "keyLen is unreasonably large"
      "insufficient data for entry key" page offset) [
        | err e ↦ err e
        | ok key ↦
            elim (bytes_at page_num "insufficient data for entry value" page
              (offset + 2 + length key) 8) [
                | err e ↦ err e
                | ok value ↦
                    (read_entries left page_num page (offset + 2 + length key + 8) >>= λ rest.
                    ok (record { key = key; value = from_le value } ∷ rest))
              ]
      ]

unfoldable pub read_children : ℕ → ℕ → List ℕ → ℕ → Result (List ℕ)
read_children zero page_num page offset = ok []
read_children (suc left) page_num page offset =
    elim (bytes_at page_num "insufficient data for child" page offset 8) [
      | err e ↦ err e
      | ok child ↦
          (read_children left page_num page (offset + 8) >>= λ rest. ok (from_le child ∷ rest))
    ]

unfoldable pub read_keys : ℕ → ℕ → List ℕ → ℕ → Result (List Key)
read_keys zero page_num page offset = ok []
read_keys (suc left) page_num page offset =
    elim (key_at page_num "insufficient data for key keyLen" "key keyLen is unreasonably large"
      "insufficient data for key" page offset) [
        | err e ↦ err e
        | ok key ↦
            (read_keys left page_num page (offset + 2 + length key) >>= λ rest. ok (key ∷ rest))
      ]

-- a leaf, behind the parent
unfoldable pub read_leaf : BTreeNode → List ℕ → Result BTreeNode
read_leaf node page = do
  next_leaf ← bytes_at node.page_num "insufficient data for nextLeaf" page 11 8
  num_entries ←
      count_at node.page_num "insufficient data for numEntries" "numEntries is unreasonably large"
        page 19
  entries ← read_entries num_entries node.page_num page 21
  ok (record node { next_leaf = from_le next_leaf; entries = entries })

-- the last check of an internal node
abbrev pub check_children : BTreeNode → Result BTreeNode
check_children node =
    if ltb 0 node.num_keys
    then if length node.children == node.num_keys + 1
      then ok node
      else damaged node.page_num "keys do not match children"
    else ok node

-- an internal node, behind the parent
unfoldable pub read_internal : BTreeNode → List ℕ → Result BTreeNode
read_internal node page = do
  num_children ←
      count_at node.page_num "insufficient data for numChildren" "numChildren is unreasonably large"
        page 11
  children ← read_children num_children node.page_num page 13
  keys ← read_keys node.num_keys node.page_num page (13 + 8 * num_children)
  check_children (record node { children = children; keys = keys })

abbrev pub read_body : NodeType → BTreeNode → List ℕ → Result BTreeNode
read_body leaf_node node page = read_leaf node page
read_body internal_node node page = read_internal node page

unfoldable pub deserialize_node : ℕ → List ℕ → Result BTreeNode
deserialize_node page_num page =
    if ltb (length page) 11
    then damaged page_num "buffer too small"
    else (from_u8 (from_le (slice page 0 1)) >>= λ node_type.
        read_body node_type
          (record (new_node node_type page_num) {
            num_keys = from_le (slice page 1 2);
            parent = from_le (slice page 3 8);
          })
          page)
