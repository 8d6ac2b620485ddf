-- ===== src/Btree/RoundTrip.antt =====
-- src/core/btree.rs: `serialize_node_into` and `deserialize_node`, one behind the other.
use jasonisnthappy.Base.{
  ℕ, ◌+◌, ◌*◌, ◌≤◌, ◌<◌, ◌≡◌, refl, sym, ap, ◌∙◌, true, false, Option, some, List, [], ◌∷◌, ◌++◌,
  length, drop, replicate, ltb, ◌==◌, if◌then◌else◌, length-append, arith, append_assoc, All,
  u16_mod, u64_mod, Bool,
}
use jasonisnthappy.Base.Bytes.{
  sizes, slice, slice-append, to_le, length-to_le, from_le, from_le-to_le,
}
use jasonisnthappy.Base.Error.{ok}
use jasonisnthappy.Wal.Frame.{page_size}
use jasonisnthappy.Pager.Codec.{pack, length-pack}
use jasonisnthappy.Btree.Node.{
  NodeType, internal_node, leaf_node, as_u8, from_u8, LeafEntry, BTreeNode, new_node, bytes_at,
  count_at, read_entries, read_children, read_keys, read_leaf, read_internal, read_body,
  deserialize_node, node_page,
}
use jasonisnthappy.Btree.Written.{
  entries_layout, keys_layout, body_layout, node_layout, node_page-fits,
}
use jasonisnthappy.Btree.NodePage.{
  IsKey, IsEntry, bytes_at-layout, count_at-layout, read_entries-layout, read_children-layout,
  read_keys-layout,
}

pub record IsLeaf (node : BTreeNode) : Type 0 where
  pub few : length node.entries ≤ 1000
  pub entries : All IsEntry node.entries
  pub next_leaf : node.next_leaf < u64_mod
  pub keys : node.keys ≡ []
  pub children : node.children ≡ []

pub record IsInternal (node : BTreeNode) : Type 0 where
  pub few : length node.children ≤ 1000
  pub children : All (λ p. p < u64_mod) node.children
  pub num_keys : length node.keys ≡ node.num_keys
  pub matching : length node.children ≡ node.num_keys + 1
  pub keys : All IsKey node.keys
  pub entries : node.entries ≡ []
  pub next_leaf : node.next_leaf ≡ 0

abbrev pub IsBody : BTreeNode → NodeType → Type 0
IsBody node leaf_node = IsLeaf node
IsBody node internal_node = IsInternal node

-- A node that fits a page.
pub record IsNode (node : BTreeNode) : Type 0 where
  pub num_keys : node.num_keys < u16_mod
  pub parent : node.parent < u64_mod
  pub body : IsBody node node.node_type
  pub fits : length (node_layout node) ≤ page_size

-- a node of which the part behind the parent is not yet read
abbrev begun : ℕ → BTreeNode → NodeType → BTreeNode
begun p node t = record (new_node t p) { num_keys = node.num_keys; parent = node.parent }

either-same : {A : Type 0} (b : Bool) (a : A) → (if b then a else a) ≡ a
either-same true a = refl
either-same false a = refl

-- the page with `w` in front of the body
module _ (p : ℕ) (node : BTreeNode) (w rest : List ℕ) (eleven : length w ≡ 11) where
  read_leaf-layout :
      IsLeaf node
      → read_leaf (begun p node leaf_node) (w ++ (body_layout node leaf_node ++ rest))
        ≡ ok (record node { page_num = p; node_type = leaf_node })
  unfolding read_leaf
  read_leaf-layout v =
      let page = w ++ (body_layout node leaf_node ++ rest) in
      let n = to_le 8 node.next_leaf in
      let c = to_le 2 (length node.entries) in
      let y = entries_layout node.entries in
      let at_leaf : page ≡ w ++ (n ++ (c ++ (y ++ rest))) = simp append_assoc in
      let at_count : page ≡ (w ++ n) ++ (c ++ (y ++ rest)) = simp append_assoc in
      let at_entries : page ≡ ((w ++ n) ++ c) ++ (y ++ rest) = simp append_assoc in
      rw
        (
          ap (λ (x : List ℕ). bytes_at p "insufficient data for nextLeaf" x 11 8) at_leaf
              ∙ bytes_at-layout p _ w n (c ++ (y ++ rest)) 11 8 eleven
                  (length-to_le 8 node.next_leaf),
          ap
                (λ (x : List ℕ).
                  count_at p "insufficient data for numEntries" "numEntries is unreasonably large" x
                    19)
                at_count
              ∙ count_at-layout p _ _ (w ++ n) (y ++ rest) 19 (length node.entries)
                  (simp sizes (omega (arith, eleven))) v.few,
          ap (λ (x : List ℕ). read_entries (length node.entries) p x 21) at_entries
              ∙ read_entries-layout node.entries p ((w ++ n) ++ c) rest 21
                  (simp sizes (omega (arith, eleven))) v.entries,
          from_le-to_le 8 node.next_leaf v.next_leaf,
          ← v.keys,
          ← v.children,
        )
        refl

  read_internal-layout :
      IsInternal node
      → read_internal (begun p node internal_node) (w ++ (body_layout node internal_node ++ rest))
        ≡ ok (record node { page_num = p; node_type = internal_node })
  unfolding read_internal
  read_internal-layout v =
      let page = w ++ (body_layout node internal_node ++ rest) in
      let c = to_le 2 (length node.children) in
      let x = pack node.children in
      let y = keys_layout node.keys in
      let at_count : page ≡ w ++ (c ++ (x ++ (y ++ rest))) = simp append_assoc in
      let at_children : page ≡ (w ++ c) ++ (x ++ (y ++ rest)) = simp append_assoc in
      let at_keys : page ≡ ((w ++ c) ++ x) ++ (y ++ rest) = simp append_assoc in
      let read_as = λ (es : List LeafEntry) (q : ℕ). record node {
        page_num = p;
        node_type = internal_node;
        entries = es;
        next_leaf = q;
      } in
      let matching : length node.children == node.num_keys + 1 ≡ true =
        ground (arith, v.matching) in
      let keys : read_keys node.num_keys p page (13 + 8 * length node.children) ≡ ok node.keys =
        rw (← v.num_keys, at_keys)
          (read_keys-layout node.keys p ((w ++ c) ++ x) rest (13 + 8 * length node.children)
            (simp (sizes, length-pack) (omega (arith, eleven))) v.keys) in
      rw
        (
          ap
                (λ (x : List ℕ).
                  count_at p "insufficient data for numChildren" "numChildren is unreasonably large"
                    x 11)
                at_count
              ∙ count_at-layout p _ _ w (x ++ (y ++ rest)) 11 (length node.children) eleven v.few,
          ap (λ (x : List ℕ). read_children (length node.children) p x 13) at_children
              ∙ read_children-layout node.children p (w ++ c) (y ++ rest) 13
                  (simp sizes (omega (arith, eleven))) v.children,
          keys,
          matching,
        )
        (either-same (ltb 0 node.num_keys) (ok (read_as [] 0))
          ∙ (ap (λ (es : List LeafEntry). ok (read_as es 0)) (sym v.entries)
              ∙ ap (λ (q : ℕ). ok (read_as node.entries q)) (sym v.next_leaf)))

  read_body-layout :
      (t : NodeType)
      → IsBody node t
      → read_body t (begun p node t) (w ++ (body_layout node t ++ rest))
        ≡ ok (record node { page_num = p; node_type = t })
  read_body-layout leaf_node v = read_leaf-layout v
  read_body-layout internal_node v = read_internal-layout v

from_u8-as_u8 : (t : NodeType) → from_u8 (as_u8 t) ≡ ok t
unfolding from_u8
from_u8-as_u8 internal_node = refl
from_u8-as_u8 leaf_node = refl

as_u8-lt : (t : NodeType) → as_u8 t < 256
as_u8-lt internal_node = omega arith
as_u8-lt leaf_node = omega arith

abbrev ReadsBack : BTreeNode → ℕ → Option (List ℕ) → Type 0
ReadsBack node p r =
    (page : List ℕ) × (r ≡ some page)
    × (deserialize_node p page ≡ ok (record node { page_num = p }))

-- A node whose keys are UTF-8 of at most 1000 bytes, with at most 1000 entries or children, whose
-- integers fit their width, and whose bytes fit a page: it is written without a panic, and what is
-- read from that page under any number is the node under that number.
pub deserialize_node-node_page :
    (node : BTreeNode) (p : ℕ) → IsNode node → ReadsBack node p (node_page node)
unfolding deserialize_node
deserialize_node-node_page node p v =
    let t = node.node_type in
    let kind = as_u8 t ∷ [] in
    let n = to_le 2 node.num_keys in
    let a = to_le 8 node.parent in
    let b = body_layout node t in
    let z : List ℕ = drop (length (node_layout node)) (replicate page_size 0) in
    let w = (kind ++ n) ++ a in
    let page = node_layout node ++ z in
    let eleven : length w ≡ 11 = simp sizes in
    let at_kind : page ≡ [] ++ (kind ++ (n ++ (a ++ (b ++ z)))) = simp append_assoc in
    let at_keys : page ≡ kind ++ (n ++ (a ++ (b ++ z))) = simp append_assoc in
    let at_parent : page ≡ (kind ++ n) ++ (a ++ (b ++ z)) = simp append_assoc in
    let at_body : page ≡ w ++ (b ++ z) = simp append_assoc in
    let long : ltb (length page) 11 ≡ false =
      ground (arith, ap (λ (x : List ℕ). length x) at_body, length-append w (b ++ z), eleven) in
    let s1 : slice page 0 1 ≡ kind = rw at_kind (slice-append 0 1 [] kind _ refl refl) in
    let s2 : slice page 1 2 ≡ n =
      rw at_keys (slice-append 1 2 kind n _ refl (length-to_le 2 node.num_keys)) in
    let s3 : slice page 3 8 ≡ a =
      rw at_parent (slice-append 3 8 (kind ++ n) a _ (simp sizes) (length-to_le 8 node.parent)) in
    let type_back : from_le kind ≡ as_u8 t = unfold from_le in omega arith in
    (
      page,
      node_page-fits node v.fits,
      rw
          (
            long,
            s1,
            type_back,
            from_u8-as_u8 t,
            s2,
            s3,
            from_le-to_le 2 node.num_keys v.num_keys,
            from_le-to_le 8 node.parent v.parent,
            at_body,
          )
          (read_body-layout p node w z eleven t v.body),
    )
