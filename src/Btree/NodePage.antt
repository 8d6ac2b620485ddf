-- ===== src/Btree/NodePage.antt =====
-- src/core/btree.rs: a node is read back from its page.
use jasonisnthappy.Base.{
  ℕ, ◌+◌, ◌≤◌, ◌<◌, ◌≡◌, refl, true, false, List, [], ◌∷◌, ◌++◌, length, ltb, length-append, arith,
  append_assoc, All, u64_mod,
}
use jasonisnthappy.Base.Bytes.{sizes, slice-append, to_le, length-to_le, from_le, from_le-to_le}
use jasonisnthappy.Base.Error.{ok}
use jasonisnthappy.Pager.Codec.{pack}
use jasonisnthappy.Btree.Utf8.{is_utf8}
use jasonisnthappy.Btree.Node.{
  Key, LeafEntry, bytes_at, count_at, key_at, read_entries, read_children, read_keys,
}
use jasonisnthappy.Btree.Written.{key_layout, entries_layout, keys_layout}
use Prim.Native.String.{String}

-- bytes that stand behind `w`
pub bytes_at-layout :
    (p : ℕ) (details : String) (w bytes rest : List ℕ) (i n : ℕ)
    → length w ≡ i
    → length bytes ≡ n
    → bytes_at p details (w ++ (bytes ++ rest)) i n ≡ ok bytes
unfolding bytes_at
bytes_at-layout p details w bytes rest i n h k =
    let within : ltb (length (w ++ (bytes ++ rest))) (i + n) ≡ false =
      ground (arith, length-append w (bytes ++ rest), length-append bytes rest) in
    rw (within, slice-append i n w bytes rest h k) refl

pub count_at-layout :
    (p : ℕ) (details large : String) (w rest : List ℕ) (i n : ℕ)
    → length w ≡ i
    → n ≤ 1000
    → count_at p details large (w ++ (to_le 2 n ++ rest)) i ≡ ok n
unfolding count_at
count_at-layout p details large w rest i n h small =
    let back : from_le (to_le 2 n) ≡ n = from_le-to_le 2 n (omega (arith, small)) in
    let fine : ltb 1000 n ≡ false = ground (arith, small) in
    rw (bytes_at-layout p details w (to_le 2 n) rest i 2 h (length-to_le 2 n), back, fine) refl

-- A key that a page can hold.
pub record IsKey (key : Key) : Type 0 where
  pub short : length key ≤ 1000
  pub text : is_utf8 key ≡ true

key_at-layout :
    (p : ℕ) (details large short : String) (w key rest : List ℕ) (i : ℕ)
    → length w ≡ i
    → IsKey key
    → key_at p details large short (w ++ (key_layout key ++ rest)) i ≡ ok key
unfolding key_at
key_at-layout p details large short w key rest i h v =
    let size = to_le 2 (length key) in
    let split : w ++ (key_layout key ++ rest) ≡ w ++ (size ++ (key ++ rest)) = simp append_assoc in
    let moved : w ++ (key_layout key ++ rest) ≡ (w ++ size) ++ (key ++ rest) = simp append_assoc in
    let first : count_at p details large (w ++ (key_layout key ++ rest)) i ≡ ok (length key) =
      rw split (count_at-layout p details large w (key ++ rest) i (length key) h v.short) in
    let second : bytes_at p short (w ++ (key_layout key ++ rest)) (i + 2) (length key) ≡ ok key =
      rw moved (
        bytes_at-layout p short (w ++ size) key rest (i + 2) (length key)
          (simp sizes (omega (arith, h))) refl) in
    rw (first, second, v.text) refl

pub record IsEntry (e : LeafEntry) : Type 0 where
  pub key : IsKey e.key
  pub value : e.value < u64_mod

pub read_entries-layout :
    (es : List LeafEntry) (p : ℕ) (w rest : List ℕ) (i : ℕ)
    → length w ≡ i
    → All IsEntry es
    → read_entries (length es) p (w ++ (entries_layout es ++ rest)) i ≡ ok es
unfolding read_entries
read_entries-layout [] p w rest i h v = refl
read_entries-layout (e ∷ es) p w rest i h v =
    let page = w ++ (entries_layout (e ∷ es) ++ rest) in
    let k = key_layout e.key in
    let x = to_le 8 e.value in
    let y = entries_layout es in
    let wk = w ++ k in
    let at_key : page ≡ w ++ (k ++ (x ++ (y ++ rest))) = simp append_assoc in
    let at_value : page ≡ wk ++ (x ++ (y ++ rest)) = simp append_assoc in
    let at_rest : page ≡ (wk ++ x) ++ (y ++ rest) = simp append_assoc in
    let key : key_at p "insufficient data for entry keyLen" "keyLen is unreasonably large"
          "insufficient data for entry key" page i
        ≡ ok e.key =
      rw at_key (key_at-layout p _ _ _ w e.key (x ++ (y ++ rest)) i h v.0.key) in
    let value : bytes_at p "insufficient data for entry value" page (i + 2 + length e.key) 8
        ≡ ok x =
      rw at_value (
        bytes_at-layout p _ wk x (y ++ rest) (i + 2 + length e.key) 8
          (simp sizes (omega (arith, h))) (length-to_le 8 e.value)) in
    let others : read_entries (length es) p page (i + 2 + length e.key + 8) ≡ ok es = rw at_rest (
      read_entries-layout es p (wk ++ x) rest (i + 2 + length e.key + 8)
        (simp sizes (omega (arith, h))) v.1) in
    rw (key, value, others, from_le-to_le 8 e.value v.0.value, read_entries) refl

pub read_children-layout :
    (ps : List ℕ) (p : ℕ) (w rest : List ℕ) (i : ℕ)
    → length w ≡ i
    → All (λ q. q < u64_mod) ps
    → read_children (length ps) p (w ++ (pack ps ++ rest)) i ≡ ok ps
unfolding read_children
read_children-layout [] p w rest i h v = refl
read_children-layout (q ∷ ps) p w rest i h v =
    let page = w ++ (pack (q ∷ ps) ++ rest) in
    let x = to_le 8 q in
    let at_child : page ≡ w ++ (x ++ (pack ps ++ rest)) = simp append_assoc in
    let at_rest : page ≡ (w ++ x) ++ (pack ps ++ rest) = simp append_assoc in
    let child : bytes_at p "insufficient data for child" page i 8 ≡ ok x =
      rw at_child (bytes_at-layout p _ w x (pack ps ++ rest) i 8 h (length-to_le 8 q)) in
    let others : read_children (length ps) p page (i + 8) ≡ ok ps =
      rw at_rest
        (read_children-layout ps p (w ++ x) rest (i + 8) (simp sizes (omega (arith, h))) v.1) in
    rw (child, others, from_le-to_le 8 q v.0, read_children) refl

pub read_keys-layout :
    (ks : List Key) (p : ℕ) (w rest : List ℕ) (i : ℕ)
    → length w ≡ i
    → All IsKey ks
    → read_keys (length ks) p (w ++ (keys_layout ks ++ rest)) i ≡ ok ks
unfolding read_keys
read_keys-layout [] p w rest i h v = refl
read_keys-layout (key ∷ ks) p w rest i h v =
    let page = w ++ (keys_layout (key ∷ ks) ++ rest) in
    let k = key_layout key in
    let at_key : page ≡ w ++ (k ++ (keys_layout ks ++ rest)) = simp append_assoc in
    let at_rest : page ≡ (w ++ k) ++ (keys_layout ks ++ rest) = simp append_assoc in
    let first : key_at p "insufficient data for key keyLen" "key keyLen is unreasonably large"
          "insufficient data for key" page i
        ≡ ok key =
      rw at_key (key_at-layout p _ _ _ w key (keys_layout ks ++ rest) i h v.0) in
    let others : read_keys (length ks) p page (i + 2 + length key) ≡ ok ks = rw at_rest (
      read_keys-layout ks p (w ++ k) rest (i + 2 + length key) (simp sizes (omega (arith, h)))
        v.1) in
    rw (first, others, read_keys) refl
