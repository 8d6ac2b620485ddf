-- ===== src/Pager/Codec.antt =====
-- src/core/pager.rs: what is written of a header is read back, with the part of the free list that
-- fits the page.
use jasonisnthappy.Base.{
  ℕ, zero, suc, ◌+◌, ◌*◌, ◌^◌, ◌≤◌, ◌<◌, ◌≡◌, refl, sym, ap, ◌∙◌, ◌⊎◌, inl, inr, List, [], ◌∷◌,
  ◌++◌, true, false, length, take, drop, length-append, arith, append_assoc, u64_mod, ==_refl, ltb,
  All,
}
use jasonisnthappy.Base.Bytes.{
  sizes, slice, to_le, length-to_le, from_le-to_le, copy_at-append, slice-append, drop-drop,
}
use jasonisnthappy.Base.Error.{ok}
use jasonisnthappy.Wal.Frame.{page_size}
use jasonisnthappy.Pager.Header.{fill_free_list, read_field, read_free_list}
use Prim.Native.String.{String}

-- the entries of the free list, one behind the other
abbrev pub pack : List ℕ → List ℕ
pack [] = []
pack (p ∷ ps) = to_le 8 p ++ pack ps

-- the entries behind the 40 bytes of the fields
abbrev pub room : ℕ
room = 507

pub length-pack : (ps : List ℕ) → length (pack ps) ≡ 8 * length ps
length-pack [] = omega arith
length-pack (p ∷ ps) =
    omega (arith, length-append (to_le 8 p) (pack ps), length-to_le 8 p, length-pack ps)

-- The loop writes as many entries as there is room for behind what is written.
pub fill_free_list-pack :
    (k n : ℕ) (written rest ps : List ℕ)
    → length written ≡ n
    → n + 8 * k ≤ page_size
    → page_size < n + 8 * k + 8
    → fill_free_list (written ++ rest) n ps
      ≡ written ++ (pack (take k ps) ++ drop (8 * length (take k ps)) rest)
unfolding fill_free_list take drop
fill_free_list-pack zero n written rest [] h fits full = refl
fill_free_list-pack (suc k) n written rest [] h fits full = refl
fill_free_list-pack zero n written rest (p ∷ ps) h fits full =
    let past : ltb page_size (n + 8) ≡ true = ground arith in rw past refl
fill_free_list-pack (suc k) n written rest (p ∷ ps) h fits full =
    let within : ltb page_size (n + 8) ≡ false = ground arith in
    let step = copy_at-append n written rest (to_le 8 p) h in
    let eight = length-to_le 8 p in
    let ih =
      fill_free_list-pack k (n + 8) (written ++ to_le 8 p) (drop 8 rest) ps
        (simp sizes (omega (arith, h))) (omega (arith, fits)) (omega (arith, full)) in
    let behind : drop (8 * length (take k ps)) (drop 8 rest)
        ≡ drop (8 * suc (length (take k ps))) rest =
      sym (drop-drop 8 (8 * length (take k ps)) rest) ∙ ap (λ (i : ℕ). drop i rest) (omega arith) in
    rw (within, step, eight, ih, behind) (simp append_assoc)

pub read_field-to_le :
    (details : String) (bytes : List ℕ) (i n value : ℕ)
    → slice bytes i n ≡ to_le n value
    → value < 256 ^ n
    → read_field details bytes i n ≡ ok value
unfolding read_field
read_field-to_le details bytes i n value s h =
    simp (s, length-to_le, ==_refl, from_le-to_le n value h)

-- Reading ends behind the entries, by their number or where the page ends.
abbrev pub EndsBehind : ℕ → ℕ → ℕ → Type 0
EndsBehind n left entries = (left ≡ entries) ⊎ (page_size < n + 8 * entries + 8)

EndsBehind-step :
    (n left entries : ℕ) → EndsBehind n (suc left) (suc entries) → EndsBehind (n + 8) left entries
EndsBehind-step n left entries (inl e) = inl (omega arith)
EndsBehind-step n left entries (inr e) = inr (omega arith)

pub read_free_list-pack :
    (left n : ℕ) (written rest ps : List ℕ)
    → length written ≡ n
    → n + 8 * length ps ≤ page_size
    → length ps ≤ left
    → EndsBehind n left (length ps)
    → All (λ p. p < u64_mod) ps
    → read_free_list left (written ++ (pack ps ++ rest)) n ≡ ok ps
unfolding read_free_list
read_free_list-pack zero n written rest [] h fits enough e small = refl
read_free_list-pack zero n written rest (p ∷ ps) h fits enough e small = absurd (omega arith)
read_free_list-pack (suc left) n written rest [] h fits enough (inl e) small = absurd (omega arith)
read_free_list-pack (suc left) n written rest [] h fits enough (inr e) small =
    let past : ltb page_size (n + 8) ≡ true = ground arith in rw past refl
read_free_list-pack (suc left) n written rest (p ∷ ps) h fits enough e small =
    let within : ltb page_size (n + 8) ≡ false = ground arith in
    let bytes = written ++ ((to_le 8 p ++ pack ps) ++ rest) in
    let s : slice bytes n 8 ≡ to_le 8 p =
      simp append_assoc
        (slice-append n 8 written (to_le 8 p) (pack ps ++ rest) h (length-to_le 8 p)) in
    let entry =
      read_field-to_le "failed to parse free_list entry from header" bytes n 8 p s small.0 in
    let moved : (written ++ to_le 8 p) ++ (pack ps ++ rest) ≡ bytes = simp append_assoc in
    let ih =
      read_free_list-pack left (n + 8) (written ++ to_le 8 p) rest ps
        (simp sizes (omega (arith, h))) (omega (arith, fits)) (omega (arith, enough))
        (EndsBehind-step n left (length ps) e) small.1 in
    let again : read_free_list left bytes (n + 8) ≡ ok ps = rw moved at ih in
    rw (within, entry, again) refl
