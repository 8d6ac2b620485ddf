-- ===== src/Wal/Readers.antt =====
-- src/core/wal.rs: the buffered reader of `checkpoint` gives the bytes of the file in order.
use jasonisnthappy.Base.{
  ℕ, ◌-◌, ◌≤◌, ◌≡◌, refl, ap, sym, ◌∙◌, inl, inr, true, some, List, ◌++◌, length, length-append,
  length-take, arith, leb, take, drop, Bool-cases,
}
use jasonisnthappy.Base.Bytes.{
  slice, take-append_le, drop-append_le, take-append_ge, drop-append_ge, drop-drop,
  take-append-rest,
}
use jasonisnthappy.Wal.Disk.{Reader, fill, read_ahead, wal_buffer_size}

-- What a reader has still to give: what it has read ahead, and the file from the offset on.
abbrev pub ahead_of : Reader → List ℕ
ahead_of r = r.ahead ++ drop r.disk.position r.disk.bytes

-- a refill shifts bytes from the file to what is read ahead
fill-rest :
    (r : Reader)
    → (fill r).ahead ++ drop (fill r).disk.position (fill r).disk.bytes
      ≡ drop r.disk.position r.disk.bytes
unfolding fill slice
fill-rest r =
    let t = drop r.disk.position r.disk.bytes in
    let chunk = take wal_buffer_size t in
    rw (drop-drop r.disk.position (length chunk) r.disk.bytes) (take-append-rest wal_buffer_size t)

fill-length :
    (r : Reader) (n : ℕ)
    → n ≤ length (drop r.disk.position r.disk.bytes)
    → n ≤ wal_buffer_size
    → n ≤ length (fill r).ahead
unfolding fill slice
fill-length r n h k = omega (arith, length-take wal_buffer_size (drop r.disk.position r.disk.bytes))

-- Reading `n` bytes gives the next `n`, from wherever they come, and leaves the rest.
pub record Reads (r : Reader) (n : ℕ) (r' : Reader) : Type 0 where
  pub given : read_ahead r n ≡ (some (take n (ahead_of r)), r')
  pub left : ahead_of r' ≡ drop n (ahead_of r)
  pub bytes : r'.disk.bytes ≡ r.disk.bytes
  pub buffer : r'.disk.buffer ≡ r.disk.buffer

pub read_ahead-Reads :
    (r : Reader) (n : ℕ)
    → n ≤ length (ahead_of r)
    → n ≤ wal_buffer_size
    → (r' : Reader) × Reads r n r'
unfolding read_ahead
read_ahead-Reads r n h k = elim (Bool-cases (leb n (length r.ahead))) [
  | inl enough ↦
      let tail = drop r.disk.position r.disk.bytes in
      (
        record r { ahead = drop n r.ahead },
        record {
          given = simp (enough, take-append_le n r.ahead tail (ground arith));
          left = sym (drop-append_le n r.ahead tail (ground arith));
          bytes = refl;
          buffer = refl;
        },
      )
  | inr short ↦
      let tail = drop r.disk.position r.disk.bytes in
      let rest = n - length r.ahead in
      let r₁ = fill r in
      let tail₁ = drop r₁.disk.position r₁.disk.bytes in
      let shifted = fill-rest r in
      let fits : rest ≤ length r₁.ahead =
        fill-length r rest (omega (arith, length-append r.ahead tail)) (omega arith) in
      let there : leb rest (length r₁.ahead) ≡ true = ground arith in
      let all : take n (ahead_of r) ≡ r.ahead ++ take rest r₁.ahead =
        take-append_ge n r.ahead tail (ground arith)
        ∙ rw (← shifted) (ap (◌++◌ r.ahead) (take-append_le rest r₁.ahead tail₁ fits)) in
      (
        record r₁ { ahead = drop rest r₁.ahead },
        record {
          given = simp (short, there, all);
          left = sym (
              drop-append_ge n r.ahead tail (ground arith)
              ∙ rw (← shifted) (drop-append_le rest r₁.ahead tail₁ fits));
          bytes = unfold fill in refl;
          buffer = unfold fill in refl;
        },
      )
]
