-- ===== src/Wal/Appends.antt =====
-- src/core/wal.rs: while the offset stands at the end of the file, what is written, held back or
-- flushed is appended.
use jasonisnthappy.Base.{
  ℕ, ◌+◌, ◌-◌, ◌<◌, ◌≡◌, refl, ◌⊎◌, inl, inr, List, [], ◌∷◌, ◌++◌, length, length-append,
  append_assoc, append-nil, arith, false, Bool-cases, ltb, leb, replicate,
}
use jasonisnthappy.Base.Bytes.{take_all, drop_all}
use jasonisnthappy.Wal.Disk.{Disk, write_at, flush, push_bytes, write_all, wal_buffer_size}

-- What is held back belongs behind the file, and the offset stands there.
pub record IsAtEnd (d : Disk) : Type 0 where
  pub at : d.position ≡ length d.bytes

pub write_at-end :
    (bytes : List ℕ) (i : ℕ) (more : List ℕ)
    → i ≡ length bytes
    → write_at bytes i more ≡ bytes ++ more
unfolding write_at
write_at-end bytes i [] h = rw append-nil
write_at-end bytes i (b ∷ bs) h =
    let gap : i - length bytes ≡ 0 = omega arith in
    rw (take_all i bytes (omega arith), gap, drop_all (i + length (b ∷ bs)) bytes (omega arith))
      (unfold replicate in simp append-nil)

-- the disk once what it holds back is written behind the file
abbrev pub joined : Disk → Disk
joined d = record {
  bytes = d.bytes ++ d.buffer;
  position = d.position + length d.buffer;
  buffer = [];
}

pub flush-joined : (d : Disk) → (d.buffer ≡ []) ⊎ IsAtEnd d → flush d ≡ joined d
unfolding flush
flush-joined d (inl e) = simp e (unfold write_at in simp append-nil)
flush-joined d (inr e) = rw (write_at-end d.bytes d.position d.buffer e.at)

-- what `write_all` makes of a disk that stands at its end
pub record Appended (d : Disk) (more : List ℕ) (d' : Disk) : Type 0 where
  pub grown : d'.bytes ++ d'.buffer ≡ (d.bytes ++ d.buffer) ++ more
  pub end : IsAtEnd d'

push-Appended : (d : Disk) (more : List ℕ) → IsAtEnd d → Appended d more (push_bytes d more)
unfolding push_bytes
push-Appended d more e = record { grown = simp append_assoc; end = record { at = e.at } }

joined-IsAtEnd : (d : Disk) → IsAtEnd d → IsAtEnd (joined d)
joined-IsAtEnd d e = record { at = omega (arith, e.at, length-append d.bytes d.buffer) }

push_joined-Appended :
    (d : Disk) (more : List ℕ) → IsAtEnd d → Appended d more (push_bytes (joined d) more)
unfolding push_bytes
push_joined-Appended d more e = record {
  grown = refl;
  end = record { at = (joined-IsAtEnd d e).at };
}

pub write_all-Appended :
    (d : Disk) (more : List ℕ)
    → IsAtEnd d
    → length more < wal_buffer_size
    → Appended d more (write_all d more)
unfolding write_all
write_all-Appended d more e h =
    elim (Bool-cases (ltb (length more) (wal_buffer_size - length d.buffer))) [
      | inl roomy ↦ simp roomy (push-Appended d more e)
      | inr tight ↦
          let small : leb wal_buffer_size (length more) ≡ false = ground arith in
          elim (Bool-cases (ltb (wal_buffer_size - length d.buffer) (length more))) [
            | inl full ↦
                simp (tight, small, full, flush-joined d (inr e)) (push_joined-Appended d more e)
            | inr fits ↦ simp (tight, small, fits) (push-Appended d more e)
          ]
    ]
