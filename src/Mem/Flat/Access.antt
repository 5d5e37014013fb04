-- ===== src/Mem/Flat/Access.antt =====
-- The four widths of FlatMemory accesses: what they return, when they throw, what they keep.
use hvmsys.Base.{ℕ, ◌+◌, ◌^◌, ◌≤◌, ◌<◌, ◌≡◌, sym, ap, ◌∙◌, ◌⊎◌, inl, inr}
use hvmsys.Base.{List, arith, length, All, ltb, Bool-cases}
use hvmsys.Base.Words.{IsByte}
use hvmsys.Except.{Result, ok, thrown, out_of_range}
use hvmsys.Mem.Endian.Spec.{
  byte, value_at, lay, length-lay, lay-IsByte, value_at-lay_outside, value_at-lay,
}
use hvmsys.Mem.Endian.Laws.{
  at_lem, load_half_lem, load_word_lem, load_dword_lem, store_byte_lem, store_half_lem,
  store_word_lem, store_dword_lem,
}
use hvmsys.Mem.Flat.{
  FlatMemory, check_bounds, read_byte, read_half, read_word, read_dword, write_byte, write_half,
  write_word, write_dword,
}

-- A vector holds at most 2 ^ 63 - 1 elements.
pub record IsValid (m : FlatMemory) : Type 0 where
  pub bytes_in_range : All IsByte m.bytes
  pub size_fits : length m.bytes < 2 ^ 63

-- The access width in bytes.
pub data Width : Type 0 where
  one two four eight : Width

abbrev pub size_of : Width → ℕ
size_of one = 1
size_of two = 2
size_of four = 4
size_of eight = 8

abbrev pub read : Width → FlatMemory → ℕ → Result ℕ
read one = read_byte
read two = read_half
read four = read_word
read eight = read_dword

abbrev pub write : Width → FlatMemory → ℕ → ℕ → Result FlatMemory
write one = write_byte
write two = write_half
write four = write_word
write eight = write_dword

check_bounds_inside :
    (m : FlatMemory) (addr size : ℕ)
    → IsValid m
    → 0 < size
    → addr + size ≤ length m.bytes
    → check_bounds m addr size ≡ ok tt
unfolding check_bounds
check_bounds_inside m addr size v pos h = ground arith

check_bounds_outside :
    (m : FlatMemory) (addr size : ℕ)
    → IsValid m
    → size < 2 ^ 63
    → length m.bytes < addr + size
    → check_bounds m addr size ≡ thrown out_of_range
unfolding check_bounds
check_bounds_outside m addr size v small h = ground arith

value_at_one : (bytes : List ℕ) (i : ℕ) → value_at 1 bytes i ≡ byte bytes i
unfolding value_at
value_at_one bytes i = omega arith

-- In range a read returns the little-endian value of its bytes.
pub read_inside :
    (w : Width) (m : FlatMemory) (addr : ℕ)
    → IsValid m
    → addr + size_of w ≤ length m.bytes
    → read w m addr ≡ ok (value_at (size_of w) m.bytes addr)
unfolding read_byte read_half read_word read_dword
read_inside one m addr v h =
    rw (check_bounds_inside m addr 1 v (omega arith) h, value_at_one)
      (at_lem m.bytes addr (omega arith))
read_inside two m addr v h =
    rw (check_bounds_inside m addr 2 v (omega arith) h)
      (load_half_lem m.bytes addr v.bytes_in_range h)
read_inside four m addr v h =
    rw (check_bounds_inside m addr 4 v (omega arith) h)
      (load_word_lem m.bytes addr v.bytes_in_range h)
read_inside eight m addr v h =
    rw (check_bounds_inside m addr 8 v (omega arith) h)
      (load_dword_lem m.bytes addr v.bytes_in_range h)

-- In range a write lays its bytes down; the value fits the width.
pub write_inside :
    (w : Width) (m : FlatMemory) (addr val : ℕ)
    → IsValid m
    → addr + size_of w ≤ length m.bytes
    → val < 256 ^ size_of w
    → write w m addr val ≡ ok (record m { bytes = lay (size_of w) m.bytes addr val })
unfolding write_byte write_half write_word write_dword
write_inside one m addr val v h small = rw (
  check_bounds_inside m addr 1 v (omega arith) h,
  store_byte_lem m.bytes addr val (omega arith) small,
)
write_inside two m addr val v h small =
    rw (check_bounds_inside m addr 2 v (omega arith) h, store_half_lem m.bytes addr val h)
write_inside four m addr val v h small =
    rw (check_bounds_inside m addr 4 v (omega arith) h, store_word_lem m.bytes addr val h)
write_inside eight m addr val v h small =
    rw (check_bounds_inside m addr 8 v (omega arith) h, store_dword_lem m.bytes addr val h)

-- In a valid FlatMemory an access of any width that reaches past the end throws out_of_range, a read
-- and a write alike.
pub access_outside :
    (w : Width) (m : FlatMemory) (addr val : ℕ)
    → IsValid m
    → length m.bytes < addr + size_of w
    → (read w m addr ≡ thrown out_of_range) × (write w m addr val ≡ thrown out_of_range)
unfolding read_byte read_half read_word read_dword write_byte write_half write_word write_dword
access_outside one m addr val v h =
    let e = check_bounds_outside m addr 1 v (omega arith) h in (rw e, rw e)
access_outside two m addr val v h =
    let e = check_bounds_outside m addr 2 v (omega arith) h in (rw e, rw e)
access_outside four m addr val v h =
    let e = check_bounds_outside m addr 4 v (omega arith) h in (rw e, rw e)
access_outside eight m addr val v h =
    let e = check_bounds_outside m addr 8 v (omega arith) h in (rw e, rw e)

pub lay-IsValid :
    (n : ℕ) (m : FlatMemory) (addr val : ℕ)
    → IsValid m
    → IsValid (record m { bytes = lay n m.bytes addr val })
lay-IsValid n m addr val v = record {
  bytes_in_range = lay-IsByte n m.bytes addr val v.bytes_in_range;
  size_fits = rw (length-lay n m.bytes addr val) v.size_fits;
}

-- What `write` leaves: the memory it returns, whose reads give the new value in the range written
-- and the old one beside it.
pub record IsWritten (w : Width) (m : FlatMemory) (addr val : ℕ) (r : Result FlatMemory)
    : Type 0 where
  pub after : FlatMemory
  pub returned : r ≡ ok after
  pub valid : IsValid after
  pub same_size : length after.bytes ≡ length m.bytes
  pub read_back : read w after addr ≡ ok val
  pub others :
      (u : Width) (j : ℕ)
      → (j + size_of u ≤ addr) ⊎ (addr + size_of w ≤ j)
      → read u after j ≡ read u m j

read_others :
    (u : Width) (m m' : FlatMemory) (j : ℕ)
    → IsValid m
    → IsValid m'
    → length m'.bytes ≡ length m.bytes
    → value_at (size_of u) m'.bytes j ≡ value_at (size_of u) m.bytes j
    → read u m' j ≡ read u m j
read_others u m m' j v v' e h = elim (Bool-cases (ltb (length m.bytes) (j + size_of u))) [
  | inl out ↦
      (access_outside u m' j 0 v' (ground arith)).0
      ∙ sym (access_outside u m j 0 v (ground arith)).0
  | inr within ↦
      read_inside u m' j v' (ground arith) ∙ ap ok h ∙ sym (read_inside u m j v (ground arith))
]

-- In a valid FlatMemory a write of any width that lies inside, of a value that fits the width,
-- succeeds; the same read then returns the value, every access of any width beside the range reads
-- what it read before, and the size and the validity are kept.
pub write-IsWritten :
    (w : Width) (m : FlatMemory) (addr val : ℕ)
    → IsValid m
    → addr + size_of w ≤ length m.bytes
    → val < 256 ^ size_of w
    → IsWritten w m addr val (write w m addr val)
write-IsWritten w m addr val v h small =
    let m' : FlatMemory = record m { bytes = lay (size_of w) m.bytes addr val } in
    let v' : IsValid m' = lay-IsValid (size_of w) m addr val v in
    let e : length m'.bytes ≡ length m.bytes = length-lay (size_of w) m.bytes addr val in
    record {
      after = m';
      returned = write_inside w m addr val v h small;
      valid = v';
      same_size = e;
      read_back =
          read_inside w m' addr v' (rw e h)
          ∙ ap ok (value_at-lay (size_of w) m.bytes addr val h small);
      others = λ u j d.
          read_others u m m' j v v' e
            (value_at-lay_outside (size_of u) (size_of w) m.bytes addr val j d);
    }
