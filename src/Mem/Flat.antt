-- ===== src/Mem/Flat.antt =====
-- FlatMemory of src/hvm_sim_mem/memory.cpp: one vector of bytes behind a bounds check.
pub mod Access
pub mod Bulk
use hvmsys.Base.{
  ℕ, ◌+◌, ◌-◌, ◌%◌, ◌^◌, ◌||◌, Bool, true, false, List, [], ◌∷◌, ◌++◌, length, replicate, set, take,
  drop,
}
use hvmsys.Base.{ltb, leb, if◌then◌else◌}
use hvmsys.Base.Words.{add64}
use hvmsys.Except.{Result, ok, undefined, out_of_range, throw_if, ◌>>=◌, ◌>>◌}
use hvmsys.Mem.Endian.{
  at, load_half, load_word, load_dword, store_byte, store_half, store_word, store_dword,
}

-- `bytes` is the field data_.
pub record FlatMemory : Type 0 where
  pub bytes : List ℕ

unfoldable pub new : ℕ → FlatMemory
new size = record { bytes = replicate size 0 }

-- The sum `addr + size` is one of uint64_t, so it wraps.
unfoldable pub check_bounds : FlatMemory → ℕ → ℕ → Result (Unit {0})
check_bounds m addr size =
    throw_if (leb (length m.bytes) addr || ltb (length m.bytes) (add64 addr size)) out_of_range

unfoldable pub read_byte : FlatMemory → ℕ → Result ℕ
read_byte m addr = do check_bounds m addr 1; at m.bytes addr

unfoldable pub read_half : FlatMemory → ℕ → Result ℕ
read_half m addr = do check_bounds m addr 2; load_half m.bytes addr

unfoldable pub read_word : FlatMemory → ℕ → Result ℕ
read_word m addr = do check_bounds m addr 4; load_word m.bytes addr

unfoldable pub read_dword : FlatMemory → ℕ → Result ℕ
read_dword m addr = do check_bounds m addr 8; load_dword m.bytes addr

-- The memory after a store into its vector.
abbrev pub with_bytes : FlatMemory → List ℕ → Result FlatMemory
with_bytes m d = ok (record m { bytes = d })

unfoldable pub write_byte : FlatMemory → ℕ → ℕ → Result FlatMemory
write_byte m addr v = do check_bounds m addr 1; d ← store_byte m.bytes addr v; with_bytes m d

unfoldable pub write_half : FlatMemory → ℕ → ℕ → Result FlatMemory
write_half m addr v = do check_bounds m addr 2; d ← store_half m.bytes addr v; with_bytes m d

unfoldable pub write_word : FlatMemory → ℕ → ℕ → Result FlatMemory
write_word m addr v = do check_bounds m addr 4; d ← store_word m.bytes addr v; with_bytes m d

unfoldable pub write_dword : FlatMemory → ℕ → ℕ → Result FlatMemory
write_dword m addr v = do check_bounds m addr 8; d ← store_dword m.bytes addr v; with_bytes m d

-- std::copy of `src` over the elements from `at` on; past the end it is undefined.
unfoldable pub copy_into : List ℕ → ℕ → List ℕ → Result (List ℕ)
copy_into dst at src =
    if ltb (length dst) (at + length src)
    then undefined
    else ok (take at dst ++ (src ++ drop (at + length src) dst))

-- The elements from `first` up to `last`, undefined if that is no range of the vector.
unfoldable pub copy_out : List ℕ → ℕ → ℕ → Result (List ℕ)
copy_out src first last =
    if ltb last first || ltb (length src) last
    then undefined
    else ok (take (last - first) (drop first src))

unfoldable pub load : FlatMemory → ℕ → List ℕ → Result FlatMemory
load m addr src = do
  check_bounds m addr (length src)
  d ← copy_into m.bytes addr src
  with_bytes m d

-- `data_.begin() + addr + len` is computed in 64 bits.
unfoldable pub dump : FlatMemory → ℕ → ℕ → Result (List ℕ)
dump m addr len = do check_bounds m addr len; copy_out m.bytes addr (add64 addr len)
