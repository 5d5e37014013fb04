-- ===== src/Mem/Endian.antt =====
-- The little-endian accesses that FlatMemory and MemorySystem share: 1, 2, 4 or 8 consecutive
-- elements of a vector, each behind its index check, since `data[i]` out of range is undefined.
pub mod Spec
pub mod Laws
use hvmsys.Base.{
  ℕ, ◌+◌, ◌*◌, ◌/◌, ◌%◌, ◌^◌, bit_or, List, Option, none, some, get_elem?, set, length,
}
use hvmsys.Base.{ltb, if◌then◌else◌}
use hvmsys.Base.Words.{u8, u16, u32, u64, ◌<<<◌, ◌>>>◌}
use hvmsys.Except.{Result, ok, undefined, ◌>>=◌}

-- `data[i]` read.
unfoldable pub at : List ℕ → ℕ → Result ℕ
at bytes i = elim (get_elem? bytes i) [ none ↦ undefined | some b ↦ ok b ]

-- `data[i] = b`.
unfoldable pub put : List ℕ → ℕ → ℕ → Result (List ℕ)
put bytes i b = if ltb i (length bytes) then ok (set bytes i b) else undefined

-- `data[i] | data[i + 1] << 8`, as a uint16_t.
unfoldable pub load_half : List ℕ → ℕ → Result ℕ
load_half bytes i = do b0 ← at bytes i; b1 ← at bytes (i + 1); ok (u16 (bit_or b0 (b1 <<< 8)))

-- Each byte is cast to uint32_t before its shift.
unfoldable pub load_word : List ℕ → ℕ → Result ℕ
load_word bytes i = do
  b0 ← at bytes i
  b1 ← at bytes (i + 1)
  b2 ← at bytes (i + 2)
  b3 ← at bytes (i + 3)
  ok (bit_or (bit_or (bit_or b0 (u32 (b1 <<< 8))) (u32 (b2 <<< 16))) (u32 (b3 <<< 24)))

unfoldable pub load_dword : List ℕ → ℕ → Result ℕ
load_dword bytes i = do
  b0 ← at bytes i
  b1 ← at bytes (i + 1)
  b2 ← at bytes (i + 2)
  b3 ← at bytes (i + 3)
  b4 ← at bytes (i + 4)
  b5 ← at bytes (i + 5)
  b6 ← at bytes (i + 6)
  b7 ← at bytes (i + 7)
  let low = bit_or (bit_or (bit_or b0 (u64 (b1 <<< 8))) (u64 (b2 <<< 16))) (u64 (b3 <<< 24))
  let mid = bit_or (bit_or low (u64 (b4 <<< 32))) (u64 (b5 <<< 40))
  ok (bit_or (bit_or mid (u64 (b6 <<< 48))) (u64 (b7 <<< 56)))

unfoldable pub store_byte : List ℕ → ℕ → ℕ → Result (List ℕ)
store_byte bytes i v = put bytes i v

unfoldable pub store_half : List ℕ → ℕ → ℕ → Result (List ℕ)
store_half bytes i v = do d0 ← put bytes i (u8 v); put d0 (i + 1) (u8 (v >>> 8))

unfoldable pub store_word : List ℕ → ℕ → ℕ → Result (List ℕ)
store_word bytes i v = do
  d0 ← put bytes i (u8 v)
  d1 ← put d0 (i + 1) (u8 (v >>> 8))
  d2 ← put d1 (i + 2) (u8 (v >>> 16))
  put d2 (i + 3) (u8 (v >>> 24))

unfoldable pub store_dword : List ℕ → ℕ → ℕ → Result (List ℕ)
store_dword bytes i v = do
  d0 ← put bytes i (u8 v)
  d1 ← put d0 (i + 1) (u8 (v >>> 8))
  d2 ← put d1 (i + 2) (u8 (v >>> 16))
  d3 ← put d2 (i + 3) (u8 (v >>> 24))
  d4 ← put d3 (i + 4) (u8 (v >>> 32))
  d5 ← put d4 (i + 5) (u8 (v >>> 40))
  d6 ← put d5 (i + 6) (u8 (v >>> 48))
  put d6 (i + 7) (u8 (v >>> 56))
