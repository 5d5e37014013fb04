-- ===== src/Hvmc/Encoder/Lengths.antt =====
-- How many bytes an instruction takes.
use hvmsys.Base.{
  ℕ, zero, suc, ◌+◌, ◌-◌, ◌*◌, ◌/◌, ◌%◌, ◌^◌, ◌≤◌, ◌<◌, ◌≡◌, inl, inr, refl, arith, bit_and, bit_or,
  List, [], ◌∷◌, length, replicate, length-append, length-replicate,
}
use hvmsys.Base.Words.{u8}
use hvmsys.Base.Bits.{bit_or_low, bit_and_mask}
use hvmsys.Base.{if◌then◌else◌, Option, none, some, Bool-cases}
use hvmsys.Hvmc.Encoder.{
  encode_uleb128, uleb128_bytes, wrap, emit_escape32, pad_to_four, word_bytes, encode_with,
  encode_instruction, encode, same_text,
}
use hvmsys.Hvmc.Opcodes.{opcode_table}
use hvmsys.Hvmc.Types.{OpcodeEntry, Operands, EncodingType, base32, escape32}
use Prim.Native.String.{String}

abbrev pub size_of : EncodingType → ℕ
size_of base32 = 4
size_of escape32 = 8

-- The value that a reader of ULEB128 gives the bytes: seven bits each while the top bit is set.
abbrev pub uleb128_value : List ℕ → ℕ
uleb128_value [] = 0
uleb128_value (c ∷ cs) = c % 128 + (c / 128) * 128 * uleb128_value cs

chunk : (val : ℕ) → u8 (bit_or (bit_and val 0x7f) 0x80) ≡ val % 128 + 128
chunk val = rw (bit_and_mask 7 val, bit_or_low 7 1 (val % 2 ^ 7) (omega arith)) (omega arith)

-- The values that `fuel` rounds and a last byte can hold.
abbrev capacity : ℕ → ℕ
capacity zero = 128
capacity (suc fuel) = 128 * capacity fuel

uleb128_bytes_value :
    (fuel val : ℕ) → val < capacity fuel → uleb128_value (uleb128_bytes fuel val) ≡ val
unfolding uleb128_bytes
uleb128_bytes_value zero val h = omega arith
uleb128_bytes_value (suc fuel) val h =
    let e : uleb128_value (uleb128_bytes fuel (val / 128)) ≡ val / 128 =
      uleb128_bytes_value fuel (val / 128) (omega arith) in
    ground (arith, chunk val, e)

-- Reading the ULEB128 bytes of a value below 2^32 gives the value again: the five bytes that the
-- loop can write are enough.
pub encode_uleb128_value : (val : ℕ) → val < 2 ^ 32 → uleb128_value (encode_uleb128 val) ≡ val
unfolding encode_uleb128
encode_uleb128_value val h = uleb128_bytes_value 4 val (omega arith)

short_uleb128 : (op : ℕ) → op < 2 ^ 21 → length (encode_uleb128 op) ≤ 3
unfolding encode_uleb128 uleb128_bytes
short_uleb128 op h = ground arith

pub prefix-length : (op : ℕ) → op < 2 ^ 21 → length (pad_to_four (0xfe ∷ encode_uleb128 op)) ≡ 4
prefix-length op h =
    let opened : List ℕ = 0xfe ∷ encode_uleb128 op in
    let missing : ℕ = 4 - length opened in
    rw (length-append opened (replicate {A = ℕ} missing 0), length-replicate {A = ℕ} missing 0)
      (omega (arith, short_uleb128 op h))

wrap-length : (e : EncodingType) (op w : ℕ) → op < 2 ^ 21 → length (wrap e op w).bytes ≡ size_of e
unfolding wrap emit_escape32
wrap-length base32 op w h = refl
wrap-length escape32 op w h =
    rw (length-append (pad_to_four (0xfe ∷ encode_uleb128 op)) (word_bytes w), prefix-length op h)
      refl

-- The first entry of a mnemonic.
abbrev pub find_entry : List OpcodeEntry → String → Option OpcodeEntry
find_entry [] mnemonic = none
find_entry (e ∷ table) mnemonic =
    if same_text mnemonic e.mnemonic then some e else find_entry table mnemonic

abbrev pub entry_size : Option OpcodeEntry → ℕ
entry_size none = 0
entry_size (some e) = size_of e.encoding

abbrev OpcodesFit : List OpcodeEntry → Type 0
OpcodesFit [] = Unit {0}
OpcodesFit (e ∷ table) = (e.opcode < 2 ^ 21) × OpcodesFit table

encode_with-length :
    (table : List OpcodeEntry) (mnemonic : String) (ops : Operands)
    → OpcodesFit table
    → length (encode_with table mnemonic ops).bytes ≡ entry_size (find_entry table mnemonic)
unfolding encode_with encode_instruction
encode_with-length [] mnemonic ops fit = refl
encode_with-length (e ∷ table) mnemonic ops (fit, rest) =
    elim (Bool-cases (same_text mnemonic e.mnemonic)) [
      | inl t ↦ rw t (wrap-length e.encoding e.opcode _ fit)
      | inr t ↦ rw t (encode_with-length table mnemonic ops rest)
    ]

opcode_table-OpcodesFit : OpcodesFit opcode_table
unfolding opcode_table
opcode_table-OpcodesFit = ground arith

-- For every mnemonic and all operands, `encode` gives four bytes for a base32 entry of the opcode table,
-- eight for an escape32 entry, and none for a mnemonic that the table lacks.
pub encode-length :
    (mnemonic : String) (ops : Operands)
    → length (encode mnemonic ops).bytes ≡ entry_size (find_entry opcode_table mnemonic)
unfolding encode
encode-length mnemonic ops = encode_with-length opcode_table mnemonic ops opcode_table-OpcodesFit
