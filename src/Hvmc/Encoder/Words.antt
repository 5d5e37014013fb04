-- ===== src/Hvmc/Encoder/Words.antt =====
-- The bytes of an instruction end in its word, in little-endian order.
use hvmsys.Base.{
  ℕ, ◌+◌, ◌-◌, ◌*◌, ◌%◌, ◌^◌, ◌<◌, ◌≡◌, refl, sym, ap, arith, Option, none, some, List, [], ◌∷◌,
  drop, drop-append,
}
use hvmsys.Hvmc.Types.{
  InstFormat, EncodingType, Operands, Instruction, base32, escape32, r, i, ri, b, j,
}
use hvmsys.Hvmc.Encoder.{
  payload, wrap, word_bytes, pad_to_four, emit_escape32, encode_uleb128, encode_instruction,
}
use hvmsys.Hvmc.Encoder.Fields.{InRange, HasFields, payload-HasFields}
use hvmsys.Hvmc.Encoder.Lengths.{size_of, prefix-length}

-- Four bytes read as a word, the lowest first.
abbrev pub le_word : List ℕ → Option ℕ
le_word (c0 ∷ c1 ∷ c2 ∷ c3 ∷ []) = some (c0 + 2 ^ 8 * c1 + 2 ^ 16 * c2 + 2 ^ 24 * c3)
le_word _ = none

le_word-word_bytes : (w : ℕ) → w < 2 ^ 32 → le_word (word_bytes w) ≡ some w
le_word-word_bytes w h = ap some (omega arith)

payload-lt :
    (f : InstFormat) (op : ℕ) (o : Operands) (w : ℕ) → HasFields f (op % 128) o w → w < 2 ^ 32
payload-lt r op o w h = omega (arith, h.0)
payload-lt i op o w h = omega (arith, h.0)
payload-lt ri op o w h = omega (arith, h.0)
payload-lt b op o w h = omega (arith, h.0)
payload-lt j op o w h = omega (arith, h.0)

-- The bytes before the word: none, or four.
drop-wrap :
    (e : EncodingType) (op w : ℕ)
    → op < 2 ^ 21
    → drop (size_of e - 4) (wrap e op w).bytes ≡ word_bytes w
unfolding wrap emit_escape32
drop-wrap base32 op w h = refl
drop-wrap escape32 op w h =
    drop-append (pad_to_four (0xfe ∷ encode_uleb128 op)) (word_bytes w) 4 (sym (prefix-length op h))

-- For an opcode below 2^21 and registers below 32, the last four bytes of an encoded instruction (all
-- of a base32 one) are, read in little-endian order, a word that has each operand in the field that its
-- format gives it and opcode % 128 in the top field.
pub encode_instruction-HasFields :
    (inst : Instruction)
    → inst.opcode < 2 ^ 21
    → InRange inst.operands
    → (w : ℕ) × (le_word (drop (size_of inst.encoding - 4) (encode_instruction inst).bytes)
        ≡ some w)
      × HasFields inst.format (inst.opcode % 128) inst.operands w
unfolding encode_instruction
encode_instruction-HasFields inst h v =
    let w : ℕ = payload inst.format inst.opcode inst.operands in
    let fields : HasFields inst.format (inst.opcode % 128) inst.operands w =
      payload-HasFields inst.format inst.opcode inst.operands v in
    (
      w,
      rw (drop-wrap inst.encoding inst.opcode w h)
          (le_word-word_bytes w (payload-lt inst.format inst.opcode inst.operands w fields)),
      fields,
    )
