-- ===== src/Hvmc/Opcodes.antt =====
-- opcode_table of src/tools/hvmc/include/hvmc/types.h.
use hvmsys.Base.{ℕ, Option, none, some, List, [], ◌∷◌}
use Prim.Native.String.{String}
use hvmsys.Hvmc.Types.{OpcodeEntry, InstFormat, EncodingType, r, i, b, j, base32, escape32}

abbrev entry : String → ℕ → EncodingType → InstFormat → Option ℕ → OpcodeEntry
entry m op e f fn = record { mnemonic = m; opcode = op; encoding = e; format = f; func = fn }

unfoldable pub opcode_table : List OpcodeEntry
opcode_table =
    entry "NOP" 0x00 base32 r none
    ∷ entry "MOV" 0x01 base32 r none
    ∷ entry "MOVZ" 0x03 base32 i none
    ∷ entry "LUI" 0x04 base32 i none
    ∷ entry "ADDI" 0x05 base32 i none
    ∷ entry "RETAIN" 0x06 base32 r none
    ∷ entry "RELEASE" 0x07 base32 r none
    ∷ entry "ICACHE.RNG" 0x0b base32 r none
    ∷ entry "ADD" 0x10 base32 r (some 0)
    ∷ entry "SUB" 0x10 base32 r (some 1)
    ∷ entry "MUL" 0x10 base32 r (some 2)
    ∷ entry "DIV" 0x10 base32 r (some 5)
    ∷ entry "DIVU" 0x10 base32 r (some 6)
    ∷ entry "REM" 0x10 base32 r (some 7)
    ∷ entry "SHL" 0x13 base32 r (some 0)
    ∷ entry "SHR" 0x13 base32 r (some 1)
    ∷ entry "SAR" 0x13 base32 r (some 2)
    ∷ entry "AND" 0x20 base32 r (some 0)
    ∷ entry "OR" 0x20 base32 r (some 1)
    ∷ entry "XOR" 0x20 base32 r (some 2)
    ∷ entry "NOT" 0x21 base32 r none
    ∷ entry "CMPEQ" 0x40 base32 r (some 0)
    ∷ entry "CMPNE" 0x40 base32 r (some 1)
    ∷ entry "CMPLT" 0x40 base32 r (some 2)
    ∷ entry "CMPLE" 0x40 base32 r (some 3)
    ∷ entry "FCMPEQ" 0x41 base32 r (some 0)
    ∷ entry "FCMPLT" 0x41 base32 r (some 1)
    ∷ entry "FCMPLE" 0x41 base32 r (some 2)
    ∷ entry "FADD" 0x30 base32 r (some 0)
    ∷ entry "FSUB" 0x30 base32 r (some 1)
    ∷ entry "FMUL" 0x30 base32 r (some 2)
    ∷ entry "FDIV" 0x30 base32 r (some 3)
    ∷ entry "BEQ" 0x50 base32 b none
    ∷ entry "BNE" 0x51 base32 b none
    ∷ entry "BLT" 0x52 base32 b none
    ∷ entry "BLE" 0x53 base32 b none
    ∷ entry "JMP" 0x60 base32 j none
    ∷ entry "JAL" 0x61 base32 j none
    ∷ entry "JALR" 0x62 base32 i none
    ∷ entry "RET" 0x63 base32 r none
    ∷ entry "LD.B" 0x70 base32 i none
    ∷ entry "LD.BU" 0x71 base32 i none
    ∷ entry "LD.H" 0x72 base32 i none
    ∷ entry "LD.HU" 0x73 base32 i none
    ∷ entry "LD.W" 0x74 base32 i none
    ∷ entry "LD.WU" 0x75 base32 i none
    ∷ entry "LD.D" 0x76 base32 i none
    ∷ entry "LD.P" 0x77 base32 r none
    ∷ entry "ST.B" 0x78 base32 i none
    ∷ entry "ST.H" 0x79 base32 i none
    ∷ entry "ST.W" 0x7a base32 i none
    ∷ entry "ST.D" 0x7b base32 i none
    ∷ entry "ST.P" 0x7c base32 r none
    ∷ entry "LDA" 0x7d base32 i none
    ∷ entry "PUSH" 0x7e base32 r none
    ∷ entry "POP" 0x7f base32 r none
    ∷ entry "ENTER" 0x80 escape32 i none
    ∷ entry "LEAVE" 0x81 escape32 r none
    ∷ entry "ADJSP" 0x82 escape32 i none
    ∷ entry "FRAME" 0x83 escape32 i none
    ∷ entry "CALL" 0xb4 escape32 j none
    ∷ entry "TAILCALL" 0xb6 escape32 j none
    ∷ entry "SYSCALL" 0xc0 escape32 i none
    ∷ entry "BREAK" 0xc1 escape32 r none
    ∷ entry "ECALL" 0xc2 escape32 r none
    ∷ entry "TRAPRET" 0xc3 escape32 r none
    ∷ entry "LR.D" 0xc4 escape32 r none
    ∷ entry "SC.D" 0xc5 escape32 r none
    ∷ entry "CSRRW" 0xc6 escape32 i none
    ∷ entry "SFENCE.VMA" 0xc8 escape32 r none
    ∷ entry "LOOP.SET" 0xd0 escape32 i none
    ∷ entry "LOOP.DECBR" 0xd1 escape32 b none
    ∷ []
