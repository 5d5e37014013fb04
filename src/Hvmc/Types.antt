-- ===== src/Hvmc/Types.antt =====
-- The instruction types of src/tools/hvmc/include/hvmc/types.h.
use hvmsys.Base.{ℕ, Bool, Option, List}
use Prim.Native.String.{String}

-- InstFormat.
pub data InstFormat : Type 0 where
  r i ri b j : InstFormat

pub data EncodingType : Type 0 where
  base32 escape32 : EncodingType

-- The fields are of type int: their patterns, below 2 ^ 32.
pub record Operands : Type 0 where
  pub rd : ℕ
  pub rs1 : ℕ
  pub rs2 : ℕ
  pub imm : ℕ
  pub func : ℕ

pub record Instruction : Type 0 where
  pub mnemonic : String
  pub opcode : ℕ
  pub encoding : EncodingType
  pub format : InstFormat
  pub operands : Operands

pub record EncodedInst : Type 0 where
  pub bytes : List ℕ
  pub is_escape32 : Bool

-- `func` is `none` for -1.
pub record OpcodeEntry : Type 0 where
  pub mnemonic : String
  pub opcode : ℕ
  pub encoding : EncodingType
  pub format : InstFormat
  pub func : Option ℕ
