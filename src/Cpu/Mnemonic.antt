-- ===== src/Cpu/Mnemonic.antt =====
-- The enumeration HvmMnemonic, which src/cmake/generate_opcode_table.py generates from
-- docs/hvm_instruction_set.csv, cut up along the groups of cases of execute_inst in
-- src/hvm_sim_core/executor.cpp. Each enumerator keeps its name.

pub data Move : Type 0 where
  nop mov movz lui addi retain release icache_rng : Move

pub data Arith : Type 0 where
  add sub mul div divu rem : Arith

pub data Logic : Type 0 where
  shl shr sar and or xor not : Logic

pub data Compare : Type 0 where
  cmpeq cmpne cmplt cmple fcmpeq fcmplt fcmple : Compare

pub data Float : Type 0 where
  fadd fsub fmul fdiv : Float

pub data Jump : Type 0 where
  beq bne blt ble jmp jal jalr ret : Jump

pub data Load : Type 0 where
  ld_b ld_bu ld_h ld_hu ld_w ld_wu ld_d ld_p : Load

pub data Store : Type 0 where
  st_b st_h st_w st_d st_p : Store

pub data Stack : Type 0 where
  lda push pop enter leave adjsp frame : Stack

pub data Control : Type 0 where
  call tailcall syscall break ecall trapret : Control

pub data Atomic : Type 0 where
  lr_d sc_d csrrw sfence_vma loop_set loop_decbr : Atomic

pub data Hint : Type 0 where
  prefetch_r prefetch_w prefetch_nta memzero_hint br_hint : Hint
  alloc_bump rdprof chk_b ld_d_nz doorbell : Hint

pub data VecMemory : Type 0 where
  vsetvl vld_v vst_v vlds_v vsts_v vldx_v vstx_v : VecMemory

pub data Vec : Type 0 where
  vadd_vv vadd_vx vsub_vv vsub_vx vmul_vv vmul_vx vdiv_vv vdiv_vx : Vec
  vfmacc_vv vfmacc_vf vcomp_vv vcomp_vx vmerge_vvm vfirst_m : Vec
  vredadd_vs vredmin_vs vredmax_vs : Vec
  vsll_vv vsll_vx vsrl_vv vsrl_vx vand_vv vor_vv vxor_vv : Vec

pub data HvmMnemonic : Type 0 where
  move : Move → HvmMnemonic
  arithmetic : Arith → HvmMnemonic
  logic : Logic → HvmMnemonic
  compare : Compare → HvmMnemonic
  float : Float → HvmMnemonic
  jump : Jump → HvmMnemonic
  load : Load → HvmMnemonic
  store : Store → HvmMnemonic
  stack : Stack → HvmMnemonic
  control : Control → HvmMnemonic
  atomic : Atomic → HvmMnemonic
  hint : Hint → HvmMnemonic
  vec_memory : VecMemory → HvmMnemonic
  vec : Vec → HvmMnemonic
