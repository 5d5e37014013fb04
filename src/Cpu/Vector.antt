-- ===== src/Cpu/Vector.antt =====
-- The vector cases of execute_inst. The loops run over the lanes in place, so a destination that is
-- also a source is read as the loop has left it.
use hvmsys.Base.{
  ℕ, zero, suc, ◌+◌, ◌-◌, ◌/◌, bit_and, bit_or, bit_xor, ◌&&◌, if◌then◌else◌, ◌==◌, ltb,
}
use hvmsys.Base.Words.{add64, sub64, mul64}
use hvmsys.Cpu.Mnemonic.{VecMemory, vsetvl, vld_v, vst_v, vlds_v, vsts_v, vldx_v, vstx_v}
use hvmsys.Cpu.Mnemonic.{
  Vec, vadd_vv, vadd_vx, vsub_vv, vsub_vx, vmul_vv, vmul_vx, vdiv_vv, vdiv_vx, vfmacc_vv, vfmacc_vf,
  vcomp_vv, vcomp_vx, vmerge_vvm, vfirst_m, vredadd_vs, vredmin_vs, vredmax_vs, vsll_vv, vsll_vx,
  vsrl_vv, vsrl_vx, vand_vv, vor_vv, vxor_vv,
}
use hvmsys.Cpu.State.{
  DecodedInst, Machine, Host, Outcome, done, reg, advance, read_mem, write_mem, ◌>>=◌,
}
use hvmsys.Cpu.Scalar.{write_next}
use hvmsys.Cpu.Word64.{all_ones, shift_left, shift_right}

-- The vector registers: register, lane.
abbrev pub VecRegs : Type 0
VecRegs = ℕ → ℕ → ℕ

-- `vec_regs[r][i] = v`.
unfoldable pub set_lane : VecRegs → ℕ → ℕ → ℕ → VecRegs
set_lane vs r i v q j = if (q == r) && (j == i) then v else vs q j

-- `for (int i = from; i < from + n; i++)`, with `n` rounds left.
unfoldable pub for_lanes : ℕ → ℕ → (ℕ → VecRegs → VecRegs) → VecRegs → VecRegs
for_lanes zero i body vs = vs
for_lanes (suc n) i body vs = for_lanes n (i + 1) body (body i vs)

abbrev pub vecs : {R M : Type 0} → Machine R M → VecRegs
vecs m = m.cpu.vec_regs

abbrev pub set_vecs : {R M : Type 0} → Machine R M → VecRegs → Machine R M
set_vecs m vs = record m { cpu = record m.cpu { vec_regs = vs } }

-- VSETVL and the vector loads and stores: up to four elements.
abbrev pub max_vl : ℕ
max_vl = 4

-- vec_elems ignores the type and returns 4; `active` is the smaller of that and vl.
unfoldable pub active : {R M : Type 0} → Machine R M → ℕ
active m = if ltb 4 m.cpu.vl then 4 else m.cpu.vl

module _ {R M : Type 0} (h : Host R M) where
  -- `at` gives the address of lane `i` from the vector registers as they stand in round `i`.
  unfoldable pub load_lanes :
      ℕ → ℕ → ℕ → (ℕ → VecRegs → ℕ) → Machine R M → Outcome R M (Machine R M)
  load_lanes zero i rd at m = done m
  load_lanes (suc n) i rd at m = do
    (v, m1) ← read_mem h.read_dword m (at i (vecs m))
    load_lanes n (i + 1) rd at (set_vecs m1 (set_lane (vecs m1) rd i v))

  unfoldable pub store_lanes :
      ℕ → ℕ → ℕ → (ℕ → VecRegs → ℕ) → Machine R M → Outcome R M (Machine R M)
  store_lanes zero i rd at m = done m
  store_lanes (suc n) i rd at m = do
    m1 ← write_mem h.write_dword m (at i (vecs m)) (vecs m rd i)
    store_lanes n (i + 1) rd at m1

  -- The address of a lane: consecutive, strided, or indexed by a vector register.
  unfoldable pub lane_address : VecMemory → DecodedInst → Machine R M → ℕ → VecRegs → ℕ
  lane_address vlds_v di m i vs = add64 (reg h m di.rs2) (mul64 (reg h m di.rs1) i)
  lane_address vsts_v di m i vs = add64 (reg h m di.rs2) (mul64 (reg h m di.rs1) i)
  lane_address vldx_v di m i vs = add64 (reg h m di.rs2) (vs di.rs1 i)
  lane_address vstx_v di m i vs = add64 (reg h m di.rs2) (vs di.rs1 i)
  lane_address _ di m i vs = add64 (reg h m di.rs2) (mul64 i 8)

  abbrev vec_load : VecMemory → DecodedInst → Machine R M → Outcome R M (Machine R M)
  vec_load k di m = do
    m1 ← load_lanes (active m) 0 di.rd (lane_address k di m) m
    done (advance di m1)

  abbrev vec_store : VecMemory → DecodedInst → Machine R M → Outcome R M (Machine R M)
  vec_store k di m = do
    m1 ← store_lanes (active m) 0 di.rd (lane_address k di m) m
    done (advance di m1)

  unfoldable pub exec_vec_memory : VecMemory → DecodedInst → Machine R M → Outcome R M (Machine R M)
  unfolding load_lanes store_lanes lane_address active set_lane
  exec_vec_memory vsetvl di m =
      let avl = reg h m di.rs1 in
      let new_vl = if ltb avl max_vl then avl else max_vl in
      let m1 = record m {
        cpu = record m.cpu { vl = new_vl; vtype = reg h m di.rs2; vstate = 2 };
      } in
      write_next h di m1 new_vl
  exec_vec_memory vld_v di m = vec_load vld_v di m
  exec_vec_memory vst_v di m = vec_store vst_v di m
  exec_vec_memory vlds_v di m = vec_load vlds_v di m
  exec_vec_memory vsts_v di m = vec_store vsts_v di m
  exec_vec_memory vldx_v di m = vec_load vldx_v di m
  exec_vec_memory vstx_v di m = vec_store vstx_v di m

  -- Lane `i` of the destination from the old destination lane and the two operands.
  unfoldable pub lane_op : Vec → ℕ → ℕ → ℕ → ℕ
  lane_op vadd_vv d a b = add64 a b
  lane_op vadd_vx d a b = add64 a b
  lane_op vsub_vv d a b = sub64 a b
  lane_op vsub_vx d a b = sub64 a b
  lane_op vmul_vv d a b = mul64 a b
  lane_op vmul_vx d a b = mul64 a b
  lane_op vdiv_vv d a b = if b == 0 then all_ones else a / b
  lane_op vdiv_vx d a b = if b == 0 then all_ones else a / b
  lane_op vfmacc_vv d a b = h.float_add d (h.float_mul a b)
  lane_op vfmacc_vf d a b = h.float_add d (h.float_mul a b)
  lane_op vcomp_vv d a b = if a == b then all_ones else 0
  lane_op vcomp_vx d a b = if a == b then all_ones else 0
  lane_op vsll_vv d a b = shift_left a b
  lane_op vsll_vx d a b = shift_left a b
  lane_op vsrl_vv d a b = shift_right a b
  lane_op vsrl_vx d a b = shift_right a b
  lane_op vand_vv d a b = bit_and a b
  lane_op vor_vv d a b = bit_or a b
  lane_op vxor_vv d a b = bit_xor a b
  lane_op _ d a b = d

  -- The operands in lane `i`: the scalar forms take one of them from a general register.
  unfoldable pub lane_left : Vec → DecodedInst → Machine R M → VecRegs → ℕ → ℕ
  lane_left vfmacc_vf di m vs i = reg h m di.rs1
  lane_left _ di m vs i = vs di.rs1 i

  unfoldable pub lane_right : Vec → DecodedInst → Machine R M → VecRegs → ℕ → ℕ
  lane_right vadd_vx di m vs i = reg h m di.rs2
  lane_right vsub_vx di m vs i = reg h m di.rs2
  lane_right vmul_vx di m vs i = reg h m di.rs2
  lane_right vdiv_vx di m vs i = reg h m di.rs2
  lane_right vcomp_vx di m vs i = reg h m di.rs2
  lane_right vsll_vx di m vs i = reg h m di.rs2
  lane_right vsrl_vx di m vs i = reg h m di.rs2
  lane_right _ di m vs i = vs di.rs2 i

  -- One round of an element-wise loop.
  unfoldable pub lane_round : Vec → DecodedInst → Machine R M → ℕ → VecRegs → VecRegs
  unfolding lane_op lane_left lane_right set_lane
  lane_round v di m i vs =
      set_lane vs di.rd i (lane_op v (vs di.rd i) (lane_left v di m vs i) (lane_right v di m vs i))

  -- `mask ? rs1 : rs2`, the mask being the lowest bit of the lane of register 0.
  unfoldable pub merge_round : DecodedInst → ℕ → VecRegs → VecRegs
  unfolding set_lane
  merge_round di i vs =
      set_lane vs di.rd i (if bit_and (vs 0 i) 1 == 0 then vs di.rs2 i else vs di.rs1 i)

  -- The first lane from `i` on whose lowest bit is set, or -1.
  unfoldable pub first_set : ℕ → ℕ → (ℕ → ℕ) → ℕ
  first_set zero i lane = all_ones
  first_set (suc n) i lane =
      let rest = first_set n (i + 1) lane in if bit_and (lane i) 1 == 0 then rest else i

  -- How a reduction folds lane `x` into the running value `acc`.
  unfoldable pub reduce_op : Vec → ℕ → ℕ → ℕ
  reduce_op vredadd_vs acc x = add64 acc x
  reduce_op vredmin_vs acc x = if ltb x acc then x else acc
  reduce_op vredmax_vs acc x = if ltb acc x then x else acc
  reduce_op _ acc x = acc

  -- The running value is lane 0 of the destination itself.
  unfoldable pub reduce_lanes : Vec → DecodedInst → ℕ → VecRegs → VecRegs
  unfolding set_lane for_lanes reduce_op
  reduce_lanes v di lanes vs =
      let started = set_lane vs di.rd 0 (vs di.rs2 0) in
      let folded =
        for_lanes lanes 0 (λ i ws. set_lane ws di.rd 0 (reduce_op v (ws di.rd 0) (ws di.rs1 i)))
          started in
      for_lanes (lanes - 1) 1 (λ i ws. set_lane ws di.rd i 0) folded

  abbrev reduce : Vec → DecodedInst → Machine R M → Outcome R M (Machine R M)
  reduce v di m = done (advance di (set_vecs m (reduce_lanes v di h.vec_lanes (vecs m))))

  unfoldable pub exec_vec : Vec → DecodedInst → Machine R M → Outcome R M (Machine R M)
  unfolding lane_round merge_round first_set reduce_lanes for_lanes
  exec_vec vmerge_vvm di m =
      done (advance di (set_vecs m (for_lanes h.vec_lanes 0 (merge_round di) (vecs m))))
  exec_vec vfirst_m di m = write_next h di m (first_set h.vec_lanes 0 (vecs m di.rs1))
  exec_vec vredadd_vs di m = reduce vredadd_vs di m
  exec_vec vredmin_vs di m = reduce vredmin_vs di m
  exec_vec vredmax_vs di m = reduce vredmax_vs di m
  exec_vec v di m =
      done (advance di (set_vecs m (for_lanes h.vec_lanes 0 (lane_round v di m) (vecs m))))
