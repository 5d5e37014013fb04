-- ===== src/Cpu/Laws/Lanes.antt =====
-- The element-wise vector loops, also where the destination is one of the operands.
use hvmsys.Base.{
  ℕ, zero, suc, ◌+◌, ◌-◌, ◌*◌, ◌/◌, ◌%◌, ◌^◌, bit_and, bit_or, bit_xor, ◌≡◌, ◌≢◌, refl, ◌∙◌, arith,
  Bool, true, false, ◌&&◌, ◌==◌, if◌then◌else◌, ltb, leb,
}
use hvmsys.Cpu.Mnemonic.{
  Vec, vmerge_vvm, vfirst_m, vredadd_vs, vredmin_vs, vredmax_vs, vfmacc_vf, vadd_vx, vsub_vx,
  vmul_vx, vdiv_vx, vcomp_vx, vsll_vx, vsrl_vx, vadd_vv, vsub_vv, vmul_vv, vdiv_vv, vfmacc_vv,
  vcomp_vv, vsll_vv, vsrl_vv, vand_vv, vor_vv, vxor_vv,
}
use hvmsys.Cpu.State.{DecodedInst, Machine, Host, Outcome, done, throws, faults, reg}
use hvmsys.Base.Bits.{bit_and_mask}
use hvmsys.Cpu.Word64.{shift_left, shift_right}
use hvmsys.Cpu.Vector.{
  VecRegs, set_lane, for_lanes, lane_round, lane_op, lane_left, lane_right, exec_vec, vecs,
}

-- The value that round `i` stores, from the registers that the round finds.
abbrev RoundValue : Type 0
RoundValue = ℕ → VecRegs → ℕ

-- The rounds of an in-place loop `vec_regs[rd][i] = f i vec_regs`, where `f i` looks at lane `i` of
-- the registers alone.
module _ (rd : ℕ) (f : ℕ → VecRegs → ℕ)
    (local : (i : ℕ) (vs ws : VecRegs) → ((q : ℕ) → vs q i ≡ ws q i) → f i vs ≡ f i ws) where
  abbrev pub round : ℕ → VecRegs → VecRegs
  round i vs = set_lane vs rd i (f i vs)

  set_lane_other : (vs : VecRegs) (r i v q j : ℕ) → j ≢ i → set_lane vs r i v q j ≡ vs q j
  unfolding set_lane
  set_lane_other vs r i v q j ne = ground arith

  -- Lanes outside the rounds, and other registers, stay; lanes inside get their value from the
  -- registers before the loop.
  pub for_lanes-round :
      (n i : ℕ) (vs : VecRegs) (q j : ℕ)
      → for_lanes n i round vs q j
        ≡ (if (q == rd) && (leb i j && ltb j (i + n)) then f j vs else vs q j)
  unfolding for_lanes set_lane
  for_lanes-round zero i vs q j = ground arith
  for_lanes-round (suc n) i vs q j =
      let ws : VecRegs = round i vs in
      let later : j ≢ i → f j ws ≡ f j vs =
        λ ne. local j ws vs (λ p. set_lane_other vs rd i (f i vs) p j ne) in
      for_lanes-round n (i + 1) ws q j ∙ ground (arith, later)

-- The instructions that compute lane by lane.
abbrev pub is_elementwise : Vec → Bool
is_elementwise vmerge_vvm = false
is_elementwise vfirst_m = false
is_elementwise vredadd_vs = false
is_elementwise vredmin_vs = false
is_elementwise vredmax_vs = false
is_elementwise _ = true

module _ {R M : Type 0} (h : Host R M) where
  lane_left_local :
      (v : Vec) (di : DecodedInst) (m : Machine R M) (i : ℕ) (vs ws : VecRegs)
      → ((q : ℕ) → vs q i ≡ ws q i)
      → lane_left h v di m vs i ≡ lane_left h v di m ws i
  unfolding lane_left
  lane_left_local vfmacc_vf di m i vs ws e = refl
  lane_left_local _ di m i vs ws e = e di.rs1

  lane_right_local :
      (v : Vec) (di : DecodedInst) (m : Machine R M) (i : ℕ) (vs ws : VecRegs)
      → ((q : ℕ) → vs q i ≡ ws q i)
      → lane_right h v di m vs i ≡ lane_right h v di m ws i
  unfolding lane_right
  lane_right_local vadd_vx di m i vs ws e = refl
  lane_right_local vsub_vx di m i vs ws e = refl
  lane_right_local vmul_vx di m i vs ws e = refl
  lane_right_local vdiv_vx di m i vs ws e = refl
  lane_right_local vcomp_vx di m i vs ws e = refl
  lane_right_local vsll_vx di m i vs ws e = refl
  lane_right_local vsrl_vx di m i vs ws e = refl
  lane_right_local _ di m i vs ws e = e di.rs2

  abbrev pub lane_result : Vec → DecodedInst → Machine R M → ℕ → VecRegs → ℕ
  lane_result v di m i vs =
      lane_op h v (vs di.rd i) (lane_left h v di m vs i) (lane_right h v di m vs i)

  lane_result_local :
      (v : Vec) (di : DecodedInst) (m : Machine R M) (i : ℕ) (vs ws : VecRegs)
      → ((q : ℕ) → vs q i ≡ ws q i)
      → lane_result v di m i vs ≡ lane_result v di m i ws
  lane_result_local v di m i vs ws e =
      rw (e di.rd, lane_left_local v di m i vs ws e, lane_right_local v di m i vs ws e) refl

  -- What an instruction makes of the old value d of a lane of rd and of its operands a and b, in the
  -- arithmetic of the numbers.
  abbrev pub element : Vec → ℕ → ℕ → ℕ → ℕ
  element vadd_vv d a b = (a + b) % 2 ^ 64
  element vadd_vx d a b = (a + b) % 2 ^ 64
  element vsub_vv d a b = (a + 2 ^ 64 - b) % 2 ^ 64
  element vsub_vx d a b = (a + 2 ^ 64 - b) % 2 ^ 64
  element vmul_vv d a b = a * b % 2 ^ 64
  element vmul_vx d a b = a * b % 2 ^ 64
  element vdiv_vv d a b = if b == 0 then 2 ^ 64 - 1 else a / b
  element vdiv_vx d a b = if b == 0 then 2 ^ 64 - 1 else a / b
  element vfmacc_vv d a b = h.float_add d (h.float_mul a b)
  element vfmacc_vf d a b = h.float_add d (h.float_mul a b)
  element vcomp_vv d a b = if a == b then 2 ^ 64 - 1 else 0
  element vcomp_vx d a b = if a == b then 2 ^ 64 - 1 else 0
  element vsll_vv d a b = a * 2 ^ (b % 64) % 2 ^ 64
  element vsll_vx d a b = a * 2 ^ (b % 64) % 2 ^ 64
  element vsrl_vv d a b = a / 2 ^ (b % 64)
  element vsrl_vx d a b = a / 2 ^ (b % 64)
  element vand_vv d a b = bit_and a b
  element vor_vv d a b = bit_or a b
  element vxor_vv d a b = bit_xor a b
  element _ d a b = d

  lane_op-element : (v : Vec) (d a b : ℕ) → lane_op h v d a b ≡ element v d a b
  unfolding lane_op shift_left shift_right
  lane_op-element vsll_vv d a b = rw (bit_and_mask 6 b) refl
  lane_op-element vsll_vx d a b = rw (bit_and_mask 6 b) refl
  lane_op-element vsrl_vv d a b = rw (bit_and_mask 6 b) refl
  lane_op-element vsrl_vx d a b = rw (bit_and_mask 6 b) refl
  lane_op-element _ d a b = refl

  -- The first operand is the lane of rs1, but for VFMACC.VF the general register.
  abbrev pub first_operand : Vec → DecodedInst → Machine R M → ℕ → ℕ
  first_operand vfmacc_vf di m j = reg h m di.rs1
  first_operand _ di m j = vecs m di.rs1 j

  -- The forms whose second operand is a general register.
  abbrev pub is_scalar : Vec → Bool
  is_scalar vadd_vx = true
  is_scalar vsub_vx = true
  is_scalar vmul_vx = true
  is_scalar vdiv_vx = true
  is_scalar vcomp_vx = true
  is_scalar vsll_vx = true
  is_scalar vsrl_vx = true
  is_scalar _ = false

  abbrev pub second_operand : Vec → DecodedInst → Machine R M → ℕ → ℕ
  second_operand v di m j = if is_scalar v then reg h m di.rs2 else vecs m di.rs2 j

  -- The element that the instruction computes from the machine.
  abbrev pub computed : Vec → DecodedInst → Machine R M → ℕ → ℕ
  computed v di m j = element v (vecs m di.rd j) (first_operand v di m j) (second_operand v di m j)

  left-first :
      (v : Vec) (di : DecodedInst) (m : Machine R M) (j : ℕ)
      → lane_left h v di m (vecs m) j ≡ first_operand v di m j
  unfolding lane_left
  left-first vfmacc_vf di m j = refl
  left-first _ di m j = refl

  right-second :
      (v : Vec) (di : DecodedInst) (m : Machine R M) (j : ℕ)
      → lane_right h v di m (vecs m) j ≡ second_operand v di m j
  unfolding lane_right
  right-second vadd_vx di m j = refl
  right-second vsub_vx di m j = refl
  right-second vmul_vx di m j = refl
  right-second vdiv_vx di m j = refl
  right-second vcomp_vx di m j = refl
  right-second vsll_vx di m j = refl
  right-second vsrl_vx di m j = refl
  right-second _ di m j = refl

  lane_result-computed :
      (v : Vec) (di : DecodedInst) (m : Machine R M) (j : ℕ)
      → lane_result v di m j (vecs m) ≡ computed v di m j
  lane_result-computed v di m j =
      rw (left-first v di m j, right-second v di m j) (lane_op-element v _ _ _)

  -- A machine whose destination register has, in each lane below `lanes`, the result of the operation
  -- on the lanes before the instruction, and whose other lanes and registers are the old ones.
  abbrev pub IsLaneByLane : Vec → DecodedInst → Machine R M → Outcome R M (Machine R M) → Type 0
  IsLaneByLane v di m (done m') =
      (q j : ℕ)
      → vecs m' q j ≡ (if (q == di.rd) && ltb j h.vec_lanes then computed v di m j else vecs m q j)
  IsLaneByLane v di m (throws e m') = ⊥
  IsLaneByLane v di m faults = ⊥

  for_lanes-lane_round :
      (v : Vec) (di : DecodedInst) (m : Machine R M) (q j : ℕ)
      → for_lanes h.vec_lanes 0 (lane_round h v di m) (vecs m) q j
        ≡ (if (q == di.rd) && ltb j h.vec_lanes then computed v di m j else vecs m q j)
  unfolding lane_round
  for_lanes-lane_round v di m q j =
      for_lanes-round di.rd (lane_result v di m) (lane_result_local v di m) h.vec_lanes 0 (vecs m) q
        j
      ∙ ground (arith, lane_result-computed v di m j)

  -- An instruction of the element-wise group ends normally; afterwards each lane of rd, whatever vl and
  -- vtype are, holds the sum, difference, product, quotient (all ones by 0), multiply-add, test for equality
  -- alone (VCOMP), shift by b % 64, or bit operation of the operands as they stood before the instruction,
  -- also where rd is one of them, and no other lane or register has changed.
  pub exec_vec-IsLaneByLane :
      (v : Vec) (di : DecodedInst) (m : Machine R M)
      → is_elementwise v ≡ true
      → IsLaneByLane v di m (exec_vec h v di m)
  unfolding exec_vec
  exec_vec-IsLaneByLane vmerge_vvm di m e = absurd cc
  exec_vec-IsLaneByLane vfirst_m di m e = absurd cc
  exec_vec-IsLaneByLane vredadd_vs di m e = absurd cc
  exec_vec-IsLaneByLane vredmin_vs di m e = absurd cc
  exec_vec-IsLaneByLane vredmax_vs di m e = absurd cc
  exec_vec-IsLaneByLane v di m e = for_lanes-lane_round v di m
