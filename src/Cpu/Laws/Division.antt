-- ===== src/Cpu/Laws/Division.antt =====
-- The cases kDIV and kREM of execute_inst, in src/hvm_sim_core/executor.cpp, against the division of the
-- integers.
use hvmsys.Base.{
  ℕ, ◌^◌, ◌≡◌, ◌≢◌, refl, arith, true, false, some, ◌&&◌, ◌==◌, ==_iff, ◌⊎◌, inl, inr, Bool-cases,
}
use hvmsys.Cpu.Mnemonic.{div, rem}
use hvmsys.Cpu.State.{
  DecodedInst, Machine, Host, IsRegisterFile, Outcome, done, faults, reg, set_reg, advance,
}
use hvmsys.Cpu.Word64.{all_ones, signed_div, signed_rem}
use hvmsys.Cpu.Scalar.{exec_arith}
use hvmsys.Cpu.Laws.Signed.{Divides, signed_div-Divides}

module _ {R M : Type 0} (h : Host R M) where
  -- The instruction wrote v to rd and went on to the next one.
  abbrev pub Wrote : DecodedInst → Machine R M → ℕ → Outcome R M (Machine R M) → Type 0
  Wrote di m v o = o ≡ done (advance di (set_reg h m di.rd v))

  -- The ends of DIV and of REM on operands a and b.
  abbrev pub DivRem :
      DecodedInst
      → Machine R M
      → ℕ
      → ℕ
      → Outcome R M (Machine R M)
      → Outcome R M (Machine R M)
      → Type 0
  DivRem di m a b o p =
      ((b ≡ 0) × Wrote di m all_ones o × Wrote di m a p)
      ⊎ ((a ≡ 2 ^ 63) × (b ≡ all_ones) × (o ≡ faults) × (p ≡ faults))
      ⊎ ((b ≢ 0) × ((d : Divides a b) × Wrote di m d.quotient o × Wrote di m d.remainder p))

  exec_arith_zero :
      (di : DecodedInst) (m : Machine R M)
      → (reg h m di.rs2 == 0) ≡ true
      → Wrote di m all_ones (exec_arith h div di m)
        × Wrote di m (reg h m di.rs1) (exec_arith h rem di m)
  unfolding exec_arith
  exec_arith_zero di m e = (rw e refl, rw e refl)

  exec_arith_overflow :
      (di : DecodedInst) (m : Machine R M)
      → (reg h m di.rs2 == 0) ≡ false
      → ((reg h m di.rs1 == 2 ^ 63) && (reg h m di.rs2 == all_ones)) ≡ true
      → (exec_arith h div di m ≡ faults) × (exec_arith h rem di m ≡ faults)
  unfolding exec_arith signed_div signed_rem
  exec_arith_overflow di m e f = (rw (e, f) refl, rw (e, f) refl)

  exec_arith_quotient :
      (di : DecodedInst) (m : Machine R M) (q r : ℕ)
      → (reg h m di.rs2 == 0) ≡ false
      → signed_div (reg h m di.rs1) (reg h m di.rs2) ≡ some q
      → signed_rem (reg h m di.rs1) (reg h m di.rs2) ≡ some r
      → Wrote di m q (exec_arith h div di m) × Wrote di m r (exec_arith h rem di m)
  unfolding exec_arith
  exec_arith_quotient di m q r e f g = (rw (e, f) refl, rw (e, g) refl)

  -- On a register file (IsRegisterFile), DIV writes the quotient of rs1 by rs2 to rd and REM the remainder,
  -- and each goes on to the next instruction: patterns with q * b + r = a as signed integers, |r| < |b|, and
  -- r 0 or of the sign of a. By 0, DIV writes all ones and REM the dividend; -2^63 by -1 is undefined.
  pub exec_arith-DivRem :
      (di : DecodedInst) (m : Machine R M)
      → IsRegisterFile h
      → DivRem di m
          (reg h m di.rs1)
          (reg h m di.rs2)
          (exec_arith h div di m)
          (exec_arith h rem di m)
  exec_arith-DivRem di m file =
      let a : ℕ = reg h m di.rs1 in
      let b : ℕ = reg h m di.rs2 in
      elim (Bool-cases (b == 0)) [
        | inl e ↦ let (left, right) = exec_arith_zero di m e in inl ((==_iff b 0).0 e, left, right)
        | inr e ↦ elim (Bool-cases ((a == 2 ^ 63) && (b == all_ones))) [
          | inl f ↦
              let (left, right) = exec_arith_overflow di m e f in
              inr (inl (ground (arith, f), ground (arith, f), left, right))
          | inr f ↦
              let nonzero : b ≢ 0 = λ z. ground (arith, e, z) in
              let (d, q, r) =
                signed_div-Divides a b (file.word m.cpu.regs di.rs1) (file.word m.cpu.regs di.rs2)
                  nonzero (λ p. ground (arith, f, p.0, p.1)) in
              let (left, right) = exec_arith_quotient di m d.quotient d.remainder e q r in
              inr (inr (nonzero, (d, left, right)))
        ]
      ]
