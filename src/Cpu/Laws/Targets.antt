-- ===== src/Cpu/Laws/Targets.antt =====
-- The targets that src/hvm_sim_core/executor.cpp computes on int64_t, against the integers.
use hvmsys.Base.{
  ℕ, ◌-◌, ◌%◌, ◌^◌, ◌<◌, ◌≡◌, refl, ap, ◌∙◌, arith, Bool, true, ◌&&◌, if◌then◌else◌, Option, none,
  some, Bool-cases, inl, inr,
}
use hvmsys.Base.Int.{ℤ, pos, negsuc, ltb_ℤ, leb_ℤ, ◌+ℤ◌, ◌*ℤ◌}
use hvmsys.Cpu.State.{DecodedInst, Machine}
use hvmsys.Cpu.Word64.{times_four, signed_add}
use hvmsys.Cpu.Flow.{target}
use hvmsys.Cpu.Laws.Signed.{signed}

-- An integer of int64_t.
abbrev pub is_int64 : ℤ → Bool
is_int64 z = leb_ℤ (negsuc (2 ^ 63 - 1)) z && ltb_ℤ z (pos (2 ^ 63))

-- Its 64-bit pattern.
abbrev pub pattern_of : ℤ → ℕ
pattern_of (pos n) = n
pattern_of (negsuc n) = 2 ^ 64 - 1 - n

-- The pattern of an integer that int64_t has.
abbrev pub checked : ℤ → Option ℕ
checked z = if is_int64 z then some (pattern_of z) else none

times_four-checked : (v : ℕ) → v < 2 ^ 64 → times_four v ≡ checked (signed v *ℤ pos 4)
unfolding times_four
times_four-checked v h = ground arith

signed_add-checked :
    (a b : ℕ) → a < 2 ^ 64 → b < 2 ^ 64 → signed_add a b ≡ checked (signed a +ℤ signed b)
unfolding signed_add
signed_add-checked a b ha hb = ground arith

signed-pattern_of :
    (z : ℤ) → is_int64 z ≡ true → (signed (pattern_of z) ≡ z) × (pattern_of z < 2 ^ 64)
signed-pattern_of (pos n) h = (ground arith, ground arith)
signed-pattern_of (negsuc n) h = (ground arith, ground arith)

-- `pc + imm * 4` on the integers that the patterns stand for.
abbrev pub goal : ℕ → ℕ → ℤ
goal pc imm = signed pc +ℤ signed imm *ℤ pos 4

-- Neither the product nor the sum leaves int64_t.
abbrev pub in_reach : ℕ → ℕ → Bool
in_reach pc imm = is_int64 (signed imm *ℤ pos 4) && is_int64 (goal pc imm)

-- A jump goes to the integer pc + imm * 4, where that and the product are of int64_t.
pub target-goal :
    {R M : Type 0} (di : DecodedInst) (m : Machine R M)
    → m.cpu.pc < 2 ^ 64
    → di.imm < 2 ^ 64
    → target di m
      ≡ (if in_reach m.cpu.pc di.imm then some (pattern_of (goal m.cpu.pc di.imm)) else none)
unfolding target
target-goal di m hp hi = elim (Bool-cases (is_int64 (signed di.imm *ℤ pos 4))) [
  | inl e ↦
      let product = signed di.imm *ℤ pos 4 in
      let back : (signed (pattern_of product) ≡ product) × (pattern_of product < 2 ^ 64) =
        signed-pattern_of product e in
      rw (times_four-checked di.imm hi, e)
        (signed_add-checked m.cpu.pc (pattern_of product) hp back.1
          ∙ ap (λ (z : ℤ). checked (signed m.cpu.pc +ℤ z)) back.0)
  | inr e ↦ rw (times_four-checked di.imm hi, e) refl
]

-- From a pc that is a multiple of 4 the jump goes to one.
pub goal-multiple :
    (pc imm : ℕ)
    → pc < 2 ^ 64
    → imm < 2 ^ 64
    → pc % 4 ≡ 0
    → in_reach pc imm ≡ true
    → pattern_of (goal pc imm) % 4 ≡ 0
goal-multiple pc imm hp hi e fits = ground arith
