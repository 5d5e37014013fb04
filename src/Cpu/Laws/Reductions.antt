-- ===== src/Cpu/Laws/Reductions.antt =====
-- The vector reductions.
use hvmsys.Base.{
  ℕ, zero, suc, ◌+◌, ◌-◌, ◌<◌, ◌≡◌, ◌≢◌, refl, ap, ◌∙◌, arith, ◌&&◌, ◌==◌, if◌then◌else◌, ltb,
}
use hvmsys.Cpu.State.{DecodedInst, Host}
use hvmsys.Cpu.Mnemonic.{Vec}
use hvmsys.Cpu.Vector.{VecRegs, set_lane, for_lanes, reduce_op, reduce_lanes}
use hvmsys.Cpu.Laws.Lanes.{for_lanes-round}

-- The running value after `n` lanes from lane `i` on.
abbrev pub fold_lanes : (ℕ → ℕ → ℕ) → ℕ → ℕ → ℕ → (ℕ → ℕ) → ℕ
fold_lanes f zero i acc lane = acc
fold_lanes f (suc n) i acc lane = fold_lanes f n (i + 1) (f acc (lane i)) lane

fold_lanes_ext :
    (f : ℕ → ℕ → ℕ) (n i acc : ℕ) (a b : ℕ → ℕ)
    → ((j : ℕ) → a j ≡ b j)
    → fold_lanes f n i acc a ≡ fold_lanes f n i acc b
fold_lanes_ext f zero i acc a b e = refl
fold_lanes_ext f (suc n) i acc a b e =
    ap (λ (x : ℕ). fold_lanes f n (i + 1) (f acc x) a) (e i)
    ∙ fold_lanes_ext f n (i + 1) (f acc (b i)) a b e

module _ (f : ℕ → ℕ → ℕ) (rd rs : ℕ) where
  abbrev pub folding : ℕ → VecRegs → VecRegs
  folding i ws = set_lane ws rd 0 (f (ws rd 0) (ws rs i))

  set_lane_elsewhere : (vs : VecRegs) (v j : ℕ) → rs ≢ rd → set_lane vs rd 0 v rs j ≡ vs rs j
  unfolding set_lane
  set_lane_elsewhere vs v j apart = ground arith

  for_lanes-folding :
      (n i : ℕ) (vs : VecRegs) (q j : ℕ)
      → rs ≢ rd
      → for_lanes n i folding vs q j
        ≡ (if (q == rd) && (j == 0) then fold_lanes f n i (vs rd 0) (vs rs) else vs q j)
  unfolding for_lanes set_lane
  for_lanes-folding zero i vs q j apart = ground arith
  for_lanes-folding (suc n) i vs q j apart =
      let v : ℕ = f (vs rd 0) (vs rs i) in
      let ws : VecRegs = set_lane vs rd 0 v in
      let e : fold_lanes f n (i + 1) (ws rd 0) (ws rs) ≡ fold_lanes f n (i + 1) (ws rd 0) (vs rs) =
        fold_lanes_ext f n (i + 1) (ws rd 0) (ws rs) (vs rs)
          (λ k. set_lane_elsewhere vs v k apart) in
      let own : ws rd 0 ≡ v = ground arith in
      for_lanes-folding n (i + 1) ws q j apart ∙ rw (e, own) (ground arith)

module _ {R M : Type 0} (h : Host R M) where
  -- Where rd is not rs1 and there is at least one lane: after a reduction lane 0 of rd is the fold of
  -- all lanes of rs1 from lane 0 of rs2 on, both as they stood before, the other lanes of rd are 0, and no
  -- other register has changed.
  pub reduce_lanes-folds :
      (v : Vec) (di : DecodedInst) (lanes : ℕ) (vs : VecRegs) (q j : ℕ)
      → di.rs1 ≢ di.rd
      → 0 < lanes
      → reduce_lanes h v di lanes vs q j ≡ (
          if (q == di.rd) && ltb j lanes
          then (if j == 0 then fold_lanes (reduce_op h v) lanes 0 (vs di.rs2 0) (vs di.rs1) else 0)
          else vs q j)
  unfolding reduce_lanes set_lane
  reduce_lanes-folds v di lanes vs q j apart some_lane =
      let started : VecRegs = set_lane vs di.rd 0 (vs di.rs2 0) in
      let folded : VecRegs = for_lanes lanes 0 (folding (reduce_op h v) di.rd di.rs1) started in
      let zeroed = for_lanes-round di.rd (λ i ws. 0) (λ i ws xs e. refl) (lanes - 1) 1 folded q j in
      let fold : ℕ = fold_lanes (reduce_op h v) lanes 0 (vs di.rs2 0) (vs di.rs1) in
      let own : started di.rd 0 ≡ vs di.rs2 0 = ground arith in
      let e : fold_lanes (reduce_op h v) lanes 0 (started di.rd 0) (started di.rs1) ≡ fold =
        fold_lanes_ext (reduce_op h v) lanes 0 (started di.rd 0) (started di.rs1) (vs di.rs1)
          (λ k. set_lane_elsewhere (reduce_op h v) di.rd di.rs1 vs (vs di.rs2 0) k apart)
        ∙ ap (λ (x : ℕ). fold_lanes (reduce_op h v) lanes 0 x (vs di.rs1)) own in
      let before : folded q j ≡ (if (q == di.rd) && (j == 0) then fold else started q j) =
        for_lanes-folding (reduce_op h v) di.rd di.rs1 lanes 0 started q j apart ∙ rw e refl in
      zeroed ∙ rw before (ground arith)
