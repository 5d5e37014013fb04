-- ===== src/Hvmc/Assembler/Ends.antt =====
-- assemble of src/tools/hvmc/src/assembler.cpp ends.
use hvmsys.Base.{ℕ, zero, suc, ◌+◌, ◌-◌, ◌≤◌, ◌<◌, ◌≡◌, refl, arith, false, length}
use hvmsys.Base.Text.{Bytes}
use hvmsys.Hvmc.AsmLexer.{AsmKind, end, AsmToken, AsmLexer}
use hvmsys.Hvmc.AsmLexer.Progress.{is_end, weight}
use hvmsys.Hvmc.Assembler.State.{Run, ran, failed, bad, stuck, Asm, and_then, ◌>>=◌, read, Pass}
use hvmsys.Hvmc.Assembler.Runs.{
  left, no_weight, Good, Runs, bind-Runs, lift-Runs, give-Runs, read-Runs, none-Runs, weight_bound,
}
use hvmsys.Hvmc.Assembler.{until_end, pass_loop, run_pass, first_pass, second_pass, assemble}
use hvmsys.Hvmc.Assembler.LineEnds.{inside_weight, pass_round-Runs}

until_end-Runs :
    {n k : ℕ} {stop more : Asm Pass} (kind : AsmKind)
    → Runs no_weight n k stop
    → (is_end kind ≡ false → Runs no_weight n k more)
    → Runs no_weight n k (until_end stop more kind)
until_end-Runs end s m = s
until_end-Runs _ s m = m refl

-- One more than the bytes that are left, with the token, is enough.
pass_loop-Runs :
    (fuel n : ℕ) (tok : AsmToken) (p : Pass)
    → n + weight tok ≤ fuel
    → 0 < fuel
    → Runs no_weight n 0 (pass_loop fuel (tok, p))
unfolding pass_loop
pass_loop-Runs fuel zero tok p h pos = none-Runs
pass_loop-Runs zero (suc n) tok p h pos = absurd (omega arith)
pass_loop-Runs (suc fuel) (suc n) tok p h pos =
    until_end-Runs tok.kind (give-Runs p (omega arith)) (λ e.
      let one : weight tok ≡ 1 = inside_weight tok e in
      bind-Runs (pass_round-Runs (suc fuel) (suc n) (omega (arith, one)) p tok tok.kind) (λ (t, q).
        let low = weight_bound t in
        lift-Runs (weight t)
          (pass_loop-Runs fuel (suc n - weight t) t q (omega (arith, one, low))
            (omega (arith, one)))
          (omega arith)))

abbrev pub start_of : Bytes → AsmLexer
start_of source = record { rest = source; line = 1 }

run_pass-Good : (source : Bytes) (p : Pass) → Good no_weight (length source + 0) (run_pass source p)
unfolding run_pass
run_pass-Good source p = whole.run (start_of source) (omega arith)
  where
    whole :
        Runs no_weight
          (suc (length source))
          0
          (read >>= λ tok. pass_loop (suc (length source)) (tok, p))
    whole = bind-Runs read-Runs (λ tok.
        lift-Runs (weight tok)
          (pass_loop-Runs (suc (length source)) (suc (length source) - weight tok) tok p
            (omega (arith, weight_bound tok)) (omega arith))
          (omega arith))

behind_pass :
    (s r : ℕ) (o : Run Pass) (f : Pass → Asm Pass)
    → Good no_weight s o
    → ((p : Pass) (l : AsmLexer) → left l ≤ s → Good no_weight r (f p l))
    → Good no_weight r (and_then o f)
behind_pass s r (ran p l) f g h = h p l (omega arith)
behind_pass s r (failed e) f g h = g
behind_pass s r bad f g h = g
behind_pass s r stuck f g h = absurd g

-- For every source, assemble ends within its fuel: with the data of the sections, with no more bytes left
-- than the source has; with an out_of_range, for a number that is too large; with a length_error, for a padding
-- that no vector holds; or in undefined behaviour.
pub assemble-ends : (source : Bytes) → Good no_weight (length source) (assemble source)
unfolding assemble
assemble-ends source =
    behind_pass (length source + 0) (length source) (run_pass source first_pass) _
      (run_pass-Good source first_pass)
      (λ p l le.
        behind_pass (length source + 0) (length source) (run_pass source (second_pass p)) _
          (run_pass-Good source (second_pass p)) (λ q k le. omega arith))
