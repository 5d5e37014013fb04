-- ===== src/Hvmc/Assembler/Runs.antt =====
-- How much of its source a step of assemble in src/tools/hvmc/src/assembler.cpp reads, and that it ends.
use hvmsys.Base.{
  ℕ, zero, suc, ◌+◌, ◌-◌, ◌≤◌, ◌<◌, ◌≡◌, refl, ap, arith, Bool, true, false, ◌⊎◌, Bool-cases, inl,
  inr, if◌then◌else◌, length,
}
use hvmsys.Except.{Exception, Result, ok, thrown, undefined, out_of_range, length_error}
use hvmsys.Hvmc.AsmLexer.{AsmKind, end, AsmToken, AsmLexer, asm_next}
use hvmsys.Hvmc.AsmLexer.Progress.{is_end, weight, Takes, asm_next-Takes}
use hvmsys.Hvmc.Assembler.State.{
  Run, ran, failed, bad, stuck, Asm, and_then, ◌>>=◌, give, fail_with, either, undefined_step,
  run_of, read, ends_line, skip_rest,
}

abbrev pub left : AsmLexer → ℕ
left l = length l.rest

abbrev pub no_weight {ℓ} : {A : Type ℓ} → A → ℕ
no_weight a = 0

abbrev pub pair_weight {ℓ} : {B : Type ℓ} → AsmToken × B → ℕ
pair_weight (t, b) = weight t

-- Of a number that is too large, or of a vector.
abbrev pub Exceeds : Exception → Type 0
Exceeds e = (e ≡ out_of_range) ⊎ (e ≡ length_error)

-- A result of at most `s` bytes with those that are left; an out_of_range or a length_error; or undefined
-- behaviour.
abbrev pub Good : {A : Type 0} → (A → ℕ) → ℕ → Run A → Type 0
Good w s (ran a l) = left l + w a ≤ s
Good w s (failed e) = Exceeds e
Good w s bad = Unit {0}
Good w s stuck = ⊥

-- The step is good where less than `n` bytes are left, with `k` bytes that its token has taken already.
pub record Runs {A : Type 0} (w : A → ℕ) (n k : ℕ) (m : Asm A) : Type 0 where
  pub run : (l : AsmLexer) → left l < n → Good w (left l + k) (m l)

Good-weaken : {A : Type 0} (w : A → ℕ) (s r : ℕ) (o : Run A) → s ≤ r → Good w s o → Good w r o
Good-weaken w s r (ran a l) le h = omega arith
Good-weaken w s r (failed e) le h = h
Good-weaken w s r bad le h = h
Good-weaken w s r stuck le h = h

-- What follows a step may rely on the bytes that the step's result took.
pub bind-Runs :
    {A B : Type 0} {v : A → ℕ} {w : B → ℕ} {n : ℕ} {m : Asm A} {f : A → Asm B}
    → Runs v n 0 m
    → ((a : A) → Runs w (n - v a) (v a) (f a))
    → Runs w n 0 (m >>= f)
unfolding ◌>>=◌
bind-Runs {A} {B} {v} {w} {n} {m} {f} rm rf = record {
  run = λ l h. behind (left l) (m l) h (rm.run l h);
}
  where
    behind : (s : ℕ) (o : Run A) → s < n → Good v (s + 0) o → Good w (s + 0) (and_then o f)
    behind s (ran a l) h g =
        Good-weaken w (left l + v a) (s + 0) (f a l) (omega arith) ((rf a).run l (omega arith))
    behind s (failed e) h g = g
    behind s bad h g = g
    behind s stuck h g = g

pub lift-Runs :
    {A : Type 0} {w : A → ℕ} {n j : ℕ} {m : Asm A} (k : ℕ) → Runs w n j m → j ≤ k → Runs w n k m
lift-Runs {w = w} {j = j} {m = m} k r le = record {
  run = λ l h. Good-weaken w (left l + j) (left l + k) (m l) (omega arith) (r.run l h);
}

pub lower-Runs :
    {A : Type 0} {w : A → ℕ} {n j k : ℕ} {m : Asm A} → Runs w n k m → j ≤ n → Runs w j k m
lower-Runs r le = record { run = λ l h. r.run l (omega arith) }

pub give-Runs : {A : Type 0} {w : A → ℕ} {n k : ℕ} (a : A) → w a ≤ k → Runs w n k (give a)
unfolding give
give-Runs a le = record { run = λ l h. omega arith }

pub undefined-Runs : {A : Type 0} {w : A → ℕ} {n k : ℕ} → Runs w n k (undefined_step {A = A})
unfolding undefined_step
undefined-Runs = record { run = λ l h. tt }

pub length_error-Runs :
    {A : Type 0} {w : A → ℕ} {n k : ℕ} → Runs w n k (fail_with {A = A} length_error)
unfolding fail_with
length_error-Runs = record { run = λ l h. inr refl }

pub either-Runs :
    {A : Type 0} {w : A → ℕ} {n k : ℕ} {x y : Asm A} (b : Bool)
    → Runs w n k x
    → Runs w n k y
    → Runs w n k (either b x y)
either-Runs true rx ry = rx
either-Runs false rx ry = ry

read-Good : (s : ℕ) (r : Result (AsmToken × AsmLexer)) → Takes s r → Good weight (s + 0) (run_of r)
read-Good s (ok (t, l)) h = omega arith
read-Good s (thrown e) h = inl h
read-Good s undefined h = absurd h

pub read-Runs : {n : ℕ} → Runs weight n 0 read
unfolding read
read-Runs = record { run = λ l h. read-Good (left l) (asm_next l) (asm_next-Takes l) }

Good-forget : {A : Type 0} (w : A → ℕ) (s : ℕ) (o : Run A) → Good w s o → Good no_weight s o
Good-forget w s (ran a l) h = omega arith
Good-forget w s (failed e) h = h
Good-forget w s bad h = h
Good-forget w s stuck h = h

pub forget-Runs :
    {A : Type 0} {w : A → ℕ} {n k : ℕ} {m : Asm A} → Runs w n k m → Runs no_weight n k m
forget-Runs {w = w} {k = k} {m = m} r = record {
  run = λ l h. Good-forget w (left l + k) (m l) (r.run l h);
}

pub none-Runs : {A : Type 0} {w : A → ℕ} {k : ℕ} {m : Asm A} → Runs w 0 k m
none-Runs = record { run = λ l h. absurd (omega arith) }

pub weight_bound : (t : AsmToken) → weight t ≤ 1
weight_bound t = by_test (is_end t.kind)
  where
    by_test : (b : Bool) → (if b then 0 else 1) ≤ 1
    by_test b = ground arith

-- A token that ends no line takes a byte.
weight_inside : (k : AsmKind) → ends_line k ≡ false → is_end k ≡ false
weight_inside end e = e
weight_inside _ e = refl

-- The fuel is enough for the bytes that are left, with the token.
pub skip_rest-Runs :
    (fuel n : ℕ) (tok : AsmToken)
    → n + weight tok ≤ fuel
    → 0 < fuel
    → Runs weight n 0 (skip_rest fuel tok)
unfolding skip_rest
skip_rest-Runs fuel zero tok h pos = none-Runs
skip_rest-Runs zero (suc n) tok h pos = absurd (omega arith)
skip_rest-Runs (suc fuel) (suc n) tok h pos = elim (Bool-cases (ends_line tok.kind)) [
  | inl e ↦ rw e read-Runs
  | inr e ↦
      let one : weight tok ≡ 1 = ap (λ (b : Bool). if b then 0 else 1) (weight_inside tok.kind e) in
      rw e (
        bind-Runs read-Runs (λ t.
          let low = weight_bound t in
          lift-Runs (weight t)
            (skip_rest-Runs fuel (suc n - weight t) t (omega (arith, one, low))
              (omega (arith, one)))
            (omega arith)))
]
