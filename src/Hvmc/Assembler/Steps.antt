-- ===== src/Hvmc/Assembler/Steps.antt =====
-- Two runs of assemble in src/tools/hvmc/src/assembler.cpp that read the same tokens.
use hvmsys.Base.{◌≡◌, refl, sym, Bool, true, false}
use mathlib.Core.Path.{subst}
use hvmsys.Except.{Exception}
use hvmsys.Hvmc.AsmLexer.{AsmLexer}
use hvmsys.Hvmc.Assembler.State.{
  Run, ran, failed, bad, stuck, Asm, and_then, ◌>>=◌, give, either, fail_with, no_fuel,
  undefined_step,
}

-- The same end, with related results and the same bytes left.
abbrev pub SameEnd : {A B : Type 0} → (A → B → Type 0) → Run A → Run B → Type 0
SameEnd R (ran a l) (ran b k) = R a b × (l ≡ k)
SameEnd R (failed e) (failed f) = e ≡ f
SameEnd R bad bad = Unit {0}
SameEnd R stuck stuck = Unit {0}
SameEnd R _ _ = ⊥

-- The steps end alike from the same bytes.
pub record Together {A B : Type 0} (R : A → B → Type 0) (m : Asm A) (n : Asm B) : Type 0 where
  pub ends : (l : AsmLexer) → SameEnd R (m l) (n l)

pub SameEnd-map :
    {A B : Type 0} (R S : A → B → Type 0) (x : Run A) (y : Run B)
    → ((a : A) (b : B) → R a b → S a b)
    → SameEnd R x y
    → SameEnd S x y
SameEnd-map R S (ran a l) (ran b k) f (r, e) = (f a b r, e)
SameEnd-map R S (failed e) (failed e') f r = r
SameEnd-map R S bad bad f r = tt
SameEnd-map R S stuck stuck f r = tt
SameEnd-map R S _ _ f r = absurd r

SameEnd-bind :
    {A B C D : Type 0} (R : A → B → Type 0) (S : C → D → Type 0) (x : Run A) (y : Run B)
    (f : A → Asm C) (g : B → Asm D)
    → SameEnd R x y
    → ((a : A) (b : B) → R a b → Together S (f a) (g b))
    → SameEnd S (and_then x f) (and_then y g)
SameEnd-bind R S (ran a l) (ran b k) f g (r, e) h = rw (sym e) ((h a b r).ends l)
SameEnd-bind R S (failed e) (failed e') f g r h = r
SameEnd-bind R S bad bad f g r h = tt
SameEnd-bind R S stuck stuck f g r h = tt
SameEnd-bind R S _ _ f g r h = absurd r

pub bind-Together :
    {A B C D : Type 0} {R : A → B → Type 0} {S : C → D → Type 0} {m : Asm A} {n : Asm B}
    {f : A → Asm C} {g : B → Asm D}
    → Together R m n
    → ((a : A) (b : B) → R a b → Together S (f a) (g b))
    → Together S (m >>= f) (n >>= g)
unfolding ◌>>=◌
bind-Together {R = R} {S = S} {m = m} {n = n} {f = f} {g = g} t h = record {
  ends = λ l. SameEnd-bind R S (m l) (n l) f g (t.ends l) h;
}

pub give-Together :
    {A B : Type 0} {R : A → B → Type 0} (a : A) (b : B) → R a b → Together R (give a) (give b)
unfolding give
give-Together a b r = record { ends = λ l. (r, refl) }

pub undefined-Together :
    {A B : Type 0} {R : A → B → Type 0}
    → Together R (undefined_step {A = A}) (undefined_step {A = B})
unfolding undefined_step
undefined-Together = record { ends = λ l. tt }

pub fail-Together :
    {A B : Type 0} {R : A → B → Type 0} (e : Exception)
    → Together R (fail_with {A = A} e) (fail_with {A = B} e)
unfolding fail_with
fail-Together e = record { ends = λ l. refl }

pub either-Together :
    {A B : Type 0} {R : A → B → Type 0} {x y : Asm A} {z w : Asm B} (b : Bool)
    → Together R x z
    → Together R y w
    → Together R (either b x y) (either b z w)
either-Together true r s = r
either-Together false r s = s

pub no_fuel-Together :
    {A B : Type 0} {R : A → B → Type 0} → Together R (no_fuel {A = A}) (no_fuel {A = B})
unfolding no_fuel
no_fuel-Together = record { ends = λ l. tt }

-- The same step.
SameEnd-refl : {A : Type 0} (x : Run A) → SameEnd (λ a b. a ≡ b) x x
SameEnd-refl (ran a l) = (refl, refl)
SameEnd-refl (failed e) = refl
SameEnd-refl bad = tt
SameEnd-refl stuck = tt

pub same-Together : {A : Type 0} (m : Asm A) → Together (λ a b. a ≡ b) m m
same-Together m = record { ends = λ l. SameEnd-refl (m l) }

-- Behind a step that both take.
pub after-Together :
    {A C D : Type 0} {S : C → D → Type 0} (m : Asm A) {f : A → Asm C} {g : A → Asm D}
    → ((a : A) → Together S (f a) (g a))
    → Together S (m >>= f) (m >>= g)
after-Together {S = S} m {f = f} {g = g} h =
    bind-Together (same-Together m) (λ a b e. subst (λ c. Together S (f a) (g c)) e (h a))
