-- ===== src/Except.antt =====
-- C++ exceptions as values. `out_of_range` and `runtime_error` are the ones that
-- src/hvm_sim_mem/memory.cpp throws; `hvm` is an HvmException with its type and its pc, and `other`
-- any other std::exception, which the code of a parameter may throw. `length_error` is what a vector throws
-- that would grow past its max_size().
use hvmsys.Base.{ℕ, Bool, true, false, ◌≡◌, refl}

-- The types of HvmException that src/hvm_sim_core/executor.cpp names; `other_type` is any other.
pub data ExceptionType : Type 0 where
  invalid_instruction memory_access_violation division_by_zero : ExceptionType
  breakpoint system_call other_type : ExceptionType

pub data Exception : Type 0 where
  out_of_range runtime_error length_error other : Exception
  hvm : ExceptionType → ℕ → Exception

-- `undefined` is undefined behaviour, such as an index outside a vector.
pub data Result {ℓ} (A : Type ℓ) : Type ℓ where
  ok : A → Result A
  thrown : Exception → Result A
  undefined : Result A

-- A statement after one that may throw.
infixl 5 ◌>>=◌
abbrev pub ◌>>=◌ {ℓ κ} : {V : Type ℓ} {U : Type κ} → Result V → (V → Result U) → Result U
undefined >>= next = undefined
thrown exception >>= next = thrown exception
ok v >>= next = next v

infixl 5 ◌>>◌
abbrev pub ◌>>◌ {ℓ} : {U : Type ℓ} → Result (Unit {0}) → Result U → Result U
statement >> next = statement >>= λ void. next

-- `if (bad) throw e;`
abbrev pub throw_if : Bool → Exception → Result (Unit {0})
throw_if false exception = ok tt
throw_if true exception = thrown exception

-- A chain that returned went through its first statement.
pub >>=-eq-ok {ℓ κ} :
    {V : Type ℓ} {U : Type κ} {u : U} (statement : Result V) (next : V → Result U)
    (returned : (statement >>= next) ≡ ok u)
    → (v : V) × (statement ≡ ok v) × (next v ≡ ok u)
>>=-eq-ok undefined next returned = cc
>>=-eq-ok (thrown exception) next returned = cc
>>=-eq-ok (ok v) next returned = (v, refl, returned)

pub ok-injective {ℓ} : {A : Type ℓ} {a b : A} → ok a ≡ ok b → a ≡ b
ok-injective h = cc
