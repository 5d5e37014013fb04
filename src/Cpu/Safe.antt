-- ===== src/Cpu/Safe.antt =====
-- The helpers safe_read and safe_write of src/hvm_sim_core/executor.cpp, which report the memory's
-- exceptions as memory access violations at the pc of the instruction. MemoryAccessException, of the
-- missing headers, is an HvmException of that type with that pc.
use hvmsys.Base.{ℕ}
use hvmsys.Except.{hvm, out_of_range, runtime_error, memory_access_violation, Result, thrown}
use hvmsys.Cpu.State.{Host}

-- The catch clause of the reads.
unfoldable pub as_read_violation {ℓ} : {A : Type ℓ} → ℕ → Result A → Result A
as_read_violation pc (thrown out_of_range) = thrown (hvm memory_access_violation pc)
as_read_violation pc r = r

-- The two catch clauses of the writes.
unfoldable pub as_write_violation {ℓ} : {A : Type ℓ} → ℕ → Result A → Result A
as_write_violation pc (thrown out_of_range) = thrown (hvm memory_access_violation pc)
as_write_violation pc (thrown runtime_error) = thrown (hvm memory_access_violation pc)
as_write_violation pc r = r

module _ {R M : Type 0} (h : Host R M) where
  unfoldable pub safe_read_byte : M → ℕ → ℕ → Result (ℕ × M)
  unfolding as_read_violation
  safe_read_byte mem addr pc = as_read_violation pc (h.read_byte mem addr)

  unfoldable pub safe_read_half : M → ℕ → ℕ → Result (ℕ × M)
  unfolding as_read_violation
  safe_read_half mem addr pc = as_read_violation pc (h.read_half mem addr)

  unfoldable pub safe_read_word : M → ℕ → ℕ → Result (ℕ × M)
  unfolding as_read_violation
  safe_read_word mem addr pc = as_read_violation pc (h.read_word mem addr)

  unfoldable pub safe_read_dword : M → ℕ → ℕ → Result (ℕ × M)
  unfolding as_read_violation
  safe_read_dword mem addr pc = as_read_violation pc (h.read_dword mem addr)

  unfoldable pub safe_write_byte : M → ℕ → ℕ → ℕ → Result M
  unfolding as_write_violation
  safe_write_byte mem addr v pc = as_write_violation pc (h.write_byte mem addr v)

  unfoldable pub safe_write_half : M → ℕ → ℕ → ℕ → Result M
  unfolding as_write_violation
  safe_write_half mem addr v pc = as_write_violation pc (h.write_half mem addr v)

  unfoldable pub safe_write_word : M → ℕ → ℕ → ℕ → Result M
  unfolding as_write_violation
  safe_write_word mem addr v pc = as_write_violation pc (h.write_word mem addr v)

  unfoldable pub safe_write_dword : M → ℕ → ℕ → ℕ → Result M
  unfolding as_write_violation
  safe_write_dword mem addr v pc = as_write_violation pc (h.write_dword mem addr v)
