-- ===== src/Cpu/Laws/Step.antt =====
-- `step` on an instruction that decodes.
use hvmsys.Base.{◌≡◌, true}
use hvmsys.Except.{ok}
use hvmsys.Cpu.State.{DecodedInst, Machine, Host}
use hvmsys.Cpu.Execute.{execute_inst, finish, run_decoded, step}

module _ {R M : Type 0} (h : Host R M) where
  -- The machine with the memory that decoding left.
  abbrev pub fetched : Machine R M → M → Machine R M
  fetched m mem' = record m { mem = mem' }

  pub step_valid :
      (m : Machine R M) (di : DecodedInst) (mem' : M)
      → h.decode_inst m.cpu m.mem ≡ ok (di, mem')
      → di.valid ≡ true
      → step h m ≡ finish h (execute_inst h di.mnemonic di (fetched m mem'))
  unfolding step run_decoded
  step_valid m di mem' decodes e = rw (decodes, e)
