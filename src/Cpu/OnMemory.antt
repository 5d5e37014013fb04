-- ===== src/Cpu/OnMemory.antt =====
-- The executor of src/hvm_sim_core/executor.cpp on a MemorySystem of src/hvm_sim_mem/memory.cpp.
use hvmsys.Base.{ℕ, ◌≡◌, ◌≢◌, refl, ◌∙◌, ap, true, none}
use hvmsys.Except.{Result, ok, thrown, undefined, out_of_range}
use hvmsys.Mem.System.{MemorySystem, find_region}
use hvmsys.Mem.System
use hvmsys.Mem.System.Access.{half, word, dword, access_unmapped}
use hvmsys.Mem.System.Bytes.{byte_unmapped}
use hvmsys.Cpu.Mnemonic.{
  HvmMnemonic, Load, ld_b, ld_bu, ld_h, ld_hu, ld_w, ld_wu, ld_d, ld_p, Store, st_b, st_h, st_w,
  st_d, st_p, load, store,
}
use hvmsys.Cpu.State.{DecodedInst, Machine, Host, done, throws, trap}
use hvmsys.Cpu.Data.{address, exec_load, exec_store}
use hvmsys.Cpu.Execute.{execute_inst, finish, handle, step}
use hvmsys.Cpu.Laws.Step.{fetched, step_valid}

-- A read that leaves the memory as it is.
abbrev pub reading : {W : Type 0} → MemorySystem W → Result ℕ → Result (ℕ × MemorySystem W)
reading m (ok v) = ok (v, m)
reading m (thrown e) = thrown e
reading m undefined = undefined

module _ {R W : Type 0} where
  -- A host whose memory accesses are those of MemorySystem.
  abbrev pub on_memory : Host R (MemorySystem W) → Host R (MemorySystem W)
  on_memory h = record h {
    read_byte = System.read_byte;
    read_half = λ m a. reading m (System.read_half m a);
    read_word = λ m a. reading m (System.read_word m a);
    read_dword = λ m a. reading m (System.read_dword m a);
    write_byte = System.write_byte;
    write_half = System.write_half;
    write_word = System.write_word;
    write_dword = System.write_dword;
  }

  module _ (h : Host R (MemorySystem W)) where
    exec_load_unmapped :
        (k : Load) (di : DecodedInst) (m : Machine R (MemorySystem W))
        → k ≢ ld_p
        → find_region m.mem.regions (address (on_memory h) di m) ≡ none
        → exec_load (on_memory h) k di m ≡ throws out_of_range m
    unfolding exec_load
    exec_load_unmapped ld_b di m nk e =
        rw (byte_unmapped m.mem (address (on_memory h) di m) 0 e).0 refl
    exec_load_unmapped ld_bu di m nk e =
        rw (byte_unmapped m.mem (address (on_memory h) di m) 0 e).0 refl
    exec_load_unmapped ld_h di m nk e =
        rw (access_unmapped half m.mem (address (on_memory h) di m) 0 e).0 refl
    exec_load_unmapped ld_hu di m nk e =
        rw (access_unmapped half m.mem (address (on_memory h) di m) 0 e).0 refl
    exec_load_unmapped ld_w di m nk e =
        rw (access_unmapped word m.mem (address (on_memory h) di m) 0 e).0 refl
    exec_load_unmapped ld_wu di m nk e =
        rw (access_unmapped word m.mem (address (on_memory h) di m) 0 e).0 refl
    exec_load_unmapped ld_d di m nk e =
        rw (access_unmapped dword m.mem (address (on_memory h) di m) 0 e).0 refl
    exec_load_unmapped ld_p di m nk e = absurd (nk refl)

    exec_store_unmapped :
        (k : Store) (di : DecodedInst) (m : Machine R (MemorySystem W))
        → k ≢ st_p
        → find_region m.mem.regions (address (on_memory h) di m) ≡ none
        → exec_store (on_memory h) k di m ≡ throws out_of_range m
    unfolding exec_store
    exec_store_unmapped st_b di m nk e =
        rw (byte_unmapped m.mem (address (on_memory h) di m) _ e).1 refl
    exec_store_unmapped st_h di m nk e =
        rw (access_unmapped half m.mem (address (on_memory h) di m) _ e).1 refl
    exec_store_unmapped st_w di m nk e =
        rw (access_unmapped word m.mem (address (on_memory h) di m) _ e).1 refl
    exec_store_unmapped st_d di m nk e =
        rw (access_unmapped dword m.mem (address (on_memory h) di m) _ e).1 refl
    exec_store_unmapped st_p di m nk e = absurd (nk refl)

    execute_load_unmapped :
        (k' : HvmMnemonic) (k : Load) (di : DecodedInst) (m : Machine R (MemorySystem W))
        → k' ≡ load k
        → k ≢ ld_p
        → find_region m.mem.regions (address (on_memory h) di m) ≡ none
        → execute_inst (on_memory h) k' di m ≡ throws out_of_range m
    unfolding execute_inst
    execute_load_unmapped k' k di m e nk unmapped = rw e (exec_load_unmapped k di m nk unmapped)

    -- A valid load (not LD.P) from an address in no region of the memory: step returns true, and after
    -- decoding the only effect is a trap with cause 2, the one of an illegal instruction, at the pc of the load.
    pub step-load_unmapped :
        (k : Load) (di : DecodedInst) (m : Machine R (MemorySystem W)) (mem' : MemorySystem W)
        → k ≢ ld_p
        → h.decode_inst m.cpu m.mem ≡ ok (di, mem')
        → di.valid ≡ true
        → di.mnemonic ≡ load k
        → find_region mem'.regions (address (on_memory h) di m) ≡ none
        → step (on_memory h) m ≡ done (true, trap (on_memory h) (fetched h m mem') 2 m.cpu.pc)
    unfolding finish handle
    step-load_unmapped k di m mem' nk decodes valid is_load unmapped =
        step_valid (on_memory h) m di mem' decodes valid
        ∙ ap (finish (on_memory h))
            (execute_load_unmapped di.mnemonic k di (fetched h m mem') is_load nk unmapped)

    execute_store_unmapped :
        (k' : HvmMnemonic) (k : Store) (di : DecodedInst) (m : Machine R (MemorySystem W))
        → k' ≡ store k
        → k ≢ st_p
        → find_region m.mem.regions (address (on_memory h) di m) ≡ none
        → execute_inst (on_memory h) k' di m ≡ throws out_of_range m
    unfolding execute_inst
    execute_store_unmapped k' k di m e nk unmapped = rw e (exec_store_unmapped k di m nk unmapped)

    -- A valid store (not ST.P) to an address in no region of the memory: step returns true, and after
    -- decoding the only effect is a trap with cause 2 at the pc of the store, and no memory is written.
    step-store_unmapped :
        (k : Store) (di : DecodedInst) (m : Machine R (MemorySystem W)) (mem' : MemorySystem W)
        → k ≢ st_p
        → h.decode_inst m.cpu m.mem ≡ ok (di, mem')
        → di.valid ≡ true
        → di.mnemonic ≡ store k
        → find_region mem'.regions (address (on_memory h) di m) ≡ none
        → step (on_memory h) m ≡ done (true, trap (on_memory h) (fetched h m mem') 2 m.cpu.pc)
    unfolding finish handle
    step-store_unmapped k di m mem' nk decodes valid is_store unmapped =
        step_valid (on_memory h) m di mem' decodes valid
        ∙ ap (finish (on_memory h))
            (execute_store_unmapped di.mnemonic k di (fetched h m mem') is_store nk unmapped)
