-- ===== src/Mem/Examples.antt =====
-- Runs of the memory models on concrete inputs, and the theorems at such inputs.
use hvmsys.Base.{ℕ, ◌+◌, ◌≡◌, ◌≢◌, refl, arith, true, false, [], ◌∷◌}
use hvmsys.Base.{replicate, none}
use hvmsys.Except.{ok, thrown, undefined, out_of_range, runtime_error}
use hvmsys.Mem.Endian.{at, put, load_word, store_word}
use hvmsys.Mem.Flat.{FlatMemory, load, dump, check_bounds}
use hvmsys.Mem.Flat
use hvmsys.Mem.Flat.Access.{one, two, four, eight, access_outside}
use hvmsys.Mem.Flat.Bulk.{IsLoaded, load-IsLoaded}
use hvmsys.Mem.System.{
  MemoryRegion, RegionType, MmioHandler, MemorySystem, empty, find_region, add_ram, add_rom,
  add_mmio, set_read_only, push_region, write_bytes, read_bytes, handler_of,
}
use hvmsys.Mem.System
use hvmsys.Mem.System.Access.{IsValid, Hits, half, word, dword, access_straddling, access_unmapped}
use hvmsys.Mem.System.Outcomes.{access_defined}
use hvmsys.Mem.System.Invariant.{here, next, adds_ram, Reach-IsValid}
use hvmsys.Mem.System.Bulk.{read_bytes-write_bytes, read-push_region}
use hvmsys.Mem.System.Devices.{add_mmio-access}

abbrev sixteen : FlatMemory
sixteen = record { bytes = replicate 16 0 }

sixteen-IsValid : Flat.Access.IsValid sixteen
sixteen-IsValid = record { bytes_in_range = omega arith; size_fits = omega arith }

word_bytes :
    Flat.write_word sixteen 12 0xdeadbeef
    ≡ ok (record {
      bytes = 0 ∷ 0 ∷ 0 ∷ 0 ∷ 0 ∷ 0 ∷ 0 ∷ 0 ∷ 0 ∷ 0 ∷ 0 ∷ 0 ∷ 0xef ∷ 0xbe ∷ 0xad ∷ 0xde ∷ [];
    })
unfolding Flat.write_word check_bounds store_word put
word_bytes = refl

word_over_end : Flat.read_word sixteen 13 ≡ thrown out_of_range
unfolding Flat.read_word check_bounds
word_over_end = refl

write-IsWritten_example :
    Flat.Access.IsWritten four sixteen 12 0xdeadbeef (Flat.Access.write four sixteen 12 0xdeadbeef)
write-IsWritten_example =
    Flat.Access.write-IsWritten four sixteen 12 0xdeadbeef sixteen-IsValid (omega arith)
      (omega arith)

access_outside_example :
    (Flat.Access.read eight sixteen 9 ≡ thrown out_of_range)
    × (Flat.Access.write eight sixteen 9 1 ≡ thrown out_of_range)
access_outside_example = access_outside eight sixteen 9 1 sixteen-IsValid (omega arith)

load-IsLoaded_example : IsLoaded sixteen 3 (1 ∷ 2 ∷ []) (load sixteen 3 (1 ∷ 2 ∷ []))
load-IsLoaded_example =
    load-IsLoaded sixteen 3 (1 ∷ 2 ∷ []) (omega arith) (omega arith) (omega arith)

-- Eight bytes of RAM at 0x100, four of ROM at 0x200, a device with a counter at 0x300.
abbrev ram_region : MemoryRegion
ram_region = record {
  base = 0x100;
  size = 8;
  kind = RegionType.ram;
  bytes = replicate 8 0;
  read_only = false;
}

abbrev rom_region : MemoryRegion
rom_region = record {
  base = 0x200;
  size = 4;
  kind = RegionType.rom;
  bytes = 1 ∷ 2 ∷ 3 ∷ 4 ∷ [];
  read_only = true;
}

abbrev port_region : MemoryRegion
port_region = record {
  base = 0x300;
  size = 4;
  kind = RegionType.mmio;
  bytes = replicate 4 0;
  read_only = false;
}

abbrev counter : MmioHandler ℕ
counter = record { on_read = λ a w. (7, w + 1); on_write = λ a v w. v }

abbrev board : MemorySystem ℕ
board = record {
  regions = ram_region ∷ rom_region ∷ port_region ∷ [];
  handlers = (0x300, counter) ∷ [];
  devices = 5;
}

board-IsValid : IsValid board
board-IsValid = (
  record { length_is_size = refl; size_fits = omega arith; bytes_in_range = omega arith },
  (
    record { length_is_size = refl; size_fits = omega arith; bytes_in_range = omega arith },
    (record { length_is_size = refl; size_fits = omega arith; bytes_in_range = omega arith }, tt),
  ),
)

at_ram : Hits board.regions word 0x104 ram_region
unfolding find_region System.contains
at_ram = record { finds = refl; room = omega arith }

rom_read : System.read_word board 0x200 ≡ ok 0x04030201
unfolding System.read_word System.bounds_check find_region System.contains load_word at
rom_read = refl

rom_write : System.write_half board 0x202 9 ≡ thrown runtime_error
unfolding System.write_half System.bounds_check find_region System.contains
rom_write = refl

wide_write-IsWritten_example :
    System.Outcomes.IsWritten word board 0x104 0x12345678
      (System.Access.write word board 0x104 0x12345678)
wide_write-IsWritten_example =
    System.Outcomes.wide_write-IsWritten word board 0x104 0x12345678 board-IsValid
      (ram_region, at_ram, refl) (omega arith)

access_defined_example :
    (System.Access.read dword board 0x106 ≢ undefined)
    × (System.Access.write dword board 0x106 1 ≢ undefined)
access_defined_example = access_defined dword board 0x106 1 board-IsValid (omega arith)

Reach-IsValid_example : IsValid {W = ℕ} (add_ram (empty 5) 0x100 8)
Reach-IsValid_example = Reach-IsValid 5 (next here (adds_ram (empty 5) 0x100 8 (omega arith)))

read_bytes-write_bytes_example :
    (m' : MemorySystem ℕ) × (write_bytes board 0x104 (9 ∷ 8 ∷ []) ≡ ok m')
    × (read_bytes m' 0x104 2 ≡ ok (9 ∷ 8 ∷ []))
read_bytes-write_bytes_example =
    read_bytes-write_bytes board 0x104 (9 ∷ 8 ∷ []) ram_region board-IsValid at_ram.finds refl
      (omega arith)

read-push_region_example :
    System.Access.read word (push_region board rom_region) 0x104
    ≡ System.Access.read word board 0x104
read-push_region_example = read-push_region word board 0x104 ram_region rom_region at_ram.finds

free_at : find_region board.regions 0x402 ≡ none
unfolding find_region System.contains
free_at = refl

-- Another device behind the board.
add_mmio-access_example :
    (System.read_byte (add_mmio board 0x400 8 counter) 0x402
      ≡ ok (7, record (add_mmio board 0x400 8 counter) { devices = 6 }))
    × (System.write_byte (add_mmio board 0x400 8 counter) 0x402 2
        ≡ ok (record (add_mmio board 0x400 8 counter) { devices = 2 }))
    × (System.Access.read half (add_mmio board 0x400 8 counter) 0x402 ≡ ok 0)
    × ((m' : MemorySystem ℕ) × (System.Access.write half (add_mmio board 0x400 8 counter) 0x402 2
          ≡ ok m')
        × (m'.devices ≡ 5))
add_mmio-access_example =
    add_mmio-access board 0x400 8 counter half 0x402 2 board-IsValid (omega arith) (omega arith)
      free_at (omega arith) (omega arith)
