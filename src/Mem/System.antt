-- ===== src/Mem/System.antt =====
-- MemorySystem of src/hvm_sim_mem/memory.cpp: a list of regions, searched in the order in which they
-- were added, and callbacks for memory-mapped devices.
pub mod Regions
pub mod Access
pub mod Outcomes
pub mod Bulk
pub mod Bytes
pub mod Invariant
pub mod Devices
use hvmsys.Base.{ℕ, ◌-◌, ◌&&◌, Bool, true, false, List, [], ◌∷◌, ◌++◌, length, replicate}
use hvmsys.Base.{Option, none, some, ltb, leb, ◌==◌, if◌then◌else◌}
use hvmsys.Base.Words.{add64}
use hvmsys.Except.{Result, ok, thrown, out_of_range, runtime_error, throw_if, ◌>>=◌, ◌>>◌}
use hvmsys.Mem.Endian.{
  at, load_half, load_word, load_dword, store_byte, store_half, store_word, store_dword,
}
use hvmsys.Mem.Flat.{copy_into, copy_out}

-- MemoryRegionType.
pub data RegionType : Type 0 where
  ram rom mmio reserved : RegionType

-- `bytes` is the field data.
pub record MemoryRegion : Type 0 where
  pub base : ℕ
  pub size : ℕ
  pub kind : RegionType
  pub bytes : List ℕ
  pub read_only : Bool

-- `W` is the state of the devices, which the callbacks may read and change.
pub record MmioHandler (W : Type 0) : Type 0 where
  pub on_read : ℕ → W → ℕ × W
  pub on_write : ℕ → ℕ → W → W

-- `handlers` is the map mmio_handlers_, the latest entry of a key first.
pub record MemorySystem (W : Type 0) : Type 0 where
  pub regions : List MemoryRegion
  pub handlers : List (ℕ × MmioHandler W)
  pub devices : W

abbrev pub is_mmio : RegionType → Bool
is_mmio mmio = true
is_mmio _ = false

unfoldable pub contains : MemoryRegion → ℕ → Bool
contains r addr = leb r.base addr && ltb addr (add64 r.base r.size)

-- The first region that holds the address.
unfoldable pub find_region : List MemoryRegion → ℕ → Option MemoryRegion
find_region [] addr = none
find_region (r ∷ rs) addr = if contains r addr then some r else find_region rs addr

-- A write through the pointer that `find_region` returned.
unfoldable pub update_region : List MemoryRegion → ℕ → List ℕ → List MemoryRegion
update_region [] addr d = []
update_region (r ∷ rs) addr d =
    if contains r addr then record r { bytes = d } ∷ rs else r ∷ update_region rs addr d

abbrev pub found : Option MemoryRegion → Result MemoryRegion
found none = thrown out_of_range
found (some r) = ok r

-- The region of the address and the offset in it. `addr` is at least `base`.
unfoldable pub bounds_check : List MemoryRegion → ℕ → ℕ → Result MemoryRegion
bounds_check rs addr size = do
  r ← found (find_region rs addr)
  throw_if (ltb r.size (add64 (addr - r.base) size)) out_of_range
  ok r

unfoldable pub lookup_handler {ℓ} : {H : Type ℓ} → List (ℕ × H) → ℕ → Option H
lookup_handler [] base = none
lookup_handler ((b, h) ∷ hs) base = if b == base then some h else lookup_handler hs base

-- The first region with this base and size.
unfoldable pub mark_read_only : List MemoryRegion → ℕ → ℕ → Bool → List MemoryRegion
mark_read_only [] base size ro = []
mark_read_only (r ∷ rs) base size ro =
    if (r.base == base) && (r.size == size)
    then record r { read_only = ro } ∷ rs
    else r ∷ mark_read_only rs base size ro

module _ {W : Type 0} where
  unfoldable pub empty : W → MemorySystem W
  empty w = record { regions = []; handlers = []; devices = w }

  -- `regions_.push_back(r)`.
  abbrev pub push_region : MemorySystem W → MemoryRegion → MemorySystem W
  push_region m r = record m { regions = m.regions ++ (r ∷ []) }

  unfoldable pub add_region : MemorySystem W → ℕ → ℕ → RegionType → Bool → MemorySystem W
  add_region m base size kind ro =
      push_region m
        (record { base = base; size = size; kind = kind; bytes = replicate size 0; read_only = ro })

  unfoldable pub add_rom : MemorySystem W → ℕ → List ℕ → MemorySystem W
  add_rom m base image =
      push_region m
        (record { base = base; size = length image; kind = rom; bytes = image; read_only = true })

  unfoldable pub add_ram : MemorySystem W → ℕ → ℕ → MemorySystem W
  add_ram m base size =
      push_region m (record {
        base = base;
        size = size;
        kind = ram;
        bytes = replicate size 0;
        read_only = false;
      })

  unfoldable pub add_mmio : MemorySystem W → ℕ → ℕ → MmioHandler W → MemorySystem W
  add_mmio m base size h =
      push_region (record m { handlers = (base, h) ∷ m.handlers })
        (record {
          base = base;
          size = size;
          kind = mmio;
          bytes = replicate size 0;
          read_only = false;
        })

  -- The callback that a byte access in this region goes to, if there is one.
  unfoldable pub handler_of : MemorySystem W → MemoryRegion → Option (MmioHandler W)
  handler_of m r = if is_mmio r.kind then lookup_handler m.handlers r.base else none

  -- A byte read once its region and callback are known.
  unfoldable pub read_region :
      MemorySystem W → ℕ → MemoryRegion → Option (MmioHandler W) → Result (ℕ × MemorySystem W)
  read_region m addr r (some h) =
      let (v, w) = h.on_read addr m.devices in ok (v, record m { devices = w })
  read_region m addr r none = do v ← at r.bytes (addr - r.base); ok (v, m)

  unfoldable pub read_byte : MemorySystem W → ℕ → Result (ℕ × MemorySystem W)
  unfolding read_region
  read_byte m addr = do
    r ← found (find_region m.regions addr)
    read_region m addr r (handler_of m r)

  unfoldable pub read_half : MemorySystem W → ℕ → Result ℕ
  read_half m addr = do r ← bounds_check m.regions addr 2; load_half r.bytes (addr - r.base)

  unfoldable pub read_word : MemorySystem W → ℕ → Result ℕ
  read_word m addr = do r ← bounds_check m.regions addr 4; load_word r.bytes (addr - r.base)

  unfoldable pub read_dword : MemorySystem W → ℕ → Result ℕ
  read_dword m addr = do r ← bounds_check m.regions addr 8; load_dword r.bytes (addr - r.base)

  -- The system after a store into the region of `addr`.
  abbrev pub stored : MemorySystem W → ℕ → List ℕ → Result (MemorySystem W)
  stored m addr d = ok (record m { regions = update_region m.regions addr d })

  unfoldable pub write_byte : MemorySystem W → ℕ → ℕ → Result (MemorySystem W)
  write_byte m addr v = do
    r ← found (find_region m.regions addr)
    throw_if r.read_only runtime_error
    elim (handler_of m r) [
      | some h ↦ ok (record m { devices = h.on_write addr v m.devices })
      | none ↦ do d ← store_byte r.bytes (addr - r.base) v; stored m addr d
    ]

  unfoldable pub write_half : MemorySystem W → ℕ → ℕ → Result (MemorySystem W)
  write_half m addr v = do
    r ← bounds_check m.regions addr 2
    throw_if r.read_only runtime_error
    d ← store_half r.bytes (addr - r.base) v
    stored m addr d

  unfoldable pub write_word : MemorySystem W → ℕ → ℕ → Result (MemorySystem W)
  write_word m addr v = do
    r ← bounds_check m.regions addr 4
    throw_if r.read_only runtime_error
    d ← store_word r.bytes (addr - r.base) v
    stored m addr d

  unfoldable pub write_dword : MemorySystem W → ℕ → ℕ → Result (MemorySystem W)
  write_dword m addr v = do
    r ← bounds_check m.regions addr 8
    throw_if r.read_only runtime_error
    d ← store_dword r.bytes (addr - r.base) v
    stored m addr d

  unfoldable pub read_bytes : MemorySystem W → ℕ → ℕ → Result (List ℕ)
  read_bytes m addr len = do
    r ← bounds_check m.regions addr len
    copy_out r.bytes (addr - r.base) (add64 (addr - r.base) len)

  unfoldable pub write_bytes : MemorySystem W → ℕ → List ℕ → Result (MemorySystem W)
  write_bytes m addr src = do
    r ← bounds_check m.regions addr (length src)
    throw_if r.read_only runtime_error
    d ← copy_into r.bytes (addr - r.base) src
    stored m addr d

  unfoldable pub set_read_only : MemorySystem W → ℕ → ℕ → Bool → MemorySystem W
  set_read_only m base size ro = record m { regions = mark_read_only m.regions base size ro }

  unfoldable pub clear : MemorySystem W → MemorySystem W
  clear m = record m { regions = []; handlers = [] }

-- `total += region.size` in uint64_t.
unfoldable pub sum_sizes : List MemoryRegion → ℕ → ℕ
sum_sizes [] total = total
sum_sizes (r ∷ rs) total = sum_sizes rs (add64 total r.size)

unfoldable pub get_total_size : {W : Type 0} → MemorySystem W → ℕ
get_total_size m = sum_sizes m.regions 0
