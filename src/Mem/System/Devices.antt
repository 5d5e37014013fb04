-- ===== src/Mem/System/Devices.antt =====
-- Memory-mapped devices: add_mmio of src/hvm_sim_mem/memory.cpp and the accesses behind it.
use hvmsys.Base.{
  ℕ, zero, suc, ◌+◌, ◌-◌, ◌≤◌, ◌<◌, ◌^◌, ◌≡◌, refl, ap, ◌∙◌, arith, true, false, List, [], ◌∷◌,
  ◌++◌, none, some, replicate,
}
use hvmsys.Except.{ok}
use hvmsys.Mem.Endian.Spec.{byte, value_at}
use hvmsys.Mem.System.{
  MemoryRegion, mmio, MmioHandler, MemorySystem, contains, find_region, lookup_handler, handler_of,
  add_mmio, read_byte, write_byte,
}
use hvmsys.Mem.System.Access.{
  IsValid, Wide, half, word, dword, size_of, read, write, Hits, read_inside, write_inside,
}
use hvmsys.Mem.System.Bytes.{read_byte_device, write_byte_device}
use hvmsys.Mem.System.Invariant.{add_mmio-IsValid}

byte_zeros : (n i : ℕ) → byte (replicate n 0) i ≡ 0
byte_zeros zero i = refl
byte_zeros (suc n) zero = refl
byte_zeros (suc n) (suc i) = byte_zeros n i

value_at-zeros : (k n i : ℕ) → value_at k (replicate n 0) i ≡ 0
unfolding value_at
value_at-zeros zero n i = refl
value_at-zeros (suc k) n i = omega (arith, byte_zeros n i, value_at-zeros k n (i + 1))

-- A region behind others that do not hold the address.
find_region-last :
    (rs : List MemoryRegion) (addr : ℕ) (r : MemoryRegion)
    → find_region rs addr ≡ none
    → contains r addr ≡ true
    → find_region (rs ++ (r ∷ [])) addr ≡ some r
unfolding find_region
find_region-last [] addr r free holds = rw holds refl
find_region-last (x ∷ rs) addr r free holds =
    ground (arith, find_region-last rs addr r, free, holds)

-- The region that add_mmio makes.
abbrev device_region : ℕ → ℕ → MemoryRegion
device_region base size = record {
  base = base;
  size = size;
  kind = mmio;
  bytes = replicate size 0;
  read_only = false;
}

size_of_pos : (w : Wide) → 0 < size_of w
size_of_pos half = omega arith
size_of_pos word = omega arith
size_of_pos dword = omega arith

module _ {W : Type 0} (m : MemorySystem W) (base size : ℕ) (h : MmioHandler W) where
  device-handler : handler_of (add_mmio m base size h) (device_region base size) ≡ some h
  unfolding handler_of add_mmio lookup_handler
  device-handler = ground arith

  device-found :
      (addr : ℕ)
      → find_region m.regions addr ≡ none
      → base ≤ addr
      → addr < base + size
      → base + size < 2 ^ 64
      → find_region (add_mmio m base size h).regions addr ≡ some (device_region base size)
  unfolding add_mmio contains
  device-found addr free low high fits =
      find_region-last m.regions addr (device_region base size) free (ground arith)

  -- To a valid system a device of fewer than 2^63 bytes is added whose addresses do not wrap around. At an
  -- address that no earlier region holds, with room for the access in the device, byte reads and writes are
  -- those of its callback, whatever callbacks there were before, while a wide read gives 0 and a wide write
  -- succeeds, both without the callback.
  pub add_mmio-access :
      (w : Wide) (addr val : ℕ)
      → IsValid m
      → size < 2 ^ 63
      → base + size < 2 ^ 64
      → find_region m.regions addr ≡ none
      → base ≤ addr
      → addr + size_of w ≤ base + size
      → (read_byte (add_mmio m base size h) addr
          ≡ ok (
            (h.on_read addr m.devices).0,
            record (add_mmio m base size h) { devices = (h.on_read addr m.devices).1 },
          ))
        × (write_byte (add_mmio m base size h) addr val
            ≡ ok (record (add_mmio m base size h) { devices = h.on_write addr val m.devices }))
        × (read w (add_mmio m base size h) addr ≡ ok 0)
        × ((m' : MemorySystem W) × (write w (add_mmio m base size h) addr val ≡ ok m')
            × (m'.devices ≡ m.devices))
  unfolding add_mmio
  add_mmio-access w addr val valid small fits free low high =
      let s : MemorySystem W = add_mmio m base size h in
      let r : MemoryRegion = device_region base size in
      let v : IsValid s = add_mmio-IsValid m base size h valid small in
      let some_byte : 0 < size_of w = size_of_pos w in
      let hits : Hits s.regions w addr r = record {
        finds = device-found addr free low (omega arith) fits;
        room = omega arith;
      } in
      (
        read_byte_device s addr r hits.finds h device-handler,
        write_byte_device s addr r hits.finds val h refl device-handler,
        read_inside w s addr r v hits ∙ ap ok (value_at-zeros (size_of w) size (addr - base)),
        (_, write_inside w s addr val r v hits refl, refl),
      )
