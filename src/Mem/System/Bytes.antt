-- ===== src/Mem/System/Bytes.antt =====
-- The byte accesses of MemorySystem, which go to a device's callback where there is one.
use hvmsys.Base.{ℕ, ◌-◌, ◌<◌, ◌≡◌}
use hvmsys.Base.{true, false, List, none, some, arith}
use hvmsys.Except.{ok, thrown, out_of_range, runtime_error}
use hvmsys.Mem.Endian.Spec.{byte, lay}
use hvmsys.Mem.Endian.Laws.{store_byte_lem, at_lem}
use hvmsys.Mem.System.{
  MemoryRegion, MmioHandler, MemorySystem, contains, find_region, update_region, handler_of,
  read_region, read_byte, write_byte,
}
use hvmsys.Mem.System.Regions.{IsRegion, find_region-All, find_region-contains}
use hvmsys.Mem.System.Access.{IsValid}

contains-offset : (r : MemoryRegion) (addr : ℕ) → contains r addr ≡ true → addr - r.base < r.size
unfolding contains
contains-offset r addr c = ground arith

-- The offset of a mapped address lies in its region.
pub offset-lt :
    (rs : List MemoryRegion) (addr : ℕ) (r : MemoryRegion)
    → find_region rs addr ≡ some r
    → addr - r.base < r.size
offset-lt rs addr r e = contains-offset r addr (find_region-contains rs addr r e)

module _ {W : Type 0} (m : MemorySystem W) (addr : ℕ) where
  pub byte_unmapped :
      (v : ℕ)
      → find_region m.regions addr ≡ none
      → (read_byte m addr ≡ thrown out_of_range) × (write_byte m addr v ≡ thrown out_of_range)
  unfolding read_byte write_byte
  byte_unmapped v e = (rw e, rw e)

  module _ (r : MemoryRegion) (finds : find_region m.regions addr ≡ some r) where
    pub write_byte_read_only :
        (v : ℕ) → r.read_only ≡ true → write_byte m addr v ≡ thrown runtime_error
    unfolding write_byte
    write_byte_read_only v ro = rw (finds, ro)

    pub read_byte_device :
        (h : MmioHandler W)
        → handler_of m r ≡ some h
        → read_byte m addr
          ≡ ok ((h.on_read addr m.devices).0, record m { devices = (h.on_read addr m.devices).1 })
    unfolding read_byte
    read_byte_device h e = rw finds (rw (e, read_region))

    pub write_byte_device :
        (v : ℕ) (h : MmioHandler W)
        → r.read_only ≡ false
        → handler_of m r ≡ some h
        → write_byte m addr v ≡ ok (record m { devices = h.on_write addr v m.devices })
    unfolding write_byte
    write_byte_device v h writable e = rw finds (simp (writable, e))

    pub read_byte_memory :
        IsValid m → handler_of m r ≡ none → read_byte m addr ≡ ok (byte r.bytes (addr - r.base), m)
    unfolding read_byte
    read_byte_memory valid e =
        let region : IsRegion r = find_region-All IsRegion m.regions addr r finds valid in
        rw finds (
          rw (
            e,
            read_region,
            at_lem r.bytes (addr - r.base)
                (omega (arith, offset-lt m.regions addr r finds, region.length_is_size)),
          ))

    pub write_byte_memory :
        (v : ℕ)
        → IsValid m
        → v < 256
        → r.read_only ≡ false
        → handler_of m r ≡ none
        → write_byte m addr v
          ≡ ok (record m {
            regions = update_region m.regions addr (lay 1 r.bytes (addr - r.base) v);
          })
    unfolding write_byte
    write_byte_memory v valid small writable e =
        let region : IsRegion r = find_region-All IsRegion m.regions addr r finds valid in
        rw finds (
          simp (
            writable,
            e,
            store_byte_lem r.bytes (addr - r.base) v
                (omega (arith, offset-lt m.regions addr r finds, region.length_is_size)) small,
          ))
