-- ===== src/Mem/System/Bulk.antt =====
-- read_bytes and write_bytes of MemorySystem, and regions that are added later.
use hvmsys.Base.{ℕ, ◌+◌, ◌-◌, ◌≤◌, ◌<◌, ◌^◌, ◌≡◌, sym, ◌∙◌}
use hvmsys.Base.{false, List, [], ◌∷◌, ◌++◌, some, arith, length}
use hvmsys.Base.Words.{add64}
use hvmsys.Except.{ok}
use hvmsys.Mem.Flat.Bulk.{overlay, copy_into_fits, copy_out-overlay}
use hvmsys.Mem.System.{
  MemoryRegion, MemorySystem, push_region, find_region, update_region, bounds_check,
}
use hvmsys.Mem.System.{read_bytes, write_bytes}
use hvmsys.Mem.System.Regions.{
  IsRegion, with_bytes, find_region-All, find_region-append, find_region-update_region,
}
use hvmsys.Mem.System.Access.{IsValid, Wide, size_of, read, read_lem}

-- A transfer of `n` bytes stays in the region of its address.
bounds_check_range :
    (rs : List MemoryRegion) (addr n : ℕ) (r : MemoryRegion)
    → find_region rs addr ≡ some r
    → r.size < 2 ^ 63
    → addr - r.base + n ≤ r.size
    → bounds_check rs addr n ≡ ok r
unfolding bounds_check
bounds_check_range rs addr n r finds small fits = rw finds (ground arith)

bounds_check-append :
    (rs more : List MemoryRegion) (addr n : ℕ) (r : MemoryRegion)
    → find_region rs addr ≡ some r
    → bounds_check (rs ++ more) addr n ≡ bounds_check rs addr n
unfolding bounds_check
bounds_check-append rs more addr n r finds = rw (finds, find_region-append rs more addr r finds)

module _ {W : Type 0} where
  -- In a writable region of a valid system, with room, write_bytes succeeds, and read_bytes of the
  -- same range then returns what was written.
  pub read_bytes-write_bytes :
      (m : MemorySystem W) (addr : ℕ) (src : List ℕ) (r : MemoryRegion)
      → IsValid m
      → find_region m.regions addr ≡ some r
      → r.read_only ≡ false
      → addr - r.base + length src ≤ r.size
      → (m' : MemorySystem W) × (write_bytes m addr src ≡ ok m')
        × (read_bytes m' addr (length src) ≡ ok src)
  read_bytes-write_bytes m addr src r v finds writable fits =
      let region : IsRegion r = find_region-All IsRegion m.regions addr r finds v in
      let at : ℕ = addr - r.base in
      let room : at + length src ≤ length r.bytes = omega (arith, fits, region.length_is_size) in
      let d : List ℕ = overlay r.bytes at src in
      let m' : MemorySystem W = record m { regions = update_region m.regions addr d } in
      let e : add64 at (length src) ≡ at + length src = omega (arith, fits, region.size_fits) in
      (
        m',
        unfold write_bytes in
            rw (bounds_check_range m.regions addr (length src) r finds region.size_fits fits)
              (simp (writable, copy_into_fits r.bytes at src room)),
        unfold read_bytes in
            rw
              (
                bounds_check_range m'.regions addr (length src) (with_bytes r d)
                    (find_region-update_region m.regions addr d r finds) region.size_fits fits,
                e,
              )
              (copy_out-overlay r.bytes at src room),
      )

  -- A region added later, overlapping or not, does not change what a 2, 4 or 8 byte read of a mapped
  -- address returns.
  pub read-push_region :
      (w : Wide) (m : MemorySystem W) (addr : ℕ) (r extra : MemoryRegion)
      → find_region m.regions addr ≡ some r
      → read w (push_region m extra) addr ≡ read w m addr
  read-push_region w m addr r extra finds =
      read_lem w (push_region m extra) addr
      ∙ rw (bounds_check-append m.regions (extra ∷ []) addr (size_of w) r finds)
          (sym (read_lem w m addr))
