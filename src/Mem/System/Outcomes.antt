-- ===== src/Mem/System/Outcomes.antt =====
-- Every outcome of a 2, 4 or 8 byte access of MemorySystem, and the frame of a write.
use hvmsys.Base.{ℕ, ◌+◌, ◌-◌, ◌≤◌, ◌<◌, ◌^◌, ◌≡◌, ◌≢◌, refl, sym, ap, ◌∙◌, inl, inr, ◌⊎◌}
use hvmsys.Base.{true, false, List, Option, none, some, arith}
use hvmsys.Base.{if◌then◌else◌, ltb, Bool-cases, Option-cases, lt→ltb, le→ltb_false}
use hvmsys.Except.{Result, ok, thrown, undefined, out_of_range}
use hvmsys.Mem.Endian.Spec.{
  value_at, lay, length-lay, lay-IsByte, value_at-lay_outside, value_at-lay,
}
use hvmsys.Mem.System.{MemoryRegion, MemorySystem, contains, find_region, update_region}
use hvmsys.Mem.System.Regions.{
  IsRegion, with_bytes, find_region-All, find_region-contains, find_region-update_region,
  find_region-update_frame, update_region-All,
}
use hvmsys.Mem.System.Access.{
  IsValid, Wide, size_of, read, write, Hits, read_inside, write_inside, access_unmapped,
  access_straddling, write_read_only,
}
use mathlib.Core.Option

-- Where an access goes: nowhere, past the end of its region, or into a region with room.
pub data Place (rs : List MemoryRegion) (w : Wide) (addr : ℕ) : Type 0 where
  unmapped : find_region rs addr ≡ none → Place rs w addr
  straddles :
      (r : MemoryRegion)
      → find_region rs addr ≡ some r
      → r.size < addr - r.base + size_of w
      → Place rs w addr
  inside : (r : MemoryRegion) → Hits rs w addr r → Place rs w addr

pub place : (rs : List MemoryRegion) (w : Wide) (addr : ℕ) → Place rs w addr
place rs w addr = elim (Option-cases (find_region rs addr)) [
  | inl e ↦ unmapped e
  | inr (r, e) ↦ elim (Bool-cases (ltb r.size (addr - r.base + size_of w))) [
    | inl over ↦ straddles r e (ground arith)
    | inr fits ↦ inside r (record { finds = e; room = ground arith })
  ]
]

module _ {W : Type 0} where
  -- A writable region holds the whole range.
  abbrev pub CanWrite : Wide → MemorySystem W → ℕ → Type 0
  CanWrite w m addr = (r : MemoryRegion) × Hits m.regions w addr r × (r.read_only ≡ false)

  -- A 2, 4 or 8 byte access of a valid system at any 64-bit address indexes no vector out of range.
  pub access_defined :
      (w : Wide) (m : MemorySystem W) (addr val : ℕ)
      → IsValid m
      → addr < 2 ^ 64
      → (read w m addr ≢ undefined) × (write w m addr val ≢ undefined)
  access_defined w m addr val v small = elim (place m.regions w addr) [
    | unmapped e ↦ let t = access_unmapped w m addr val e in (λ u. cc (t.0), λ u. cc (t.1))
    | straddles r e over ↦
        let t = access_straddling w m addr val r v small e over in (λ u. cc (t.0), λ u. cc (t.1))
    | inside r h ↦ (
      λ u. cc (read_inside w m addr r v h),
      elim (Bool-cases r.read_only) [
        | inl ro ↦ λ u. cc (write_read_only w m addr val r v h ro)
        | inr writable ↦ λ u. cc (write_inside w m addr val r v h writable)
      ],
    )
  ]

-- The value of a read of `w` bytes at `j`, seen from the region that holds `j`.
from_region : Wide → ℕ → MemoryRegion → Result ℕ
from_region w j r =
    if ltb r.size (j - r.base + size_of w)
    then thrown out_of_range
    else ok (value_at (size_of w) r.bytes (j - r.base))

from_found : Option (Result ℕ) → Result ℕ
from_found none = thrown out_of_range
from_found (some x) = x

-- A store into a region leaves what a disjoint read of it sees.
from_region-lay :
    (u : Wide) (j : ℕ) (w : Wide) (addr val : ℕ) (r : MemoryRegion)
    → contains r addr ≡ true
    → contains r j ≡ true
    → (j + size_of u ≤ addr) ⊎ (addr + size_of w ≤ j)
    → from_region u j (with_bytes r (lay (size_of w) r.bytes (addr - r.base) val))
      ≡ from_region u j r
unfolding from_region contains
from_region-lay u j w addr val r c d apart = rw (
    value_at-lay_outside (size_of u) (size_of w) r.bytes (addr - r.base) val (j - r.base)
      (ground (arith, c, d)))

module _ {W : Type 0} where
  read_view :
      (w : Wide) (m : MemorySystem W) (j : ℕ)
      → IsValid m
      → j < 2 ^ 64
      → read w m j ≡ from_found (Option.map (from_region w j) (find_region m.regions j))
  unfolding from_region from_found
  read_view w m j v small = elim (place m.regions w j) [
    | unmapped e ↦ (access_unmapped w m j 0 e).0 ∙ rw e
    | straddles r e over ↦
        (access_straddling w m j 0 r v small e over).0
        ∙ rw (e, lt→ltb r.size (j - r.base + size_of w) over)
    | inside r h ↦
        read_inside w m j r v h ∙ rw (h.finds, le→ltb_false r.size (j - r.base + size_of w) h.room)
  ]

-- What a successful write leaves.
pub record IsWritten {W : Type 0} (w : Wide) (m : MemorySystem W) (addr val : ℕ)
    (result : Result (MemorySystem W)) : Type 0 where
  pub after : MemorySystem W
  pub returned : result ≡ ok after
  pub valid : IsValid after
  pub same_devices : after.devices ≡ m.devices
  pub read_back : read w after addr ≡ ok val
  pub others :
      (u : Wide) (j : ℕ)
      → j < 2 ^ 64
      → (j + size_of u ≤ addr) ⊎ (addr + size_of w ≤ j)
      → read u after j ≡ read u m j

module _ {W : Type 0} where
  -- In a valid system a write of 2, 4 or 8 bytes, of a value that fits them, into a writable region
  -- that has room for it succeeds and keeps the system valid and its devices as they are; the same
  -- read then returns the value, and a read at a 64-bit address of any of these widths that touches
  -- none of the bytes returns what it returned before.
  pub wide_write-IsWritten :
      (w : Wide) (m : MemorySystem W) (addr val : ℕ)
      → IsValid m
      → CanWrite w m addr
      → val < 256 ^ size_of w
      → IsWritten w m addr val (write w m addr val)
  wide_write-IsWritten w m addr val v (r, h, writable) small =
      let region : IsRegion r = find_region-All IsRegion m.regions addr r h.finds v in
      let d : List ℕ = lay (size_of w) r.bytes (addr - r.base) val in
      let m' : MemorySystem W = record m { regions = update_region m.regions addr d } in
      let r' : MemoryRegion = with_bytes r d in
      let region' : IsRegion r' = record {
        length_is_size = length-lay (size_of w) r.bytes (addr - r.base) val ∙ region.length_is_size;
        size_fits = region.size_fits;
        bytes_in_range = lay-IsByte (size_of w) r.bytes (addr - r.base) val region.bytes_in_range;
      } in
      let v' : IsValid m' = update_region-All IsRegion m.regions addr d r h.finds region' v in
      let h' : Hits m'.regions w addr r' = record {
        finds = find_region-update_region m.regions addr d r h.finds;
        room = h.room;
      } in
      record {
        after = m';
        returned = write_inside w m addr val r v h writable;
        valid = v';
        same_devices = refl;
        read_back =
            read_inside w m' addr r' v' h'
            ∙ ap ok (
                value_at-lay (size_of w) r.bytes (addr - r.base) val
                  (omega (arith, h.room, region.length_is_size)) small);
        others = λ u j j_small apart.
            read_view u m' j v' j_small
            ∙ ap from_found (
                find_region-update_frame (from_region u j) m.regions addr d r j h.finds (λ c.
                  from_region-lay u j w addr val r (find_region-contains m.regions addr r h.finds) c
                    apart))
            ∙ sym (read_view u m j v j_small);
      }
