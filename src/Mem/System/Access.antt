-- ===== src/Mem/System/Access.antt =====
-- The 2, 4 and 8 byte accesses of MemorySystem: what they return, when they throw, what they keep.
use hvmsys.Base.{ℕ, ◌+◌, ◌-◌, ◌≤◌, ◌<◌, ◌^◌, ◌≡◌, refl, ◌∙◌}
use hvmsys.Base.{true, false, List, none, some, arith, length, All}
use hvmsys.Base.Words.{IsByte}
use hvmsys.Except.{Result, ok, thrown, out_of_range, runtime_error, throw_if, ◌>>=◌}
use hvmsys.Mem.Endian.{load_half, load_word, load_dword, store_half, store_word, store_dword}
use hvmsys.Mem.Endian.Spec.{value_at, lay}
use hvmsys.Mem.Endian.Laws.{
  load_half_lem, load_word_lem, load_dword_lem, store_half_lem, store_word_lem, store_dword_lem,
}
use hvmsys.Mem.System.{
  MemoryRegion, MemorySystem, contains, find_region, update_region, bounds_check,
}
use hvmsys.Mem.System.{read_half, read_word, read_dword, write_half, write_word, write_dword}
use hvmsys.Mem.System.Regions.{IsRegion, find_region-All, find_region-contains}

abbrev pub IsValid : {W : Type 0} → MemorySystem W → Type 0
IsValid m = All IsRegion m.regions

-- The accesses of more than a byte; they do not consult the callbacks.
pub data Wide : Type 0 where
  half word dword : Wide

abbrev pub size_of : Wide → ℕ
size_of half = 2
size_of word = 4
size_of dword = 8

abbrev load : Wide → List ℕ → ℕ → Result ℕ
load half = load_half
load word = load_word
load dword = load_dword

abbrev store : Wide → List ℕ → ℕ → ℕ → Result (List ℕ)
store half = store_half
store word = store_word
store dword = store_dword

load_lem :
    (w : Wide) (bytes : List ℕ) (i : ℕ)
    → All IsByte bytes
    → i + size_of w ≤ length bytes
    → load w bytes i ≡ ok (value_at (size_of w) bytes i)
load_lem half = load_half_lem
load_lem word = load_word_lem
load_lem dword = load_dword_lem

store_lem :
    (w : Wide) (bytes : List ℕ) (i v : ℕ)
    → i + size_of w ≤ length bytes
    → store w bytes i v ≡ ok (lay (size_of w) bytes i v)
store_lem half = store_half_lem
store_lem word = store_word_lem
store_lem dword = store_dword_lem

module _ {W : Type 0} where
  abbrev pub read : Wide → MemorySystem W → ℕ → Result ℕ
  read half = read_half
  read word = read_word
  read dword = read_dword

  abbrev pub write : Wide → MemorySystem W → ℕ → ℕ → Result (MemorySystem W)
  write half = write_half
  write word = write_word
  write dword = write_dword

  -- A read and a write, said once for the three widths.
  pub read_lem :
      (w : Wide) (m : MemorySystem W) (addr : ℕ)
      → read w m addr
        ≡ (bounds_check m.regions addr (size_of w) >>= λ r. load w r.bytes (addr - r.base))
  unfolding read_half read_word read_dword
  read_lem half m addr = refl
  read_lem word m addr = refl
  read_lem dword m addr = refl

  pub write_lem :
      (w : Wide) (m : MemorySystem W) (addr v : ℕ)
      → write w m addr v ≡ (
          bounds_check m.regions addr (size_of w) >>= λ r.
          throw_if r.read_only runtime_error >>= λ _. store w r.bytes (addr - r.base) v >>= λ d.
          ok (record m { regions = update_region m.regions addr d }))
  unfolding write_half write_word write_dword
  write_lem half m addr v = refl
  write_lem word m addr v = refl
  write_lem dword m addr v = refl

-- The region of an access, with room for it.
pub record Hits (rs : List MemoryRegion) (w : Wide) (addr : ℕ) (r : MemoryRegion) : Type 0 where
  pub finds : find_region rs addr ≡ some r
  pub room : addr - r.base + size_of w ≤ r.size

size_of_le : (w : Wide) → size_of w ≤ 8
size_of_le half = omega arith
size_of_le word = omega arith
size_of_le dword = omega arith

pub bounds_check_inside :
    (rs : List MemoryRegion) (w : Wide) (addr : ℕ) (r : MemoryRegion)
    → All IsRegion rs
    → Hits rs w addr r
    → bounds_check rs addr (size_of w) ≡ ok r
unfolding bounds_check
bounds_check_inside rs w addr r v h =
    let region : IsRegion r = find_region-All IsRegion rs addr r h.finds v in
    rw h.finds (ground (arith, h.room, region.size_fits))

pub bounds_check_outside :
    (rs : List MemoryRegion) (w : Wide) (addr : ℕ) (r : MemoryRegion)
    → addr < 2 ^ 64
    → find_region rs addr ≡ some r
    → r.size < 2 ^ 63
    → contains r addr ≡ true
    → r.size < addr - r.base + size_of w
    → bounds_check rs addr (size_of w) ≡ thrown out_of_range
unfolding bounds_check contains
bounds_check_outside rs w addr r small finds fits holds over =
    rw finds (ground (arith, size_of_le w))

pub bounds_check_unmapped :
    (rs : List MemoryRegion) (w : Wide) (addr : ℕ)
    → find_region rs addr ≡ none
    → bounds_check rs addr (size_of w) ≡ thrown out_of_range
unfolding bounds_check
bounds_check_unmapped rs w addr e = rw e

module _ {W : Type 0} where
  pub read_inside :
      (w : Wide) (m : MemorySystem W) (addr : ℕ) (r : MemoryRegion)
      → IsValid m
      → Hits m.regions w addr r
      → read w m addr ≡ ok (value_at (size_of w) r.bytes (addr - r.base))
  read_inside w m addr r v h =
      let region : IsRegion r = find_region-All IsRegion m.regions addr r h.finds v in
      read_lem w m addr
      ∙ rw (bounds_check_inside m.regions w addr r v h) (
          load_lem w r.bytes (addr - r.base) region.bytes_in_range
            (omega (arith, h.room, region.length_is_size)))

  pub write_inside :
      (w : Wide) (m : MemorySystem W) (addr val : ℕ) (r : MemoryRegion)
      → IsValid m
      → Hits m.regions w addr r
      → r.read_only ≡ false
      → write w m addr val
        ≡ ok (record m {
          regions = update_region m.regions addr (lay (size_of w) r.bytes (addr - r.base) val);
        })
  write_inside w m addr val r v h writable =
      let region : IsRegion r = find_region-All IsRegion m.regions addr r h.finds v in
      write_lem w m addr val
      ∙ rw (
        bounds_check_inside m.regions w addr r v h,
        writable,
        store_lem w r.bytes (addr - r.base) val (omega (arith, h.room, region.length_is_size)),
      )

  -- What both accesses do when the bounds check throws.
  access_thrown :
      (w : Wide) (m : MemorySystem W) (addr val : ℕ)
      → bounds_check m.regions addr (size_of w) ≡ thrown out_of_range
      → (read w m addr ≡ thrown out_of_range) × (write w m addr val ≡ thrown out_of_range)
  access_thrown w m addr val e = (read_lem w m addr ∙ rw e, write_lem w m addr val ∙ rw e)

  -- An access whose address lies in no region throws out_of_range.
  pub access_unmapped :
      (w : Wide) (m : MemorySystem W) (addr val : ℕ)
      → find_region m.regions addr ≡ none
      → (read w m addr ≡ thrown out_of_range) × (write w m addr val ≡ thrown out_of_range)
  access_unmapped w m addr val e =
      access_thrown w m addr val (bounds_check_unmapped m.regions w addr e)

  pub access_straddling :
      (w : Wide) (m : MemorySystem W) (addr val : ℕ) (r : MemoryRegion)
      → IsValid m
      → addr < 2 ^ 64
      → find_region m.regions addr ≡ some r
      → r.size < addr - r.base + size_of w
      → (read w m addr ≡ thrown out_of_range) × (write w m addr val ≡ thrown out_of_range)
  access_straddling w m addr val r v small finds over =
      let region : IsRegion r = find_region-All IsRegion m.regions addr r finds v in
      access_thrown w m addr val (
        bounds_check_outside m.regions w addr r small finds region.size_fits
          (find_region-contains m.regions addr r finds) over)

  pub write_read_only :
      (w : Wide) (m : MemorySystem W) (addr val : ℕ) (r : MemoryRegion)
      → IsValid m
      → Hits m.regions w addr r
      → r.read_only ≡ true
      → write w m addr val ≡ thrown runtime_error
  write_read_only w m addr val r v h ro =
      write_lem w m addr val ∙ rw (bounds_check_inside m.regions w addr r v h, ro)
