-- ===== src/Mem/Flat/Bulk.antt =====
-- load and dump of FlatMemory, and the copies of ranges that they share with MemorySystem.
use hvmsys.Base.{ℕ, ◌+◌, ◌-◌, ◌≤◌, ◌<◌, ◌^◌, ◌≡◌, refl, sym, ◌∙◌, inl, inr, ◌⊎◌}
use hvmsys.Base.{List, ◌++◌, arith, length, take, drop}
use hvmsys.Base.{
  length-append, length-take, length-drop, take-append, drop-append, get_or-append_left,
  get_or-append_right, get_or-take, get_or-drop,
}
use hvmsys.Base.Words.{add64}
use hvmsys.Except.{Result, ok, undefined}
use hvmsys.Mem.Endian.Spec.{byte}
use hvmsys.Mem.Flat.{FlatMemory, copy_into, copy_out, check_bounds, load, dump}

-- `dst` with `src` laid over it from `at` on.
abbrev pub overlay : List ℕ → ℕ → List ℕ → List ℕ
overlay dst at src = take at dst ++ (src ++ drop (at + length src) dst)

pub copy_into_fits :
    (dst : List ℕ) (at : ℕ) (src : List ℕ)
    → at + length src ≤ length dst
    → copy_into dst at src ≡ ok (overlay dst at src)
unfolding copy_into
copy_into_fits dst at src h = ground arith

module _ (dst : List ℕ) (at : ℕ) (src : List ℕ) (fits : at + length src ≤ length dst) where
  length-front : length (take at dst) ≡ at
  length-front = omega (arith, length-take {0} at dst)

  pub length-overlay : length (overlay dst at src) ≡ length dst
  length-overlay = omega (
    arith,
    length-append {0} (take at dst) (src ++ drop (at + length src) dst),
    length-append {0} src (drop (at + length src) dst),
    length-front,
    length-drop {0} (at + length src) dst,
  )

  pub copy_out-overlay : copy_out (overlay dst at src) at (at + length src) ≡ ok src
  unfolding copy_out
  copy_out-overlay =
      let n : length (overlay dst at src) ≡ length dst = length-overlay in
      let e : at + length src - at ≡ length src = omega arith in
      let middle : take (at + length src - at) (drop at (overlay dst at src)) ≡ src = rw (
        drop-append (take at dst) (src ++ drop (at + length src) dst) at (sym length-front),
        e,
        take-append src (drop (at + length src) dst) (length src) refl,
      ) in
      rw (middle, n) (ground arith)

  pub byte-overlay_outside :
      (j : ℕ) → (j < at) ⊎ (at + length src ≤ j) → byte (overlay dst at src) j ≡ byte dst j
  byte-overlay_outside j (inl before) =
      get_or-append_left (take at dst) _ j 0 (omega (arith, length-front))
      ∙ get_or-take at dst j 0 before
  byte-overlay_outside j (inr behind) =
      get_or-append_right (take at dst) (src ++ drop (at + length src) dst) j (j - at) 0
        (omega (arith, length-front))
      ∙ get_or-append_right src (drop (at + length src) dst) (j - at) (j - at - length src) 0
          (omega arith)
      ∙ get_or-drop (at + length src) dst j (j - at - length src) 0 (omega arith)

-- What a load leaves.
pub record IsLoaded (m : FlatMemory) (addr : ℕ) (src : List ℕ) (r : Result FlatMemory)
    : Type 0 where
  pub after : FlatMemory
  pub returned : r ≡ ok after
  pub same_size : length after.bytes ≡ length m.bytes
  pub dumped : dump after addr (length src) ≡ ok src
  pub others : (j : ℕ) → (j < addr) ⊎ (addr + length src ≤ j) → byte after.bytes j ≡ byte m.bytes j

check_bounds_range :
    (m : FlatMemory) (addr size : ℕ)
    → length m.bytes < 2 ^ 63
    → addr < length m.bytes
    → addr + size ≤ length m.bytes
    → check_bounds m addr size ≡ ok tt
unfolding check_bounds
check_bounds_range m addr size small in_range fits = ground arith

-- In a FlatMemory of fewer than 2^63 bytes, load of an image that fits behind a mapped address
-- copies it in: dump of the same range returns it, the size is kept, and every byte beside the range
-- stays.
pub load-IsLoaded :
    (m : FlatMemory) (addr : ℕ) (src : List ℕ)
    → length m.bytes < 2 ^ 63
    → addr < length m.bytes
    → addr + length src ≤ length m.bytes
    → IsLoaded m addr src (load m addr src)
load-IsLoaded m addr src small in_range fits =
    let m' : FlatMemory = record m { bytes = overlay m.bytes addr src } in
    let n : length m'.bytes ≡ length m.bytes = length-overlay m.bytes addr src fits in
    let e : add64 addr (length src) ≡ addr + length src = omega arith in
    record {
      after = m';
      returned =
          unfold load in
          rw (
            check_bounds_range m addr (length src) small in_range fits,
            copy_into_fits m.bytes addr src fits,
          );
      same_size = n;
      dumped =
          unfold dump in
          rw (check_bounds_range m' addr (length src) (rw n small) (rw n in_range) (rw n fits), e)
            (copy_out-overlay m.bytes addr src fits);
      others = byte-overlay_outside m.bytes addr src fits;
    }

-- The sum of the bounds check wraps: in a FlatMemory of fewer than 2^63 bytes, a dump from a mapped
-- address other than 0 whose length reaches the end of the 64-bit address space passes the check,
-- and then builds a vector from a range whose end lies before its start.
dump_wraps :
    (m : FlatMemory) (addr : ℕ)
    → length m.bytes < 2 ^ 63
    → 0 < addr
    → addr < length m.bytes
    → (check_bounds m addr (2 ^ 64 - addr) ≡ ok tt) × (dump m addr (2 ^ 64 - addr) ≡ undefined)
dump_wraps m addr small pos in_range =
    let e : add64 addr (2 ^ 64 - addr) ≡ 0 = omega arith in
    let passes : check_bounds m addr (2 ^ 64 - addr) ≡ ok tt =
      unfold check_bounds in rw e (ground arith) in
    (passes, unfold dump copy_out in rw (passes, e) (ground arith))
