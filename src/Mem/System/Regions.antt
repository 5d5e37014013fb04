-- ===== src/Mem/System/Regions.antt =====
-- The region list of MemorySystem: what a lookup finds, and what a write to a region changes.
use hvmsys.Base.{ℕ, ◌<◌, ◌^◌, ◌≡◌, refl, sym, ap, ◌&&◌, inl, inr}
use hvmsys.Base.{Bool, true, List, [], ◌∷◌, ◌++◌, some, arith, length, All}
use hvmsys.Base.{Bool-cases, ◌==◌}
use hvmsys.Base.Words.{IsByte}
use hvmsys.Mem.System.{MemoryRegion, contains, find_region, update_region, mark_read_only}
use mathlib.Core.Option
use mathlib.Core.Path.{subst}

-- A region's vector has the size that its descriptor says, and holds bytes.
pub record IsRegion (r : MemoryRegion) : Type 0 where
  pub length_is_size : length r.bytes ≡ r.size
  pub size_fits : r.size < 2 ^ 63
  pub bytes_in_range : All IsByte r.bytes

pub find_region-All :
    (P : MemoryRegion → Type 0) (rs : List MemoryRegion) (addr : ℕ) (r : MemoryRegion)
    → find_region rs addr ≡ some r
    → All P rs
    → P r
unfolding find_region
find_region-All P [] addr r e h = absurd (cc)
find_region-All P (x ∷ rs) addr r e h = elim (Bool-cases (contains x addr)) [
  | inl hit ↦ ground (arith, h.0)
  | inr miss ↦ find_region-All P rs addr r (ground arith) h.1
]

pub find_region-contains :
    (rs : List MemoryRegion) (addr : ℕ) (r : MemoryRegion)
    → find_region rs addr ≡ some r
    → contains r addr ≡ true
unfolding find_region
find_region-contains [] addr r e = cc
find_region-contains (x ∷ rs) addr r e = ground (arith, find_region-contains rs addr r)

-- A region added behind the others does not change what is found in them.
pub find_region-append :
    (rs more : List MemoryRegion) (addr : ℕ) (r : MemoryRegion)
    → find_region rs addr ≡ some r
    → find_region (rs ++ more) addr ≡ some r
unfolding find_region
find_region-append [] more addr r e = cc
find_region-append (x ∷ rs) more addr r e = ground (arith, find_region-append rs more addr r)

abbrev pub with_bytes : MemoryRegion → List ℕ → MemoryRegion
with_bytes r d = record r { bytes = d }

contains-with_bytes :
    (r : MemoryRegion) (d : List ℕ) (j : ℕ) → contains (with_bytes r d) j ≡ contains r j
unfolding contains
contains-with_bytes r d j = refl

pub find_region-update_region :
    (rs : List MemoryRegion) (addr : ℕ) (d : List ℕ) (r : MemoryRegion)
    → find_region rs addr ≡ some r
    → find_region (update_region rs addr d) addr ≡ some (with_bytes r d)
unfolding find_region update_region
find_region-update_region [] addr d r e = cc
find_region-update_region (x ∷ rs) addr d r e =
    ground (arith, contains-with_bytes x d addr, find_region-update_region rs addr d r)

-- A view of the region at `j` that the write does not change at the region written is not changed.
pub find_region-update_frame {ℓ} :
    {A : Type ℓ} (f : MemoryRegion → A) (rs : List MemoryRegion) (addr : ℕ) (d : List ℕ)
    (r : MemoryRegion) (j : ℕ)
    → find_region rs addr ≡ some r
    → (contains r j ≡ true → f (with_bytes r d) ≡ f r)
    → Option.map f (find_region (update_region rs addr d) j) ≡ Option.map f (find_region rs j)
unfolding find_region update_region
find_region-update_frame f [] addr d r j e same = cc
find_region-update_frame f (x ∷ rs) addr d r j e same = elim (Bool-cases (contains x addr)) [
  | inl hit ↦
      let xr : x ≡ r = ground arith in
      rw hit (elim (Bool-cases (contains x j)) [
        | inl at_j ↦
            rw (contains-with_bytes x d j, at_j)
              (ap some (
                subst (λ y. f (with_bytes y d) ≡ f y) (sym xr)
                  (same (subst (λ y. contains y j ≡ true) xr at_j))))
        | inr not_j ↦ rw (contains-with_bytes x d j, not_j)
      ])
  | inr miss ↦ rw miss (elim (Bool-cases (contains x j)) [
    | inl at_j ↦ rw at_j
    | inr not_j ↦ rw not_j (find_region-update_frame f rs addr d r j (ground arith) same)
  ])
]

pub update_region-All :
    (P : MemoryRegion → Type 0) (rs : List MemoryRegion) (addr : ℕ) (d : List ℕ) (r : MemoryRegion)
    → find_region rs addr ≡ some r
    → P (with_bytes r d)
    → All P rs
    → All P (update_region rs addr d)
unfolding find_region update_region
update_region-All P [] addr d r e p h = tt
update_region-All P (x ∷ rs) addr d r e p h = elim (Bool-cases (contains x addr)) [
  | inl hit ↦
      let xr : x ≡ r = ground arith in rw hit (subst (λ y. P (with_bytes y d)) (sym xr) p, h.1)
  | inr miss ↦ rw miss (h.0, update_region-All P rs addr d r (ground arith) p h.1)
]

pub mark_read_only-All :
    (P : MemoryRegion → Type 0) (rs : List MemoryRegion) (base size : ℕ) (ro : Bool)
    → ((r : MemoryRegion) → P r → P (record r { read_only = ro }))
    → All P rs
    → All P (mark_read_only rs base size ro)
unfolding mark_read_only
mark_read_only-All P [] base size ro keep h = tt
mark_read_only-All P (x ∷ rs) base size ro keep h =
    elim (Bool-cases ((x.base == base) && (x.size == size))) [
      | inl hit ↦ rw hit (keep x h.0, h.1)
      | inr miss ↦ rw miss (h.0, mark_read_only-All P rs base size ro keep h.1)
    ]
