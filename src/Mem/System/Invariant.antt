-- ===== src/Mem/System/Invariant.antt =====
-- The well-formedness of the region list, kept by every operation of MemorySystem.
use hvmsys.Base.{ℕ, ◌+◌, ◌-◌, ◌≤◌, ◌<◌, ◌^◌, ◌≡◌, refl, sym, ap, ◌∙◌, inl, inr}
use hvmsys.Base.{
  Bool, List, [], ◌∷◌, ◌++◌, Option, none, some, arith, length, All, All-append, All-replicate,
  length-replicate, take, drop,
}
use hvmsys.Base.{
  replicate, Bool-cases, Option-cases, length-append, length-take, length-drop, All-take, All-drop,
}
use hvmsys.Base.Words.{IsByte}
use hvmsys.Except.{runtime_error, >>=-eq-ok, ok-injective, ok, throw_if}
use hvmsys.Mem.Endian.Spec.{lay, length-lay, lay-IsByte}
use hvmsys.Mem.Flat.{copy_into}
use hvmsys.Mem.System.{
  MemoryRegion, MmioHandler, MemorySystem, RegionType, empty, push_region, add_region, add_rom,
  add_ram, add_mmio,
}
use hvmsys.Mem.System.{
  find_region, update_region, bounds_check, found, read_byte, write_byte, write_bytes,
  set_read_only, clear, handler_of,
}
use hvmsys.Mem.System.Regions.{IsRegion, find_region-All, update_region-All, mark_read_only-All}
use hvmsys.Mem.System.Outcomes.{unmapped, straddles, inside, place}
use mathlib.Core.Path.{subst}
use hvmsys.Mem.System.Bytes.{
  byte_unmapped, write_byte_read_only, write_byte_device, write_byte_memory, read_byte_memory,
  read_byte_device,
}
use hvmsys.Mem.System.Access.{
  size_of, access_unmapped, access_straddling, write_read_only, write_inside, IsValid, Wide, write,
}

-- copy_into keeps the length and puts the new elements in.
pub copy_into_ok :
    (dst : List ℕ) (at : ℕ) (src d : List ℕ)
    → copy_into dst at src ≡ ok d
    → (at + length src ≤ length dst) × (d ≡ take at dst ++ (src ++ drop (at + length src) dst))
unfolding copy_into
copy_into_ok dst at src d e = ground arith

zeros-IsRegion :
    (base size : ℕ) (kind : RegionType) (ro : Bool)
    → size < 2 ^ 63
    → IsRegion
        (record { base = base; size = size; kind = kind; bytes = replicate size 0; read_only = ro })
zeros-IsRegion base size kind ro small = record {
  length_is_size = length-replicate size 0;
  size_fits = small;
  bytes_in_range = All-replicate IsByte size 0 (omega arith);
}

found_ok : (o : Option MemoryRegion) (r : MemoryRegion) → found o ≡ ok r → o ≡ some r
found_ok none r e = cc
found_ok (some x) r e = cc

-- A copy keeps the length, and bytes.
copy_into_keeps :
    (dst : List ℕ) (at : ℕ) (src d : List ℕ)
    → copy_into dst at src ≡ ok d
    → All IsByte dst
    → All IsByte src
    → (length d ≡ length dst) × All IsByte d
copy_into_keeps dst at src d e h k =
    let (fits, shape) = copy_into_ok dst at src d e in
    let back : List ℕ = drop (at + length src) dst in
    rw shape (
      omega (
        arith,
        length-append {0} (take at dst) (src ++ back),
        length-append {0} src back,
        length-take {0} at dst,
        length-drop {0} (at + length src) dst,
      ),
      All-append IsByte (take at dst) (src ++ back) (All-take IsByte at dst h)
          (All-append IsByte src back k (All-drop IsByte (at + length src) dst h)),
    )

bounds_check_ok :
    (rs : List MemoryRegion) (addr size : ℕ) (r : MemoryRegion)
    → bounds_check rs addr size ≡ ok r
    → find_region rs addr ≡ some r
unfolding bounds_check
bounds_check_ok rs addr size r e = ground arith

module _ {W : Type 0} where
  push_region-IsValid :
      (m : MemorySystem W) (r : MemoryRegion) → IsValid m → IsRegion r → IsValid (push_region m r)
  push_region-IsValid m r v h = All-append IsRegion m.regions (r ∷ []) v (h, tt)

  update-IsValid :
      (m : MemorySystem W) (addr : ℕ) (d : List ℕ) (r : MemoryRegion)
      → find_region m.regions addr ≡ some r
      → length d ≡ length r.bytes
      → All IsByte d
      → IsValid m
      → IsValid (record m { regions = update_region m.regions addr d })
  update-IsValid m addr d r e same bytes v =
      let region : IsRegion r = find_region-All IsRegion m.regions addr r e v in
      update_region-All IsRegion m.regions addr d r e
        (record {
          length_is_size = same ∙ region.length_is_size;
          size_fits = region.size_fits;
          bytes_in_range = bytes;
        })
        v

  add_region-IsValid :
      (m : MemorySystem W) (base size : ℕ) (kind : RegionType) (ro : Bool)
      → IsValid m
      → size < 2 ^ 63
      → IsValid (add_region m base size kind ro)
  unfolding add_region
  add_region-IsValid m base size kind ro v small =
      push_region-IsValid m _ v (zeros-IsRegion base size kind ro small)

  add_rom-IsValid :
      (m : MemorySystem W) (base : ℕ) (image : List ℕ)
      → IsValid m
      → length image < 2 ^ 63
      → All IsByte image
      → IsValid (add_rom m base image)
  unfolding add_rom
  add_rom-IsValid m base image v small bytes =
      push_region-IsValid m _ v
        (record { length_is_size = refl; size_fits = small; bytes_in_range = bytes })

  add_ram-IsValid :
      (m : MemorySystem W) (base size : ℕ)
      → IsValid m
      → size < 2 ^ 63
      → IsValid (add_ram m base size)
  unfolding add_ram
  add_ram-IsValid m base size v small =
      push_region-IsValid m _ v (zeros-IsRegion base size _ _ small)

  pub add_mmio-IsValid :
      (m : MemorySystem W) (base size : ℕ) (h : MmioHandler W)
      → IsValid m
      → size < 2 ^ 63
      → IsValid (add_mmio m base size h)
  unfolding add_mmio
  add_mmio-IsValid m base size h v small =
      push_region-IsValid (record m { handlers = (base, h) ∷ m.handlers }) _ v
        (zeros-IsRegion base size _ _ small)

  set_read_only-IsValid :
      (m : MemorySystem W) (base size : ℕ) (ro : Bool)
      → IsValid m
      → IsValid (set_read_only m base size ro)
  unfolding set_read_only
  set_read_only-IsValid m base size ro v =
      mark_read_only-All IsRegion m.regions base size ro
        (λ r h. record {
          length_is_size = h.length_is_size;
          size_fits = h.size_fits;
          bytes_in_range = h.bytes_in_range;
        })
        v

  write_wide-IsValid :
      (w : Wide) (m : MemorySystem W) (addr val : ℕ) {m' : MemorySystem W}
      → write w m addr val ≡ ok m'
      → addr < 2 ^ 64
      → IsValid m
      → IsValid m'
  write_wide-IsValid w m addr val e small v = elim (place m.regions w addr) [
    | unmapped n ↦ cc ((access_unmapped w m addr val n).1)
    | straddles r n over ↦ cc ((access_straddling w m addr val r v small n over).1)
    | inside r h ↦ elim (Bool-cases r.read_only) [
      | inl ro ↦ cc (write_read_only w m addr val r v h ro)
      | inr writable ↦
          subst IsValid (ok-injective (sym (write_inside w m addr val r v h writable) ∙ e)) (
            update-IsValid m addr (lay (size_of w) r.bytes (addr - r.base) val) r h.finds
              (length-lay (size_of w) r.bytes (addr - r.base) val)
              (lay-IsByte (size_of w) r.bytes (addr - r.base) val
                (find_region-All IsRegion m.regions addr r h.finds v).bytes_in_range)
              v)
    ]
  ]

  write_byte-IsValid :
      (m : MemorySystem W) (addr val : ℕ) {m' : MemorySystem W}
      → write_byte m addr val ≡ ok m'
      → val < 256
      → IsValid m
      → IsValid m'
  write_byte-IsValid m addr val e small v = elim (Option-cases (find_region m.regions addr)) [
    | inl n ↦ cc ((byte_unmapped m addr val n).1)
    | inr (r, f) ↦ elim (Bool-cases r.read_only) [
      | inl ro ↦ cc (write_byte_read_only m addr r f val ro)
      | inr writable ↦ elim (Option-cases (handler_of m r)) [
        | inl n ↦
            subst IsValid
              (ok-injective (sym (write_byte_memory m addr r f val v small writable n) ∙ e))
              (update-IsValid m addr (lay 1 r.bytes (addr - r.base) val) r f
                (length-lay 1 r.bytes (addr - r.base) val)
                (lay-IsByte 1 r.bytes (addr - r.base) val
                  (find_region-All IsRegion m.regions addr r f v).bytes_in_range)
                v)
        | inr (h, d) ↦
            subst IsValid (ok-injective (sym (write_byte_device m addr r f val h writable d) ∙ e)) v
      ]
    ]
  ]

  read_byte-IsValid :
      (m : MemorySystem W) (addr : ℕ) {val : ℕ} {m' : MemorySystem W}
      → read_byte m addr ≡ ok (val, m')
      → IsValid m
      → IsValid m'
  read_byte-IsValid m addr e v = elim (Option-cases (find_region m.regions addr)) [
    | inl n ↦ cc ((byte_unmapped m addr 0 n).0)
    | inr (r, f) ↦ elim (Option-cases (handler_of m r)) [
      | inl n ↦
          subst IsValid (ap (λ p. p.1) (ok-injective (sym (read_byte_memory m addr r f v n) ∙ e))) v
      | inr (h, d) ↦
          subst IsValid (ap (λ p. p.1) (ok-injective (sym (read_byte_device m addr r f h d) ∙ e))) v
    ]
  ]

  write_bytes-IsValid :
      (m : MemorySystem W) (addr : ℕ) (src : List ℕ) {m' : MemorySystem W}
      → write_bytes m addr src ≡ ok m'
      → All IsByte src
      → IsValid m
      → IsValid m'
  unfolding write_bytes
  write_bytes-IsValid m addr src e bytes v =
      let (r, b, e1) = >>=-eq-ok (bounds_check m.regions addr (length src)) _ e in
      let finds : find_region m.regions addr ≡ some r =
        bounds_check_ok m.regions addr (length src) r b in
      let region : IsRegion r = find_region-All IsRegion m.regions addr r finds v in
      let (u, t, e2) = >>=-eq-ok (throw_if r.read_only runtime_error) _ e1 in
      let (d, c, e3) = >>=-eq-ok (copy_into r.bytes (addr - r.base) src) _ e2 in
      let (same, in_range) =
        copy_into_keeps r.bytes (addr - r.base) src d c region.bytes_in_range bytes in
      subst IsValid (ok-injective e3) (update-IsValid m addr d r finds same in_range v)

-- The calls of MemorySystem that change it, each with what its caller must respect: a region or an
-- image shorter than 2 ^ 63, bytes below 256, a 64-bit address.
pub data Step {W : Type 0} : MemorySystem W → MemorySystem W → Type 0 where
  adds_region :
      (m : MemorySystem W) (base size : ℕ) (kind : RegionType) (ro : Bool)
      → size < 2 ^ 63
      → Step m (add_region m base size kind ro)
  adds_rom :
      (m : MemorySystem W) (base : ℕ) (image : List ℕ)
      → length image < 2 ^ 63
      → All IsByte image
      → Step m (add_rom m base image)
  adds_ram : (m : MemorySystem W) (base size : ℕ) → size < 2 ^ 63 → Step m (add_ram m base size)
  adds_mmio :
      (m : MemorySystem W) (base size : ℕ) (h : MmioHandler W)
      → size < 2 ^ 63
      → Step m (add_mmio m base size h)
  reads_byte : {m m' : MemorySystem W} (addr val : ℕ) → read_byte m addr ≡ ok (val, m') → Step m m'
  writes_byte :
      {m m' : MemorySystem W} (addr val : ℕ) → val < 256 → write_byte m addr val ≡ ok m' → Step m m'
  writes :
      {m m' : MemorySystem W} (w : Wide) (addr val : ℕ)
      → addr < 2 ^ 64
      → write w m addr val ≡ ok m'
      → Step m m'
  writes_bytes :
      {m m' : MemorySystem W} (addr : ℕ) (src : List ℕ)
      → All IsByte src
      → write_bytes m addr src ≡ ok m'
      → Step m m'
  sets_read_only :
      (m : MemorySystem W) (base size : ℕ) (ro : Bool) → Step m (set_read_only m base size ro)
  clears : (m : MemorySystem W) → Step m (clear m)

pub data Reach {W : Type 0} (s : MemorySystem W) : MemorySystem W → Type 0 where
  here : Reach s s
  next : {t u : MemorySystem W} → Reach s t → Step t u → Reach s u

Step-IsValid : {W : Type 0} {m m' : MemorySystem W} → Step m m' → IsValid m → IsValid m'
Step-IsValid (adds_region m base size kind ro small) v =
    add_region-IsValid m base size kind ro v small
Step-IsValid (adds_rom m base image small bytes) v = add_rom-IsValid m base image v small bytes
Step-IsValid (adds_ram m base size small) v = add_ram-IsValid m base size v small
Step-IsValid (adds_mmio m base size h small) v = add_mmio-IsValid m base size h v small
Step-IsValid (reads_byte addr val e) v = read_byte-IsValid _ addr e v
Step-IsValid (writes_byte addr val small e) v = write_byte-IsValid _ addr val e small v
Step-IsValid (writes w addr val small e) v = write_wide-IsValid w _ addr val e small v
Step-IsValid (writes_bytes addr src bytes e) v = write_bytes-IsValid _ addr src e bytes v
Step-IsValid (sets_read_only m base size ro) v = set_read_only-IsValid m base size ro v
Step-IsValid (clears m) v = unfold clear in tt

-- From an empty memory system, any sequence of calls that succeed leaves every region with a vector
-- of the size in its descriptor and with bytes below 256.
pub Reach-IsValid : {W : Type 0} (w : W) {m : MemorySystem W} → Reach (empty w) m → IsValid m
Reach-IsValid w here = unfold empty in tt
Reach-IsValid w (next r s) = Step-IsValid s (Reach-IsValid w r)
