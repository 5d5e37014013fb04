-- ===== src/Mem/Endian/Laws.antt =====
-- Each access of Mem.Endian does what Mem.Endian.Spec says, when its range lies in the vector.
use hvmsys.Base.{ℕ, zero, suc, ◌+◌, ◌*◌, ◌/◌, ◌%◌, ◌^◌, ◌≤◌, ◌<◌, ◌≡◌, refl, ap, ◌∙◌, bit_or}
use hvmsys.Base.{List, arith, length, set, All, All-get_or}
use hvmsys.Base.{get_elem?-eq-get_or, lt→ltb}
use hvmsys.Base.Bits.{bit_or_low}
use hvmsys.Base.Words.{u16, u32, u64, IsByte}
use hvmsys.Except.{ok}
use hvmsys.Mem.Endian.{
  at, put, load_half, load_word, load_dword, store_byte, store_half, store_word, store_dword,
}
use hvmsys.Mem.Endian.Spec.{byte, value_at, lay, length-lay}
use native.Mathlib.Nat.{pow-suc, mul_comm, div-div-eq-div-mul}

pub at_lem : (bytes : List ℕ) (i : ℕ) → i < length bytes → at bytes i ≡ ok (byte bytes i)
unfolding at
at_lem bytes i h = rw (get_elem?-eq-get_or bytes i 0 h, at)

pub put_lem : (bytes : List ℕ) (i b : ℕ) → i < length bytes → put bytes i b ≡ ok (set bytes i b)
unfolding put
put_lem bytes i b h = rw (lt→ltb _ _ h)

byte-lt : (bytes : List ℕ) (i : ℕ) → All IsByte bytes → byte bytes i < 256
byte-lt bytes i h = All-get_or IsByte bytes i 0 (omega arith) h

join_half : (a b : ℕ) → a < 256 → b < 256 → u16 (bit_or a (b * 2 ^ 8)) ≡ a + 256 * b
join_half a b ha hb = omega (arith, bit_or_low 8 b a ha)

join_word :
    (a b c d : ℕ)
    → a < 256
    → b < 256
    → c < 256
    → d < 256
    → bit_or (bit_or (bit_or a (u32 (b * 2 ^ 8))) (u32 (c * 2 ^ 16))) (u32 (d * 2 ^ 24))
      ≡ a + 256 * (b + 256 * (c + 256 * d))
join_word a b c d ha hb hc hd =
    let eb : u32 (b * 2 ^ 8) ≡ b * 2 ^ 8 = omega arith in
    let ec : u32 (c * 2 ^ 16) ≡ c * 2 ^ 16 = omega arith in
    let ed : u32 (d * 2 ^ 24) ≡ d * 2 ^ 24 = omega arith in
    rw
      (
        eb,
        ec,
        ed,
        bit_or_low 8 b a ha,
        bit_or_low 16 c (a + b * 2 ^ 8) (omega arith),
        bit_or_low 24 d (a + b * 2 ^ 8 + c * 2 ^ 16) (omega arith),
      )
      (omega arith)

pub load_half_lem :
    (bytes : List ℕ) (i : ℕ)
    → All IsByte bytes
    → i + 2 ≤ length bytes
    → load_half bytes i ≡ ok (value_at 2 bytes i)
unfolding load_half value_at
load_half_lem bytes i h fits =
    rw (at_lem bytes i (omega arith), at_lem bytes (i + 1) (omega arith))
      (ap ok (
        omega (
          arith,
          join_half (byte bytes i) (byte bytes (i + 1)) (byte-lt bytes i h)
              (byte-lt bytes (i + 1) h),
        )))

module _ (i : ℕ) where
  plus_two : i + 1 + 1 ≡ i + 2
  plus_two = omega arith

  plus_three : i + 2 + 1 ≡ i + 3
  plus_three = omega arith

  plus_four : i + 3 + 1 ≡ i + 4
  plus_four = omega arith

  plus_five : i + 4 + 1 ≡ i + 5
  plus_five = omega arith

  plus_six : i + 5 + 1 ≡ i + 6
  plus_six = omega arith

  plus_seven : i + 6 + 1 ≡ i + 7
  plus_seven = omega arith

pub load_word_lem :
    (bytes : List ℕ) (i : ℕ)
    → All IsByte bytes
    → i + 4 ≤ length bytes
    → load_word bytes i ≡ ok (value_at 4 bytes i)
unfolding load_word value_at
load_word_lem bytes i h fits =
    rw
      (
        at_lem bytes i (omega arith),
        at_lem bytes (i + 1) (omega arith),
        at_lem bytes (i + 2) (omega arith),
        at_lem bytes (i + 3) (omega arith),
        plus_two i,
        plus_three i,
      )
      (ap ok (
        omega (
          arith,
          join_word (byte bytes i) (byte bytes (i + 1)) (byte bytes (i + 2)) (byte bytes (i + 3))
              (byte-lt bytes i h) (byte-lt bytes (i + 1) h) (byte-lt bytes (i + 2) h)
              (byte-lt bytes (i + 3) h),
        )))

lay-suc :
    (n : ℕ) (bytes : List ℕ) (i v : ℕ)
    → lay (suc n) bytes i v ≡ set (lay n bytes i v) (i + n) (v / 256 ^ n % 256)
unfolding lay
lay-suc zero bytes i v =
    let e : i + 0 ≡ i = omega arith in let f : v / 1 ≡ v = omega arith in rw (e, f)
lay-suc (suc n) bytes i v =
    let e : i + 1 + n ≡ i + suc n = omega arith in
    let f : v / 256 / 256 ^ n ≡ v / 256 ^ suc n =
      rw (pow-suc 256 n, mul_comm (256 ^ n) 256) (div-div-eq-div-mul v 256 (256 ^ n)) in
    rw (← e, ← f) (lay-suc n (set bytes i (v % 256)) (i + 1) (v / 256))

-- The next byte of a store.
put-lay :
    (n : ℕ) (bytes : List ℕ) (i v b : ℕ)
    → i + n < length bytes
    → b ≡ v / 256 ^ n % 256
    → put (lay n bytes i v) (i + n) b ≡ ok (lay (suc n) bytes i v)
put-lay n bytes i v b fits e =
    put_lem (lay n bytes i v) (i + n) b (omega (arith, length-lay n bytes i v))
    ∙ rw (lay-suc n bytes i v, e)

put-lay_zero :
    (bytes : List ℕ) (i v : ℕ) → i < length bytes → put bytes i (v % 256) ≡ ok (lay 1 bytes i v)
unfolding lay
put-lay_zero bytes i v fits = put_lem bytes i (v % 256) fits

pub store_byte_lem :
    (bytes : List ℕ) (i v : ℕ)
    → i + 1 ≤ length bytes
    → v < 256
    → store_byte bytes i v ≡ ok (lay 1 bytes i v)
unfolding store_byte lay
store_byte_lem bytes i v fits small =
    let e : v % 256 ≡ v = omega arith in rw (put_lem bytes i v (omega arith), e)

pub store_half_lem :
    (bytes : List ℕ) (i v : ℕ) → i + 2 ≤ length bytes → store_half bytes i v ≡ ok (lay 2 bytes i v)
unfolding store_half
store_half_lem bytes i v fits =
    rw (put-lay_zero bytes i v (omega arith))
      (put-lay 1 bytes i v (v / 256 % 256) (omega arith) refl)

pub store_word_lem :
    (bytes : List ℕ) (i v : ℕ) → i + 4 ≤ length bytes → store_word bytes i v ≡ ok (lay 4 bytes i v)
unfolding store_word
store_word_lem bytes i v fits =
    rw
      (
        put-lay_zero bytes i v (omega arith),
        put-lay 1 bytes i v (v / 2 ^ 8 % 256) (omega arith) refl,
        put-lay 2 bytes i v (v / 2 ^ 16 % 256) (omega arith) refl,
      )
      (put-lay 3 bytes i v (v / 2 ^ 24 % 256) (omega arith) refl)

pub store_dword_lem :
    (bytes : List ℕ) (i v : ℕ) → i + 8 ≤ length bytes → store_dword bytes i v ≡ ok (lay 8 bytes i v)
unfolding store_dword
store_dword_lem bytes i v fits =
    rw
      (
        put-lay_zero bytes i v (omega arith),
        put-lay 1 bytes i v (v / 2 ^ 8 % 256) (omega arith) refl,
        put-lay 2 bytes i v (v / 2 ^ 16 % 256) (omega arith) refl,
        put-lay 3 bytes i v (v / 2 ^ 24 % 256) (omega arith) refl,
        put-lay 4 bytes i v (v / 2 ^ 32 % 256) (omega arith) refl,
        put-lay 5 bytes i v (v / 2 ^ 40 % 256) (omega arith) refl,
        put-lay 6 bytes i v (v / 2 ^ 48 % 256) (omega arith) refl,
      )
      (put-lay 7 bytes i v (v / 2 ^ 56 % 256) (omega arith) refl)

join_dword :
    (w a b c d : ℕ)
    → w < 2 ^ 32
    → a < 256
    → b < 256
    → c < 256
    → d < 256
    → bit_or
        (bit_or (bit_or (bit_or w (u64 (a * 2 ^ 32))) (u64 (b * 2 ^ 40))) (u64 (c * 2 ^ 48)))
        (u64 (d * 2 ^ 56))
      ≡ w + 2 ^ 32 * (a + 256 * (b + 256 * (c + 256 * d)))
join_dword w a b c d hw ha hb hc hd =
    let ea : u64 (a * 2 ^ 32) ≡ a * 2 ^ 32 = omega arith in
    let eb : u64 (b * 2 ^ 40) ≡ b * 2 ^ 40 = omega arith in
    let ec : u64 (c * 2 ^ 48) ≡ c * 2 ^ 48 = omega arith in
    let ed : u64 (d * 2 ^ 56) ≡ d * 2 ^ 56 = omega arith in
    let w1 : ℕ = w + a * 2 ^ 32 in
    let w2 : ℕ = w1 + b * 2 ^ 40 in
    let w3 : ℕ = w2 + c * 2 ^ 48 in
    rw
      (
        ea,
        eb,
        ec,
        ed,
        bit_or_low 32 a w hw,
        bit_or_low 40 b w1 (omega arith),
        bit_or_low 48 c w2 (omega arith),
        bit_or_low 56 d w3 (omega arith),
      )
      (omega arith)

join_word64 :
    (a b c d : ℕ)
    → a < 256
    → b < 256
    → c < 256
    → d < 256
    → bit_or (bit_or (bit_or a (u64 (b * 2 ^ 8))) (u64 (c * 2 ^ 16))) (u64 (d * 2 ^ 24))
      ≡ a + 256 * (b + 256 * (c + 256 * d))
join_word64 a b c d ha hb hc hd =
    let eb : u64 (b * 2 ^ 8) ≡ b * 2 ^ 8 = omega arith in
    let ec : u64 (c * 2 ^ 16) ≡ c * 2 ^ 16 = omega arith in
    let ed : u64 (d * 2 ^ 24) ≡ d * 2 ^ 24 = omega arith in
    rw
      (
        eb,
        ec,
        ed,
        bit_or_low 8 b a ha,
        bit_or_low 16 c (a + b * 2 ^ 8) (omega arith),
        bit_or_low 24 d (a + b * 2 ^ 8 + c * 2 ^ 16) (omega arith),
      )
      (omega arith)

pub load_dword_lem :
    (bytes : List ℕ) (i : ℕ)
    → All IsByte bytes
    → i + 8 ≤ length bytes
    → load_dword bytes i ≡ ok (value_at 8 bytes i)
unfolding load_dword value_at
load_dword_lem bytes i h fits =
    let b : ℕ → ℕ = λ k. byte bytes k in
    let lt : (k : ℕ) → byte bytes k < 256 = λ k. byte-lt bytes k h in
    rw
      (
        at_lem bytes i (omega arith),
        at_lem bytes (i + 1) (omega arith),
        at_lem bytes (i + 2) (omega arith),
        at_lem bytes (i + 3) (omega arith),
        at_lem bytes (i + 4) (omega arith),
        at_lem bytes (i + 5) (omega arith),
        at_lem bytes (i + 6) (omega arith),
        at_lem bytes (i + 7) (omega arith),
        plus_two i,
        plus_three i,
        plus_four i,
        plus_five i,
        plus_six i,
        plus_seven i,
        join_word64 (b i) (b (i + 1)) (b (i + 2)) (b (i + 3)) (lt _) (lt _) (lt _) (lt _),
        join_dword (b i + 256 * (b (i + 1) + 256 * (b (i + 2) + 256 * b (i + 3)))) (b (i + 4))
            (b (i + 5)) (b (i + 6)) (b (i + 7))
            (omega (arith, lt i, lt (i + 1), lt (i + 2), lt (i + 3))) (lt _) (lt _) (lt _) (lt _),
      )
      (ap ok (omega arith))
