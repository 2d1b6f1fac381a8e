-- ===== src/Base/Masks.antt =====
-- The bit macros of include/bitops.h and include/mm.h, and what they do to the fields of a word.
use native.Mathlib.Nat.{one-le-pow, mod-lt}
use os_assignment.Base.Digits.{
  bit_and_split, bit_or_split, bit_and-zero, bit_or-zero, zero-bit_or, bit_and_ones,
  bit_and_ones_fits, bit_or_ones,
}
use Prim.Native.Nat.{ℕ, ◌+◌, ◌-◌, ◌*◌, ◌/◌, ◌%◌, ◌^◌, ◌<◌, bit_and, bit_or}
use mathlib.Core.Path.{◌≡◌, ap, ◌∙◌}
use native.Mathlib.Omega.{arith}

-- GENMASK(h, l) at a word of `bits` bits.
abbrev pub genmask : ℕ → ℕ → ℕ → ℕ
genmask bits h l = bit_and ((2 ^ bits - 1) * 2 ^ l % 2 ^ bits) ((2 ^ bits - 1) / 2 ^ (bits - h - 1))

-- BIT(nr), an `unsigned int`.
abbrev pub bit_at : ℕ → ℕ
bit_at nr = 2 ^ nr

-- `~mask` of an `unsigned int`.
abbrev pub complement : ℕ → ℕ
complement mask = 2 ^ 32 - 1 - mask

abbrev pub set_bit : ℕ → ℕ → ℕ
set_bit v mask = bit_or v mask

abbrev pub clear_bit : ℕ → ℕ → ℕ
clear_bit v mask = bit_and v (complement mask)

-- SETVAL; the value that is shifted is an `addr_t`, or an `int` that fits one.
abbrev pub set_value : ℕ → ℕ → ℕ → ℕ → ℕ
set_value v value mask offset =
    bit_or (bit_and v (complement mask)) (bit_and (value * 2 ^ offset % 2 ^ 64) mask)

abbrev pub get_value : ℕ → ℕ → ℕ → ℕ
get_value v mask offset = bit_and v mask / 2 ^ offset

pow-pos : (k : ℕ) → 0 < 2 ^ k
pow-pos k = one-le-pow k 2 (omega arith)

module _ (l w x : ℕ) where
  -- Reading the field of `w` bits at bit `l`.
  pub bit_and_field : bit_and x ((2 ^ w - 1) * 2 ^ l) ≡ x / 2 ^ l % 2 ^ w * 2 ^ l
  bit_and_field = ground (
    arith,
    pow-pos l,
    bit_and-zero (x % 2 ^ l),
    bit_and_ones w (x / 2 ^ l),
    bit_and_split l (x / 2 ^ l) (x % 2 ^ l) (2 ^ w - 1) 0,
  )

  bit_and_below :
      (c : ℕ) → bit_and x (c * 2 ^ l + (2 ^ l - 1)) ≡ bit_and (x / 2 ^ l) c * 2 ^ l + x % 2 ^ l
  bit_and_below c =
      ap (λ (t : ℕ). bit_and t (c * 2 ^ l + (2 ^ l - 1))) parts
      ∙ bit_and_split l (x / 2 ^ l) (x % 2 ^ l) c (2 ^ l - 1) (mod-lt x (pow-pos l))
          (omega (arith, pow-pos l))
      ∙ omega (arith, bit_and_ones_fits l (x % 2 ^ l) (mod-lt x (pow-pos l)))
    where
      parts : x ≡ x / 2 ^ l * 2 ^ l + x % 2 ^ l
      parts = omega (arith, pow-pos l)

  -- Setting all bits of it.
  pub bit_or_field :
      bit_or x ((2 ^ w - 1) * 2 ^ l) ≡ (x / 2 ^ l / 2 ^ w * 2 ^ w + (2 ^ w - 1)) * 2 ^ l + x % 2 ^ l
  bit_or_field = ground (
    arith,
    pow-pos l,
    bit_or-zero (x % 2 ^ l),
    bit_or_ones w (x / 2 ^ l),
    bit_or_split l (x / 2 ^ l) (x % 2 ^ l) (2 ^ w - 1) 0,
  )

-- Clearing the field in a word that has `u` bits above it.
pub bit_and_hole :
    (l w u x : ℕ)
    → bit_and x ((2 ^ u - 1) * 2 ^ w * 2 ^ l + (2 ^ l - 1))
      ≡ x / 2 ^ l / 2 ^ w % 2 ^ u * 2 ^ w * 2 ^ l + x % 2 ^ l
bit_and_hole l w u x =
    bit_and_below l w x ((2 ^ u - 1) * 2 ^ w) ∙ ap (λ (t : ℕ). t * 2 ^ l + x % 2 ^ l) upper
  where
    upper : bit_and (x / 2 ^ l) ((2 ^ u - 1) * 2 ^ w) ≡ x / 2 ^ l / 2 ^ w % 2 ^ u * 2 ^ w
    upper = ground (
      arith,
      pow-pos w,
      bit_and-zero (x / 2 ^ l % 2 ^ w),
      bit_and_ones u (x / 2 ^ l / 2 ^ w),
      bit_and_split w (x / 2 ^ l / 2 ^ w) (x / 2 ^ l % 2 ^ w) (2 ^ u - 1) 0,
    )

-- Filling a field that is clear.
pub bit_or_fill :
    (l w hi lo v : ℕ)
    → lo < 2 ^ l
    → v < 2 ^ w
    → bit_or (hi * 2 ^ w * 2 ^ l + lo) (v * 2 ^ l) ≡ (hi * 2 ^ w + v) * 2 ^ l + lo
bit_or_fill l w hi lo v h k = ground (
  arith,
  pow-pos l,
  bit_or-zero lo,
  bit_or-zero hi,
  zero-bit_or v,
  bit_or_split l (hi * 2 ^ w) lo v 0,
  bit_or_split w hi 0 0 v,
)

-- SETVAL: the field takes the low `w` bits of the value, and the other bits stay.
pub bit_or_put :
    (l w u x v : ℕ)
    → bit_or
        (bit_and x ((2 ^ u - 1) * 2 ^ w * 2 ^ l + (2 ^ l - 1)))
        (bit_and (v * 2 ^ l) ((2 ^ w - 1) * 2 ^ l))
      ≡ (x / 2 ^ l / 2 ^ w % 2 ^ u * 2 ^ w + v % 2 ^ w) * 2 ^ l + x % 2 ^ l
bit_or_put l w u x v =
    rw (bit_and_hole l w u x, bit_and_field l w (v * 2 ^ l), unshift)
      (bit_or_fill l w _ _ _ (mod-lt _ (pow-pos l)) (mod-lt _ (pow-pos w)))
  where
    unshift : v * 2 ^ l / 2 ^ l ≡ v
    unshift = grind (arith, pow-pos l)
