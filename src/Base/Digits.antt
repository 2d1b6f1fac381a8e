-- ===== src/Base/Digits.antt =====
-- `&` and `|` at variables: both go digit by digit, so a word splits at any bit.
use Prim.Native.Nat.{
  ℕ, zero, suc, ◌+◌, ◌-◌, ◌*◌, ◌/◌, ◌%◌, ◌^◌, ◌≤◌, ◌<◌, min, max, digits, bitwise, bit_and, bit_or,
  bit_and-bitwise, bit_or-bitwise,
}
use mathlib.Core.Path.{◌≡◌, refl, ap}
use native.Mathlib.Nat.{le_refl, pow-suc, one-le-pow}
use native.Mathlib.Omega.{arith}

-- `digits` stops at 0, so any two fuels above the number give the same result.
module _ (base : ℕ → ℕ) (op : ℕ → ℕ → ℕ) where
  abbrev fold : ℕ → ℕ → ℕ → ℕ
  fold = digits base op

  enough_fuel : (b k l a : ℕ) → a ≤ k → a ≤ l → fold k a b ≡ fold l a b
  enough_fuel b zero zero a below below' = refl
  enough_fuel b zero (suc l) zero below below' = refl
  enough_fuel b (suc k) zero zero below below' = refl
  enough_fuel b (suc k) (suc l) zero below below' = refl
  enough_fuel b zero (suc l) (suc a) below below' = absurd (omega arith)
  enough_fuel b (suc k) zero (suc a) below below' = absurd (omega arith)
  enough_fuel b (suc k) (suc l) (suc a) below below' =
      let rest = enough_fuel (b / 2) k l (suc a / 2) (omega arith) (omega arith) in rw rest

  lowest_digit :
      (b a : ℕ)
      → bitwise base op (suc a) b ≡ bitwise base op (suc a / 2) (b / 2) * 2 + op (suc a % 2) (b % 2)
  lowest_digit b a =
      let half = suc a / 2 in
      omega (arith, enough_fuel (b / 2) a half half (omega arith) (omega arith))

-- The two operations, on a word that is written as its lowest digit and twice the rest.
and_by_digit : (x y : ℕ) → bit_and x y ≡ min (x % 2) (y % 2) + 2 * bit_and (x / 2) (y / 2)
and_by_digit zero y = simp bit_and-bitwise (omega arith)
and_by_digit (suc x) y =
    let low = lowest_digit (λ i. 0) min y x in simp bit_and-bitwise (omega (arith, low))

or_by_digit : (x y : ℕ) → bit_or x y ≡ max (x % 2) (y % 2) + 2 * bit_or (x / 2) (y / 2)
or_by_digit zero y = simp bit_or-bitwise (omega arith)
or_by_digit (suc x) y =
    let low = lowest_digit (λ i. i) max y x in simp bit_or-bitwise (omega (arith, low))

mul-pow-suc_right : (q k : ℕ) → q * 2 ^ suc k ≡ 2 * (q * 2 ^ k)
mul-pow-suc_right q k = omega (arith, ap (λ (t : ℕ). q * t) (pow-suc 2 k))

-- Two words that are split at bit `k` are combined part by part.
pub bit_and_split :
    (k a b c d : ℕ)
    → b < 2 ^ k
    → d < 2 ^ k
    → bit_and (a * 2 ^ k + b) (c * 2 ^ k + d) ≡ bit_and a c * 2 ^ k + bit_and b d
bit_and_split zero a b c d p q =
    let e : b ≡ 0 = omega arith in
    let e' : d ≡ 0 = omega arith in
    let s : a * 2 ^ 0 + 0 ≡ a = omega arith in
    let s' : c * 2 ^ 0 + 0 ≡ c = omega arith in rw (e, e', s, s') (omega arith)
bit_and_split (suc k) a b c d p q = ground (
  arith,
  and_by_digit (a * 2 ^ suc k + b) (c * 2 ^ suc k + d),
  and_by_digit b d,
  mul-pow-suc_right a k,
  mul-pow-suc_right c k,
  mul-pow-suc_right (bit_and a c) k,
  pow-suc 2 k,
  bit_and_split k a (b / 2) c (d / 2) (omega (arith, pow-suc 2 k)) (omega (arith, pow-suc 2 k)),
)

pub bit_or_split :
    (k a b c d : ℕ)
    → b < 2 ^ k
    → d < 2 ^ k
    → bit_or (a * 2 ^ k + b) (c * 2 ^ k + d) ≡ bit_or a c * 2 ^ k + bit_or b d
bit_or_split zero a b c d p q =
    let e : b ≡ 0 = omega arith in
    let e' : d ≡ 0 = omega arith in
    let s : a * 2 ^ 0 + 0 ≡ a = omega arith in
    let s' : c * 2 ^ 0 + 0 ≡ c = omega arith in rw (e, e', s, s') (omega arith)
bit_or_split (suc k) a b c d p q = ground (
  arith,
  or_by_digit (a * 2 ^ suc k + b) (c * 2 ^ suc k + d),
  or_by_digit b d,
  mul-pow-suc_right a k,
  mul-pow-suc_right c k,
  mul-pow-suc_right (bit_or a c) k,
  pow-suc 2 k,
  bit_or_split k a (b / 2) c (d / 2) (omega (arith, pow-suc 2 k)) (omega (arith, pow-suc 2 k)),
)

pub bit_and-zero : (a : ℕ) → bit_and a 0 ≡ 0
bit_and-zero a = fuelled a a (le_refl a)
  where
    fuelled : (n m : ℕ) → m ≤ n → bit_and m 0 ≡ 0
    fuelled n zero h = refl
    fuelled zero (suc m) h = absurd (omega arith)
    fuelled (suc n) (suc m) h =
        omega (arith, and_by_digit (suc m) 0, fuelled n (suc m / 2) (omega arith))

pub bit_or-zero : (a : ℕ) → bit_or a 0 ≡ a
bit_or-zero a = fuelled a a (le_refl a)
  where
    fuelled : (n m : ℕ) → m ≤ n → bit_or m 0 ≡ m
    fuelled n zero h = refl
    fuelled zero (suc m) h = absurd (omega arith)
    fuelled (suc n) (suc m) h =
        omega (arith, or_by_digit (suc m) 0, fuelled n (suc m / 2) (omega arith))

pub zero-bit_or : (a : ℕ) → bit_or 0 a ≡ a
zero-bit_or a = simp bit_or-bitwise (omega arith)

pub zero-bit_and : (a : ℕ) → bit_and 0 a ≡ 0
zero-bit_and a = simp bit_and-bitwise (omega arith)

-- A word of `w` bits is kept by a mask of `w` ones.
pub bit_and_ones_fits : (w a : ℕ) → a < 2 ^ w → bit_and a (2 ^ w - 1) ≡ a
bit_and_ones_fits zero a h = rw bit_and-zero (omega arith)
bit_and_ones_fits (suc w) a h = ground (
  arith,
  pow-suc 2 w,
  one-le-pow w 2,
  and_by_digit a (2 ^ suc w - 1),
  bit_and_ones_fits w (a / 2) (omega (arith, pow-suc 2 w)),
)

-- A mask of `w` ones keeps the remainder by `2 ^ w`.
pub bit_and_ones : (w a : ℕ) → bit_and a (2 ^ w - 1) ≡ a % 2 ^ w
bit_and_ones w a = ground (
  arith,
  one-le-pow w 2,
  bit_and-zero (a / 2 ^ w),
  bit_and_ones_fits w (a % 2 ^ w),
  bit_and_split w (a / 2 ^ w) (a % 2 ^ w) 0 (2 ^ w - 1),
)

bit_or_ones_fits : (w a : ℕ) → a < 2 ^ w → bit_or a (2 ^ w - 1) ≡ 2 ^ w - 1
bit_or_ones_fits zero a h = let e : a ≡ 0 = omega arith in rw (e, zero-bit_or)
bit_or_ones_fits (suc w) a h = ground (
  arith,
  pow-suc 2 w,
  one-le-pow w 2,
  or_by_digit a (2 ^ suc w - 1),
  bit_or_ones_fits w (a / 2) (omega (arith, pow-suc 2 w)),
)

-- Setting all of the low `w` bits.
pub bit_or_ones : (w a : ℕ) → bit_or a (2 ^ w - 1) ≡ a / 2 ^ w * 2 ^ w + (2 ^ w - 1)
bit_or_ones w a = ground (
  arith,
  one-le-pow w 2,
  bit_or-zero (a / 2 ^ w),
  bit_or_ones_fits w (a % 2 ^ w),
  bit_or_split w (a / 2 ^ w) (a % 2 ^ w) 0 (2 ^ w - 1),
)
