-- ===== src/Paging/Pte/Fields.antt =====
-- The steps of the entry's updates, as arithmetic on its fields.
use os_assignment.Base.{ℕ, ◌+◌, ◌*◌, ◌/◌, ◌%◌, ◌^◌, ◌<◌, ◌≡◌, arith}
use os_assignment.Base.{bit_and}
use os_assignment.Base.Masks.{set_bit, clear_bit, set_value, get_value}
use os_assignment.Base.Masks.{bit_and_field, bit_and_hole, bit_or_field, bit_or_put}
use os_assignment.Paging.Pte.{
  present_mask, swapped_mask, dirty_mask, fpn_mask, swptyp_mask, swpoff_mask,
}

module _ (v : ℕ) where
  pub present_bit : bit_and v present_mask ≡ v / 2 ^ 31 % 2 * 2 ^ 31
  present_bit = omega (arith, bit_and_field 31 1 v)

  pub swapped_bit : bit_and v swapped_mask ≡ v / 2 ^ 30 % 2 * 2 ^ 30
  swapped_bit = omega (arith, bit_and_field 30 1 v)

  pub dirty_bit : bit_and v dirty_mask ≡ v / 2 ^ 28 % 2 * 2 ^ 28
  dirty_bit = omega (arith, bit_and_field 28 1 v)

  pub fpn_field : get_value v fpn_mask 0 ≡ v % 2 ^ 13
  fpn_field = omega (arith, bit_and_field 0 13 v)

  pub swptyp_field : get_value v swptyp_mask 0 ≡ v % 2 ^ 5
  swptyp_field = omega (arith, bit_and_field 0 5 v)

  pub swpoff_field : bit_and v swpoff_mask / 2 ^ 5 ≡ v / 2 ^ 5 % 2 ^ 21
  swpoff_field = omega (arith, bit_and_field 5 21 v)

  pub set_present : v < 2 ^ 32 → set_bit v present_mask ≡ 2 ^ 31 + v % 2 ^ 31
  set_present h = omega (arith, bit_or_field 31 1 v)

  pub clear_present : clear_bit v present_mask ≡ v % 2 ^ 31
  clear_present = omega (arith, bit_and_hole 31 1 0 v)

  pub set_swapped : set_bit v swapped_mask ≡ v / 2 ^ 31 * 2 ^ 31 + 2 ^ 30 + v % 2 ^ 30
  set_swapped = omega (arith, bit_or_field 30 1 v)

  pub clear_swapped : v < 2 ^ 32 → clear_bit v swapped_mask ≡ v / 2 ^ 31 * 2 ^ 31 + v % 2 ^ 30
  clear_swapped h = omega (arith, bit_and_hole 30 1 1 v)

  pub clear_dirty : v < 2 ^ 32 → clear_bit v dirty_mask ≡ v / 2 ^ 29 * 2 ^ 29 + v % 2 ^ 28
  clear_dirty h = omega (arith, bit_and_hole 28 1 3 v)

  pub clear_fpn : v < 2 ^ 32 → clear_bit v fpn_mask ≡ v / 2 ^ 13 * 2 ^ 13
  clear_fpn h = omega (arith, bit_and_hole 0 13 19 v)

  pub put_fpn :
      (fpn : ℕ) → v < 2 ^ 32 → set_value v fpn fpn_mask 0 ≡ v / 2 ^ 13 * 2 ^ 13 + fpn % 2 ^ 13
  put_fpn fpn h =
      let e : fpn * 2 ^ 0 % 2 ^ 64 ≡ fpn % 2 ^ 64 * 2 ^ 0 = omega arith in
      rw e (omega (arith, bit_or_put 0 13 19 v (fpn % 2 ^ 64)))

  pub put_swptyp :
      (t : ℕ) → v < 2 ^ 32 → set_value v t swptyp_mask 0 ≡ v / 2 ^ 5 * 2 ^ 5 + t % 2 ^ 5
  put_swptyp t h =
      let e : t * 2 ^ 0 % 2 ^ 64 ≡ t % 2 ^ 64 * 2 ^ 0 = omega arith in
      rw e (omega (arith, bit_or_put 0 5 27 v (t % 2 ^ 64)))

  pub put_swpoff :
      (o : ℕ)
      → v < 2 ^ 32
      → set_value v o swpoff_mask 5 ≡ (v / 2 ^ 26 * 2 ^ 21 + o % 2 ^ 21) * 2 ^ 5 + v % 2 ^ 5
  put_swpoff o h =
      let e : o * 2 ^ 5 % 2 ^ 64 ≡ o % 2 ^ 59 * 2 ^ 5 = omega arith in
      rw e (omega (arith, bit_or_put 5 21 6 v (o % 2 ^ 59)))
