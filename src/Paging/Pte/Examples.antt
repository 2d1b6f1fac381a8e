-- ===== src/Paging/Pte/Examples.antt =====
-- Entries before and after the updates, and the laws at one of them.
use os_assignment.Base.{◌/◌, ◌%◌, ◌^◌, ◌<◌, ◌≡◌, refl, arith, true, false, bit_and}
use os_assignment.Base.Masks.{get_value}
use os_assignment.Paging.Pte.{
  dirty_mask, swptyp_mask, is_present, is_swapped, paging_fpn, paging_swp, set_fpn_entry,
  set_swap_entry,
}
use os_assignment.Paging.Pte.Laws.{set_fpn_entry_lem, set_swap_entry_lem, InitCases, init_pte_lem}

load_after_swap : set_fpn_entry (set_swap_entry 0 0 3) 7 ≡ 0x80000007
unfolding set_fpn_entry set_swap_entry
load_after_swap = refl

swap_out : set_swap_entry 0x80000007 2 9 ≡ 0x40000122
unfolding set_swap_entry
swap_out = refl

set_fpn_entry_test :
    (is_present (set_fpn_entry 0xdeadbeef 5) ≡ true)
    × (is_swapped (set_fpn_entry 0xdeadbeef 5) ≡ false)
    × (bit_and (set_fpn_entry 0xdeadbeef 5) dirty_mask ≡ 0)
    × (paging_fpn (set_fpn_entry 0xdeadbeef 5) ≡ 5 % 2 ^ 13)
    × (set_fpn_entry 0xdeadbeef 5 / 2 ^ 13 % 2 ^ 15 ≡ 0xdeadbeef / 2 ^ 13 % 2 ^ 15)
    × (set_fpn_entry 0xdeadbeef 5 / 2 ^ 29 % 2 ≡ 0xdeadbeef / 2 ^ 29 % 2)
    × (set_fpn_entry 0xdeadbeef 5 < 2 ^ 32)
set_fpn_entry_test = set_fpn_entry_lem 0xdeadbeef 5 (omega arith)

set_swap_entry_test :
    (is_present (set_swap_entry 0xdeadbeef 1 6) ≡ false)
    × (is_swapped (set_swap_entry 0xdeadbeef 1 6) ≡ true)
    × (bit_and (set_swap_entry 0xdeadbeef 1 6) dirty_mask ≡ 0)
    × (paging_swp (set_swap_entry 0xdeadbeef 1 6) ≡ 6 % 2 ^ 21)
    × (get_value (set_swap_entry 0xdeadbeef 1 6) swptyp_mask 0 ≡ 1 % 2 ^ 5)
    × (set_swap_entry 0xdeadbeef 1 6 / 2 ^ 26 % 2 ^ 2 ≡ 0xdeadbeef / 2 ^ 26 % 2 ^ 2)
    × (set_swap_entry 0xdeadbeef 1 6 / 2 ^ 29 % 2 ≡ 0xdeadbeef / 2 ^ 29 % 2)
    × (set_swap_entry 0xdeadbeef 1 6 < 2 ^ 32)
set_swap_entry_test = set_swap_entry_lem 0xdeadbeef 1 6 (omega arith)

-- Page 9 of the swap device.
init_pte_example : InitCases 0x80000007 1 7 1 2 9
init_pte_example = init_pte_lem 0x80000007 1 7 1 2 9 (omega arith)
