-- ===== src/Paging/Pte.antt =====
-- The page table entry, a 32-bit word: the masks of include/mm.h, `init_pte`, and what
-- `pte_set_fpn` and `pte_set_swap` of src/mm64.c write into the entry.
pub mod Fields
pub mod Laws
mod Examples
use os_assignment.Base.{ℕ, zero, suc, ◌+◌, ◌-◌, ◌*◌, ◌/◌, ◌^◌, bit_and, if◌then◌else◌, ◌==◌}
use os_assignment.Base.{Bool, not}
use os_assignment.Base.Masks.{genmask, bit_at, set_bit, clear_bit, set_value, get_value}

abbrev pub present_mask : ℕ
present_mask = bit_at 31

abbrev pub swapped_mask : ℕ
swapped_mask = bit_at 30

abbrev pub dirty_mask : ℕ
dirty_mask = bit_at 28

abbrev pub fpn_mask : ℕ
fpn_mask = genmask 32 12 0

abbrev pub swptyp_mask : ℕ
swptyp_mask = genmask 32 4 0

abbrev pub swpoff_mask : ℕ
swpoff_mask = genmask 32 25 5

-- PAGING_PAGE_PRESENT(pte), and `pte & PAGING_PTE_SWAPPED_MASK`, as tests.
unfoldable pub is_present : ℕ → Bool
is_present pte = not (bit_and pte present_mask == 0)

unfoldable pub is_swapped : ℕ → Bool
is_swapped pte = not (bit_and pte swapped_mask == 0)

-- PAGING_FPN(pte) and PAGING_SWP(pte).
unfoldable pub paging_fpn : ℕ → ℕ
paging_fpn pte = get_value pte fpn_mask 0

pub paging_swp : ℕ → ℕ
paging_swp pte = bit_and pte swpoff_mask / 2 ^ 5

-- The writes of `pte_set_fpn` to `*pte`.
unfoldable pub set_fpn_entry : ℕ → ℕ → ℕ
set_fpn_entry pte fpn =
    let p1 = set_bit pte present_mask in
    let p2 = clear_bit p1 swapped_mask in
    let p3 = clear_bit p2 dirty_mask in
    let p4 = clear_bit p3 fpn_mask in set_value p4 fpn fpn_mask 0

-- The writes of `pte_set_swap` to `*pte`.
unfoldable pub set_swap_entry : ℕ → ℕ → ℕ → ℕ
set_swap_entry pte swptyp swpoff =
    let p1 = clear_bit pte present_mask in
    let p2 = set_bit p1 swapped_mask in
    let p3 = clear_bit p2 dirty_mask in
    let p4 = set_value p3 swptyp swptyp_mask 0 in set_value p4 swpoff swpoff_mask 5

-- The return code of `init_pte` and the entry it leaves; it works on an `addr_t`, with masks of
-- 32 bits. `invalid` is -1.
pub data InitResult : Type 0 where
  ready : ℕ → InitResult
  invalid : InitResult

-- The parameter `drt` is not read.
pub init_pte : ℕ → ℕ → ℕ → ℕ → ℕ → ℕ → InitResult
init_pte pte pre fpn swp swptyp swpoff =
    let p1 = set_bit pte present_mask in
    let p2 = clear_bit p1 swapped_mask in
    let p3 = clear_bit p2 dirty_mask in
    let q1 = clear_bit pte present_mask in
    let q2 = set_bit q1 swapped_mask in
    let q3 = clear_bit q2 dirty_mask in
    let q4 = set_value q3 swptyp swptyp_mask 0 in
    let q5 = set_value q4 swpoff swpoff_mask 5 in
    if pre == 0
    then ready pte
    else (if swp == 0
        then (if fpn == 0 then invalid else ready (set_value p3 fpn fpn_mask 0))
        else ready q5)
