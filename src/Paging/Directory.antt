-- ===== src/Paging/Directory.antt =====
-- The five-level page directory of src/mm64.c, with its tables at addresses: entries hold the
-- address of the next table and a present bit, and tables are allocated on the way down.
pub mod Forest
pub mod Descent
pub mod Arrival
pub mod Write
pub mod Laws
pub mod Entries
pub mod Bare
mod Examples
use os_assignment.Base.{
  ℕ, ◌+◌, ◌-◌, ◌^◌, List, [], ◌∷◌, Option, none, some, Bool, true, false, not, ◌||◌, bit_and,
  bit_or, ◌==◌, ◌&&◌, if◌then◌else◌,
}
use os_assignment.Paging.Address.{Indices, get_pd_from_pagenum}
use os_assignment.Paging.Pte.{set_fpn_entry, set_swap_entry}

-- The tables. `calloc` is that of the C library: the address that it returns when the blocks of
-- the list are in use, 0 for NULL. `blocks` are the tables that have been allocated, and
-- `cell a i` is entry i of the table at a.
pub record Heap : Type 0 where
  pub calloc : List ℕ → ℕ
  pub blocks : List ℕ
  pub cell : ℕ → ℕ → ℕ

unfoldable pub contains : List ℕ → ℕ → Bool
contains [] a = false
contains (b ∷ bs) a = b == a || contains bs a

-- PAGING64_PTE_PRESENT_MASK and PAGING64_TABLE_ADDR_MASK.
abbrev pub present64_mask : ℕ
present64_mask = 2 ^ 63

abbrev pub table_addr_mask : ℕ
table_addr_mask = 0x0000FFFFFFFFFFFF

unfoldable pub is_present64 : ℕ → Bool
is_present64 entry = not (bit_and entry present64_mask == 0)

unfoldable pub table_addr : ℕ → ℕ
table_addr entry = bit_and entry table_addr_mask

unfoldable pub write_cell : Heap → ℕ → ℕ → ℕ → Heap
write_cell h a i v = record h { cell = λ b j. if b == a && j == i then v else h.cell b j }

-- calloc(512, ...): a table of zeros, or NULL.
unfoldable pub alloc_table : Heap → ℕ × Heap
alloc_table h =
    let a = h.calloc h.blocks in
    if a == 0
    then (0, h)
    else (a, record h { blocks = a ∷ h.blocks; cell = λ b j. if b == a then 0 else h.cell b j })

-- `get_next_level_table64(&table[i])`; `get_next_level_table32` is the same but for the size of
-- the entries of the new table. `none` is an access through an address that is not that of a
-- table, such as NULL.
unfoldable pub get_next_level_table : Heap → ℕ → ℕ → Option (ℕ × Heap)
get_next_level_table h table i =
    let content = h.cell table i in
    let new_table = alloc_table h in
    if contains h.blocks table
    then (if is_present64 content
        then some (table_addr content, h)
        else (some
            (new_table.0, write_cell new_table.1 table i (bit_or new_table.0 present64_mask))))
    else none

-- The calls in a row, one for each index, from the page global directory down.
unfoldable pub descend : Heap → ℕ → List ℕ → Option (ℕ × Heap)
descend h table [] = some (table, h)
descend h table (i ∷ is) = elim (get_next_level_table h table i) [
  | none ↦ none
  | some (next, h') ↦ descend h' next is
]

abbrev pub upper : Indices → List ℕ
upper i = i.pgd ∷ i.p4d ∷ i.pud ∷ i.pmd ∷ []

-- An update of the entry `pt_tbl[pt_idx]` that the descent leads to.
unfoldable pub update_entry : Heap → ℕ → ℕ → (ℕ → ℕ) → Option Heap
update_entry h pgd pgn change =
    let idx = get_pd_from_pagenum pgn in
    elim (descend h pgd (upper idx)) [
      | none ↦ none
      | some (pt, h') ↦
          if contains h'.blocks pt
          then some (write_cell h' pt idx.pt (change (h'.cell pt idx.pt)))
          else none
    ]

-- The three updates, for a process whose `mm` is not NULL and has its page directory at `pgd`.
unfoldable pub pte_set_entry : Heap → ℕ → ℕ → ℕ → Option Heap
pte_set_entry h pgd pgn pte_val = update_entry h pgd pgn (λ pte. pte_val)

unfoldable pub pte_set_fpn : Heap → ℕ → ℕ → ℕ → Option Heap
pte_set_fpn h pgd pgn fpn = update_entry h pgd pgn (λ pte. set_fpn_entry pte fpn)

unfoldable pub pte_set_swap : Heap → ℕ → ℕ → ℕ → ℕ → Option Heap
pte_set_swap h pgd pgn swptyp swpoff =
    update_entry h pgd pgn (λ pte. set_swap_entry pte swptyp swpoff)

-- The reads of `pte_get_entry` on the way down: 0 where an entry is not present.
unfoldable pub lookup_entry : Heap → ℕ → List ℕ → ℕ → Option ℕ
lookup_entry h table [] j = if contains h.blocks table then some (h.cell table j) else none
lookup_entry h table (i ∷ is) j =
    let entry = h.cell table i in
    let rest = lookup_entry h (table_addr entry) is j in
    if contains h.blocks table then (if is_present64 entry then rest else some 0) else none

-- For a process whose `mm` and `pgd` are not NULL.
unfoldable pub pte_get_entry : Heap → ℕ → ℕ → Option ℕ
pte_get_entry h pgd pgn = let idx = get_pd_from_pagenum pgn in lookup_entry h pgd (upper idx) idx.pt
