-- ===== src/Region.antt =====
-- Regions of virtual memory: the structures of include/os-mm.h, and the operations of
-- src/libmem.c, src/mm-vm.c and src/mm64.c on the region lists and the page queue.
pub mod FirstFit
pub mod Space
pub mod Pages
pub mod Area
pub mod Symbols
mod Examples
use os_assignment.Base.{
  ℕ, zero, suc, ◌+◌, ◌-◌, ◌%◌, ◌^◌, List, [], ◌∷◌, ◌++◌, Option, none, some, ◌==◌, ◌||◌, ltb, leb,
  get_elem?, if◌then◌else◌,
}

-- struct vm_rg_struct.
pub record Rg : Type 0 where
  pub rg_start : ℕ
  pub rg_end : ℕ

-- struct vm_area_struct, without the pointer back to its owner.
pub record Vma : Type 0 where
  pub vm_id : ℕ
  pub vm_start : ℕ
  pub vm_end : ℕ
  pub sbrk : ℕ
  pub vm_freerg_list : List Rg

-- struct mm_struct: the addresses of the tables, the list of areas, the symbol table and the
-- pages in memory, latest first.
pub record Mm : Type 0 where
  pub pgd : ℕ
  pub p4d : ℕ
  pub pud : ℕ
  pub pmd : ℕ
  pub pt : ℕ
  pub mmap : List Vma
  pub symrgtbl : List Rg
  pub fifo_pgn : List ℕ

-- The return codes 0 and -1.
pub data Code : Type 0 where
  success failure : Code

-- `get_vma_by_num`: a NULL list gives NULL; the search walks off the end of the list through a
-- NULL pointer. The area is given by its position in the list.
pub data Search : Type 0 where
  found : ℕ → Search
  null_list fault : Search

-- The loop, at position `pos` with the areas from there on. `vmaid` is not negative.
unfoldable pub vma_from : List Vma → ℕ → ℕ → Search
vma_from [] pos vmaid = fault
vma_from (vma ∷ rest) pos vmaid =
    if ltb vma.vm_id vmaid then vma_from rest (pos + 1) vmaid else found pos

unfoldable pub get_vma_by_num : Mm → ℕ → Search
unfolding vma_from
get_vma_by_num mm vmaid = elim mm.mmap [
  | [] ↦ null_list
  | vma ∷ rest ↦ vma_from (vma ∷ rest) 0 vmaid
]

unfoldable pub init_vm_rg : ℕ → ℕ → Rg
init_vm_rg rg_start rg_end = record { rg_start = rg_start; rg_end = rg_end }

unfoldable pub enlist_vm_rg_node : List Rg → Rg → List Rg
enlist_vm_rg_node rglist rgnode = rgnode ∷ rglist

unfoldable pub enlist_pgn_node : List ℕ → ℕ → List ℕ
enlist_pgn_node plist pgn = pgn ∷ plist

-- The list that `enlist_vm_freerg_list` leaves in the first area, and its return code.
unfoldable pub enlist_vm_freerg_list : List Rg → Rg → Code × List Rg
enlist_vm_freerg_list freerg_list rg_elmt =
    if leb rg_elmt.rg_end rg_elmt.rg_start
    then (failure, freerg_list)
    else (success, rg_elmt ∷ freerg_list)

-- PAGING_MAX_SYMTBL_SZ.
abbrev pub max_symtbl_sz : ℕ
max_symtbl_sz = 30

-- `get_symrg_byid` for an identifier that is not negative: NULL above 30. For 30 itself the address
-- lies behind the table of 30 entries.
pub data Symbol : Type 0 where
  entry : Rg → Symbol
  null_symbol behind_table : Symbol

unfoldable pub get_symrg_byid : Mm → ℕ → Symbol
get_symrg_byid mm rgid =
    if ltb max_symtbl_sz rgid
    then null_symbol
    else (elim (get_elem? mm.symrgtbl rgid) [ none ↦ behind_table | some rg ↦ entry rg ])

-- `find_victim_page`: the last page of the list, which is the oldest, is taken off.
unfoldable pub take_last : ℕ → List ℕ → ℕ × List ℕ
take_last pgn [] = (pgn, [])
take_last pgn (next ∷ rest) = let r = take_last next rest in (r.0, pgn ∷ r.1)

unfoldable pub find_victim_page : List ℕ → Option (ℕ × List ℕ)
unfolding take_last
find_victim_page fifo_pgn = elim fifo_pgn [ [] ↦ none | pgn ∷ rest ↦ some (take_last pgn rest) ]

-- The loop of `get_free_vmrg_area` for a size of 64 bits: the region that was cut off and the
-- list that is left. A region that is used up takes over the one behind it; the last one stays,
-- empty.
unfoldable pub cut_region : ℕ → List Rg → Option (Rg × List Rg)
cut_region size [] = none
cut_region size (rg ∷ rest) =
    let cut : Rg = record { rg_start = rg.rg_start; rg_end = (rg.rg_start + size) % 2 ^ 64 } in
    let later = cut_region size rest in
    if leb cut.rg_end rg.rg_end
    then (some (
      cut,
      (if ltb cut.rg_end rg.rg_end then record rg { rg_start = cut.rg_end } ∷ rest else (elim rest [
        | [] ↦ record rg { rg_start = rg.rg_end } ∷ []
        | next ∷ behind ↦ next ∷ behind
      ])),
    ))
    else (elim later [ none ↦ none | some (found_rg, left) ↦ some (found_rg, rg ∷ left) ])

-- An `addr_t` that is passed as an `int` keeps its low 32 bits; the values from 2 ^ 31 are negative.
abbrev pub int32 : ℕ → ℕ
int32 v = v % 2 ^ 32

-- `get_free_vmrg_area` on the list of free regions of the area, with `size` as the caller has it.
-- `none` is the return code -1. No region starts at 2 ^ 64 - 1, which the code takes as the mark of
-- a region that was not found.
unfoldable pub get_free_vmrg_area : List Rg → ℕ → Option (Rg × List Rg)
unfolding cut_region
get_free_vmrg_area freerg_list size =
    if int32 size == 0 || leb (2 ^ 31) (int32 size)
    then none
    else cut_region (int32 size) freerg_list
