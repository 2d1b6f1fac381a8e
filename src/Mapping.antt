-- ===== src/Mapping.antt =====
-- Mapping frames into the address space of a process: `vmap_pgd_memset`, `vmap_page_range`,
-- `vm_map_ram` and `init_mm` of src/mm64.c, on the page tables, the page queue and the RAM device.
pub mod Laws
pub mod Limit
pub mod Pages
pub mod Ram
mod Examples
use os_assignment.Base.{
  ℕ, zero, suc, ◌+◌, ◌*◌, ◌%◌, ◌^◌, List, [], ◌∷◌, Option, none, some, bit_or, ◌==◌, ◌||◌,
  if◌then◌else◌,
}
use os_assignment.Paging.{paging_pagesz, paging_pgn}
use os_assignment.Paging.Directory.{
  Heap, contains, write_cell, alloc_table, pte_set_entry, pte_set_fpn, present64_mask,
}
use os_assignment.Memphy.{Memphy}
use os_assignment.Region.{Rg, Vma, Mm, init_vm_rg, enlist_vm_rg_node, enlist_pgn_node}
use os_assignment.Frames.{FrameCode, frames_taken, out_of_memory, Allocation, alloc_pages_range}

-- The return codes 0 and -1; the latter is a large number for the callers, as it is an `addr_t`.
pub data MapCode : Type 0 where
  mapped not_mapped : MapCode

-- What the mapping changes of a process: the page tables, with the address of its page directory,
-- and the page queue.
pub record Space : Type 0 where
  pub heap : Heap
  pub pgd : ℕ
  pub fifo_pgn : List ℕ

-- The page of the round `i` of the loops.
abbrev pub nth_page : ℕ → ℕ → ℕ
nth_page addr i = paging_pgn ((addr + i * paging_pagesz) % 2 ^ 64)

-- The loop of `vmap_pgd_memset`, from round `pgit` with the rounds that are left. `none` is an
-- access through an address that is not that of a table.
unfoldable pub memset_from : ℕ → ℕ → ℕ → Space → Option Space
memset_from zero pgit addr s = some s
memset_from (suc left) pgit addr s =
    elim (pte_set_entry s.heap s.pgd (nth_page addr pgit) 0xdeadbeef) [
      | none ↦ none
      | some heap ↦ memset_from left (pgit + 1) addr (record s { heap = heap })
    ]

unfoldable pub vmap_pgd_memset : Space → ℕ → ℕ → Option Space
vmap_pgd_memset s addr pgnum = memset_from pgnum 0 addr s

-- The loop of `vmap_page_range`, from round `i`.
unfoldable pub vmap_from : ℕ → ℕ → ℕ → List ℕ → Space → Option (MapCode × Space)
vmap_from zero i addr frames s = some (mapped, s)
vmap_from (suc left) i addr [] s = some (not_mapped, s)
vmap_from (suc left) i addr (fpn ∷ frames) s =
    elim (pte_set_fpn s.heap s.pgd (nth_page addr i) fpn) [
      | none ↦ none
      | some heap ↦
          vmap_from left (i + 1) addr frames
            (record s { heap = heap; fifo_pgn = enlist_pgn_node s.fifo_pgn (nth_page addr i) })
    ]

-- For a process whose `mm` is not NULL; the region is returned through a pointer that is not NULL.
unfoldable pub vmap_page_range : Space → ℕ → ℕ → List ℕ → Option (MapCode × Space × Rg)
unfolding vmap_from
vmap_page_range s addr pgnum frames = elim (vmap_from pgnum 0 addr frames s) [
  | none ↦ none
  | some (code, s') ↦
      some (code, s', record { rg_start = addr; rg_end = (addr + pgnum * paging_pagesz) % 2 ^ 64 })
]

-- The results of `vm_map_ram`: the return code, the address space, the RAM device and the region.
pub record RamMap : Type 0 where
  pub code : MapCode
  pub space : Space
  pub mram : Memphy
  pub ret_rg : Rg

-- `vm_map_ram` with the result of `alloc_pages_range`. The test `ret_alloc < 0` is never true of an
-- `addr_t`; the return code of `vmap_page_range` is not looked at.
abbrev pub map_ram_after : Space → ℕ → ℕ → Rg → Allocation → Option RamMap
map_ram_after s mapstart incpgnum ret_rg a = elim a.code [
  | out_of_memory ↦ some (record { code = not_mapped; space = s; mram = a.mram; ret_rg = ret_rg })
  | frames_taken ↦ elim (vmap_page_range s mapstart incpgnum a.frm_lst) [
    | none ↦ none
    | some (code, s', rg) ↦ some (record { code = mapped; space = s'; mram = a.mram; ret_rg = rg })
  ]
]

-- The parameters `astart` and `aend` are not read.
unfoldable pub vm_map_ram : Space → Memphy → ℕ → ℕ → Rg → Option RamMap
vm_map_ram s mram mapstart incpgnum ret_rg =
    map_ram_after s mapstart incpgnum ret_rg (alloc_pages_range incpgnum [] mram)

-- `init_mm`. `freerg_list` is what the field `vm_freerg_list` of the new area holds as `malloc`
-- returns it, and `symrgtbl` the symbol table, which is not set; `malloc` succeeds. `none` is a
-- write to a table that could not be allocated.
unfoldable pub init_mm : Heap → List Rg → List Rg → Option (Mm × Heap)
init_mm h freerg_list symrgtbl =
    let pgd = alloc_table h in
    let p4d = alloc_table pgd.1 in
    let pud = alloc_table p4d.1 in
    let pmd = alloc_table pud.1 in
    let pt = alloc_table pmd.1 in
    let linked0 = write_cell pt.1 pgd.0 0 (bit_or p4d.0 present64_mask) in
    let linked1 = write_cell linked0 p4d.0 0 (bit_or pud.0 present64_mask) in
    let linked2 = write_cell linked1 pud.0 0 (bit_or pmd.0 present64_mask) in
    let linked3 = write_cell linked2 pmd.0 0 (bit_or pt.0 present64_mask) in
    let vma0 : Vma = record {
      vm_id = 0;
      vm_start = 0;
      vm_end = 0;
      sbrk = 0;
      vm_freerg_list = enlist_vm_rg_node freerg_list (init_vm_rg 0 0);
    } in
    let mm : Mm = record {
      pgd = pgd.0;
      p4d = p4d.0;
      pud = pud.0;
      pmd = pmd.0;
      pt = pt.0;
      mmap = vma0 ∷ [];
      symrgtbl = symrgtbl;
      fifo_pgn = [];
    } in
    if pgd.0 == 0 || p4d.0 == 0 || pud.0 == 0 || pmd.0 == 0 then none else some (mm, linked3)
