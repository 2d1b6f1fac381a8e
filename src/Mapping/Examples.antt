-- ===== src/Mapping/Examples.antt =====
-- A new address space: two frames are mapped into it, and a request for four is refused.
use os_assignment.Base.{zero, suc, ◌*◌, get_or, ◌≢◌}
use os_assignment.Base.{arith, ◌%◌, ◌^◌}
use os_assignment.Base.{
  ℕ, ◌+◌, ◌<◌, ◌≡◌, ◌⊎◌, refl, max, List, [], ◌∷◌, ◌++◌, length, Option, none, some,
}
use os_assignment.Paging.Address.{get_pd_from_pagenum, get_pd_from_address}
use os_assignment.Paging.Pte.{set_fpn_entry, paging_fpn}
use os_assignment.Paging.Directory.{
  Heap, contains, is_present64, table_addr, write_cell, alloc_table, get_next_level_table, descend,
  update_entry, pte_set_fpn, lookup_entry, pte_get_entry,
}
use os_assignment.Paging.Directory.Bare
use os_assignment.Paging.Directory.Descent.{HasRoom}
use os_assignment.Mapping.{mapped, nth_page}
use os_assignment.Mapping.Ram.{IsFrameList, IsRamMapped, vm_map_ram-IsRamMapped}
use os_assignment.Mapping.Pages.{ReadsWord, IsVmapped, vmap_page_range-IsVmapped}
use os_assignment.Memphy.{Memphy, get_freefp}
use os_assignment.Region.{Rg, Mm, init_vm_rg, enlist_vm_rg_node, enlist_pgn_node}
use os_assignment.Frames.{alloc_pages_range}
use os_assignment.Frames.Laws.{reverse_onto, with_free}
use os_assignment.Mapping.{
  not_mapped, Space, vmap_from, vmap_page_range, RamMap, vm_map_ram, init_mm,
}
use os_assignment.Region.{success, found, vma_from, get_vma_by_num}
use os_assignment.Region.Area.{overlaps_from, validate_overlap_vm_area}
use os_assignment.Mapping.Limit.{aligned_size, inc_vma_limit, inc_vma_limit-out_of_memory}
use os_assignment.Mapping.Laws.{after_alloc, vm_map_ram_lem}

abbrev top : List ℕ → ℕ
top [] = 0
top (b ∷ bs) = max b (top bs)

abbrev no_tables : Heap
no_tables = record { calloc = λ bs. top bs + 1; blocks = []; cell = λ a i. 0 }

abbrev three_frames : Memphy
three_frames = record {
  storage = [];
  maxsz = 768;
  rdmflg = 1;
  cursor = 0;
  free_fp_list = 0 ∷ 1 ∷ 2 ∷ [];
}

abbrev no_rg : Rg
no_rg = record { rg_start = 0; rg_end = 0 }

abbrev space_of : Option (Mm × Heap) → Space
space_of none = record { heap = no_tables; pgd = 0; fifo_pgn = [] }
space_of (some (mm, h)) = record { heap = h; pgd = mm.pgd; fifo_pgn = mm.fifo_pgn }

abbrev frame_of : Option RamMap → ℕ → Option ℕ
frame_of none pgn = none
frame_of (some m) pgn = elim (pte_get_entry m.space.heap m.space.pgd pgn) [
  | none ↦ none
  | some pte ↦ some (paging_fpn pte)
]

-- The second page gets the first frame.
two_mapped :
    frame_of (vm_map_ram (space_of (init_mm no_tables [] [])) three_frames 512 2 no_rg) 3 ≡ some 0
unfolding init_mm init_vm_rg enlist_vm_rg_node vm_map_ram vmap_page_range vmap_from
    alloc_pages_range get_freefp enlist_pgn_node pte_set_fpn update_entry descend
    get_next_level_table alloc_table write_cell contains is_present64 table_addr get_pd_from_pagenum
    get_pd_from_address set_fpn_entry pte_get_entry lookup_entry paging_fpn
two_mapped = refl

abbrev bare : Space
bare = record { heap = no_tables; pgd = 7; fifo_pgn = [] }

vm_map_ram_test :
    ((taken : List ℕ) × (rest : List ℕ) × (three_frames.free_fp_list ≡ taken ++ rest)
      × (length taken ≡ 4)
      × (vm_map_ram bare three_frames 512 4 no_rg
          ≡ after_alloc bare (with_free three_frames rest) 512 4 (reverse_onto taken [])))
    ⊎ ((length three_frames.free_fp_list < 4)
        × (vm_map_ram bare three_frames 512 4 no_rg
            ≡ some
                (record { code = not_mapped; space = bare; mram = three_frames; ret_rg = no_rg })))
vm_map_ram_test = vm_map_ram_lem bare three_frames 512 4 no_rg

-- An area that asks for four pages of a device with three frames.
abbrev kernel_mm : Mm
kernel_mm = record {
  pgd = 7;
  p4d = 0;
  pud = 0;
  pmd = 0;
  pt = 0;
  mmap = record { vm_id = 0; vm_start = 0; vm_end = 0; sbrk = 0; vm_freerg_list = [] } ∷ [];
  symrgtbl = [];
  fifo_pgn = [];
}

area_found : get_vma_by_num kernel_mm 0 ≡ found 0
unfolding get_vma_by_num vma_from
area_found = refl

range_valid : validate_overlap_vm_area kernel_mm 0 0 (aligned_size 1000 % 2 ^ 64) ≡ some success
unfolding validate_overlap_vm_area overlaps_from get_vma_by_num vma_from
range_valid = refl

inc_vma_limit-out_of_memory_example :
    inc_vma_limit kernel_mm bare three_frames 0 1000
    ≡ some (record {
      code = success;
      mmap =
          record { vm_id = 0; vm_start = 0; vm_end = 1024; sbrk = 1024; vm_freerg_list = [] } ∷ [];
      space = bare;
      mram = three_frames;
    })
inc_vma_limit-out_of_memory_example =
    inc_vma_limit-out_of_memory kernel_mm bare three_frames 0 1000 0 _ area_found refl range_valid
      (omega arith)

-- Two pages of the bare page directory.
abbrev bare_space : Space
bare_space = record { heap = Bare.bare; pgd = 7; fifo_pgn = [] }

two_pages-HasRoom : HasRoom Bare.bare.calloc (2 * 4) Bare.bare.blocks
two_pages-HasRoom = (
  omega arith,
  (
    omega arith,
    (omega arith, (omega arith, (omega arith, (omega arith, (omega arith, (omega arith, tt)))))),
  ),
)

two_pages_read : (k : ℕ) → k < 2 → ReadsWord Bare.bare 7 (nth_page 512 (0 + k))
unfolding pte_get_entry lookup_entry contains is_present64 get_pd_from_pagenum get_pd_from_address
two_pages_read zero h = (0, refl, omega arith)
two_pages_read (suc zero) h = (0, refl, omega arith)
two_pages_read (suc (suc k)) h = absurd (omega arith)

vmap_page_range_example :
    (s' : Space) × (vmap_page_range bare_space 512 2 (5 ∷ 4 ∷ [])
      ≡ some (mapped, s', record { rg_start = 512; rg_end = 1024 }))
    × IsVmapped bare_space Bare.self 2 0 512 (5 ∷ 4 ∷ []) s'
vmap_page_range_example =
    vmap_page_range-IsVmapped 2 512 (5 ∷ 4 ∷ []) bare_space Bare.self Bare.bare-IsForest
      Bare.bare-IsRoot two_pages-HasRoom (omega arith) (omega arith) two_pages_read

three_frames-IsFrameList : IsFrameList three_frames.free_fp_list
three_frames-IsFrameList = record { once = distinct; fits = small }
  where
    distinct :
        (j k : ℕ)
        → j < k
        → k < 3
        → get_or three_frames.free_fp_list j 0 ≢ get_or three_frames.free_fp_list k 0
    distinct j zero less h e = omega arith
    distinct zero (suc zero) less h e = omega arith
    distinct (suc j) (suc zero) less h e = omega arith
    distinct zero (suc (suc zero)) less h e = omega arith
    distinct (suc zero) (suc (suc zero)) less h e = omega arith
    distinct (suc (suc j)) (suc (suc zero)) less h e = omega arith
    distinct j (suc (suc (suc k))) less h e = omega arith

    small : (k : ℕ) → k < 3 → get_or three_frames.free_fp_list k 0 < 2 ^ 13
    small zero h = omega arith
    small (suc zero) h = omega arith
    small (suc (suc zero)) h = omega arith
    small (suc (suc (suc k))) h = absurd (omega arith)

vm_map_ram_maps_example : IsRamMapped bare_space Bare.self three_frames 512 2 no_rg
vm_map_ram_maps_example =
    vm_map_ram-IsRamMapped 2 512 bare_space three_frames no_rg Bare.self Bare.bare-IsForest
      Bare.bare-IsRoot two_pages-HasRoom (omega arith) three_frames-IsFrameList (omega arith)
      two_pages_read
