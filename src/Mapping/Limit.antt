-- ===== src/Mapping/Limit.antt =====
-- `inc_vma_limit` of src/mm-vm.c: an area of the kernel's `mm` grows, and frames are mapped for it
-- into the address space of the caller.
use os_assignment.Base.{
  ℕ, ◌+◌, ◌-◌, ◌*◌, ◌/◌, ◌%◌, ◌^◌, ◌<◌, ◌≡◌, inl, inr, ap, arith, List, length, Option, none, some,
  get_elem?, length-append, set, leb, if◌then◌else◌,
}
use os_assignment.Paging.{paging_pagesz}
use os_assignment.Memphy.{Memphy}
use os_assignment.Region.{Vma, Mm, Code, success, failure, found, null_list, fault, get_vma_by_num}
use os_assignment.Region.Area.{validate_overlap_vm_area, get_vm_area_node_at_brk}
use os_assignment.Mapping.{Space, RamMap, not_mapped, vm_map_ram}
use os_assignment.Mapping.Laws.{vm_map_ram_lem}

-- PAGING_ALIGN of an `addr_t`, with the wrap-around.
abbrev pub aligned_size : ℕ → ℕ
aligned_size sz = (sz + paging_pagesz - 1) % 2 ^ 64 / paging_pagesz * paging_pagesz

-- The number of pages is an `int`; a negative one gives no rounds.
abbrev pub page_count : ℕ → ℕ
page_count aligned = let n = aligned / paging_pagesz % 2 ^ 32 in if leb (2 ^ 31) n then 0 else n

-- The areas, the address space and the RAM device after the call, with the return code.
pub record Growth : Type 0 where
  pub code : Code
  pub mmap : List Vma
  pub space : Space
  pub mram : Memphy

-- The area with its new end.
abbrev pub grown : Vma → ℕ → Vma
grown vma aligned = record vma {
  sbrk = (vma.sbrk + aligned) % 2 ^ 64;
  vm_end = (vma.sbrk + aligned) % 2 ^ 64;
}

-- What follows `vm_map_ram`, whose result, an `addr_t`, is never less than 0.
abbrev pub grow_after : Mm → ℕ → Vma → ℕ → Option RamMap → Option Growth
grow_after mm cur vma aligned none = none
grow_after mm cur vma aligned (some m) = some (record {
  code = success;
  mmap = set mm.mmap cur (grown vma aligned);
  space = m.space;
  mram = m.mram;
})

-- `mm` is that of the kernel structure, which is not NULL. `none` is an access that C leaves
-- undefined.
unfoldable pub inc_vma_limit : Mm → Space → Memphy → ℕ → ℕ → Option Growth
inc_vma_limit mm s mram vmaid inc_sz =
    let aligned = aligned_size inc_sz in
    let refused : Growth = record { code = failure; mmap = mm.mmap; space = s; mram = mram } in
    elim (get_vma_by_num mm vmaid) [
      | null_list ↦ some refused
      | fault ↦ none
      | found cur ↦ elim (get_elem? mm.mmap cur) [
        | none ↦ none
        | some vma ↦
            elim (validate_overlap_vm_area mm vmaid vma.sbrk ((vma.sbrk + aligned) % 2 ^ 64)) [
              | none ↦ none
              | some failure ↦ some refused
              | some success ↦ grow_after mm cur vma aligned (
                  vm_map_ram s mram vma.sbrk (page_count aligned)
                    (get_vm_area_node_at_brk vma aligned))
            ]
      ]
    ]

-- When the area is found and the check for overlaps succeeds, but the device has fewer free frames
-- than the pages asked for, `inc_vma_limit` succeeds all the same: the area grows by the aligned
-- size although no page is mapped, and the page tables and the free frames are as before.
pub inc_vma_limit-out_of_memory :
    (mm : Mm) (s : Space) (mram : Memphy) (vmaid inc_sz cur : ℕ) (vma : Vma)
    → get_vma_by_num mm vmaid ≡ found cur
    → get_elem? mm.mmap cur ≡ some vma
    → validate_overlap_vm_area mm vmaid vma.sbrk ((vma.sbrk + aligned_size inc_sz) % 2 ^ 64)
      ≡ some success
    → length mram.free_fp_list < page_count (aligned_size inc_sz)
    → inc_vma_limit mm s mram vmaid inc_sz
      ≡ some (record {
        code = success;
        mmap = set mm.mmap cur (grown vma (aligned_size inc_sz));
        space = s;
        mram = mram;
      })
unfolding inc_vma_limit
inc_vma_limit-out_of_memory mm s mram vmaid inc_sz cur vma e e' valid short =
    rw (e, e', valid, inc_vma_limit) (ap (grow_after mm cur vma (aligned_size inc_sz)) refused)
  where
    refused :
        vm_map_ram s mram vma.sbrk
          (page_count (aligned_size inc_sz))
          (get_vm_area_node_at_brk vma (aligned_size inc_sz))
        ≡ some (record {
          code = not_mapped;
          space = s;
          mram = mram;
          ret_rg = get_vm_area_node_at_brk vma (aligned_size inc_sz);
        })
    refused =
        elim (vm_map_ram_lem s mram vma.sbrk (page_count (aligned_size inc_sz))
          (get_vm_area_node_at_brk vma (aligned_size inc_sz))) [
            | inr (_, r) ↦ r
            | inl (taken, rest, split, size, _) ↦
                let l = ap (λ (t : List ℕ). length t) split in
                let sum = length-append taken rest in absurd (omega arith)
          ]
