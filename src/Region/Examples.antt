-- ===== src/Region/Examples.antt =====
-- A free list of two regions, a queue of three pages, and an area with a table of 30 symbols.
use os_assignment.Base.{
  ℕ, ◌+◌, ◌*◌, ◌%◌, ◌^◌, ◌≤◌, ◌<◌, ◌≡◌, ◌≢◌, ◌⊎◌, refl, arith, List, [], ◌∷◌, Option, none, some,
  replicate, get_or, All,
}
use os_assignment.Region.{
  Rg, Vma, Mm, Code, success, failure, vma_from, found, null_list, get_vma_by_num, find_victim_page,
  entry, null_symbol, behind_table, get_symrg_byid, get_free_vmrg_area, cut_region,
}
use os_assignment.Region.Space.{IsRegion, CutCases}
use os_assignment.Region.FirstFit.{get_free_vmrg_area_lem, get_free_vmrg_area-truncates}
use os_assignment.Region.Area.{validate_overlap_vm_area, Shares, validate_overlap_vm_area_lem}
use os_assignment.Region.Symbols.{no_region, free_region, IsFreed, free_region_lem}
use os_assignment.Region.Pages.{
  victims, enlist_all, victims-enlist_all, SearchCases, get_vma_by_num_lem, get_symrg_byid_lem,
}

abbrev rg : ℕ → ℕ → Rg
rg from to = record { rg_start = from; rg_end = to }

abbrev two_regions : List Rg
two_regions = rg 0 100 ∷ rg 300 700 ∷ []

two_regions-All : All IsRegion two_regions
two_regions-All = (
  record { ordered = omega arith; user = omega arith },
  (record { ordered = omega arith; user = omega arith }, tt),
)

cut_from_second : get_free_vmrg_area two_regions 150 ≡ some (rg 300 450, rg 0 100 ∷ rg 450 700 ∷ [])
unfolding get_free_vmrg_area cut_region
cut_from_second = refl

cut_whole : get_free_vmrg_area two_regions 100 ≡ some (rg 0 100, rg 300 700 ∷ [])
unfolding get_free_vmrg_area cut_region
cut_whole = refl

-- The last region stays in the list, empty.
cut_last : get_free_vmrg_area two_regions 400 ≡ some (rg 300 700, rg 0 100 ∷ rg 700 700 ∷ [])
unfolding get_free_vmrg_area cut_region
cut_last = refl

get_free_vmrg_area_example : CutCases 150 two_regions (get_free_vmrg_area two_regions 150)
get_free_vmrg_area_example =
    get_free_vmrg_area_lem two_regions 150 (omega arith) (omega arith) two_regions-All

-- A request for 4 GiB and 16 bytes gets 16 bytes.
get_free_vmrg_area-truncates_example :
    (get_free_vmrg_area two_regions (16 + 1 * 2 ^ 32) ≡ get_free_vmrg_area two_regions 16)
    × ((16 % 2 ^ 32 ≡ 0) ⊎ (2 ^ 31 ≤ 16 % 2 ^ 32) → get_free_vmrg_area two_regions 16 ≡ none)
get_free_vmrg_area-truncates_example = get_free_vmrg_area-truncates two_regions 16 1

victims-enlist_all_example :
    (victims 3 (enlist_all (4 ∷ 9 ∷ 2 ∷ []) []) ≡ (4 ∷ 9 ∷ 2 ∷ [], []))
    × (find_victim_page [] ≡ none)
victims-enlist_all_example = victims-enlist_all (4 ∷ 9 ∷ 2 ∷ [])

abbrev area : ℕ → Vma
area id = record {
  vm_id = id;
  vm_start = 0;
  vm_end = 700;
  sbrk = 700;
  vm_freerg_list = two_regions;
}

abbrev mm : Mm
mm = record {
  pgd = 1;
  p4d = 2;
  pud = 3;
  pmd = 4;
  pt = 5;
  mmap = area 0 ∷ [];
  symrgtbl = replicate 30 (rg 0 0);
  fifo_pgn = [];
}

get_vma_by_num_test :
    ((mm.mmap ≡ []) × (get_vma_by_num mm 1 ≡ null_list))
    ⊎ ((mm.mmap ≢ []) × SearchCases mm.mmap 0 1 (get_vma_by_num mm 1))
get_vma_by_num_test = get_vma_by_num_lem mm 1

get_symrg_byid_test :
    ((30 < 30) × (get_symrg_byid mm 30 ≡ entry (get_or mm.symrgtbl 30 (rg 0 0))))
    ⊎ (((30 < 30) × (get_symrg_byid mm 30 ≡ null_symbol))
        ⊎ ((◌≡◌ {A = ℕ} 30 30) × (get_symrg_byid mm 30 ≡ behind_table)))
get_symrg_byid_test = get_symrg_byid_lem mm 30 (rg 0 0) refl

abbrev FreeCases : Option (Code × Mm) → Mm → ℕ → Type 0
FreeCases result m rgid =
    (((30 ≤ rgid) ⊎ (get_or m.symrgtbl rgid no_region ≡ no_region)) × (result ≡ some (failure, m)))
    ⊎ ((mm' : Mm) × (result ≡ some (success, mm'))
        × IsFreed m rgid (area 0) [] (get_or m.symrgtbl rgid no_region) mm')

abbrev one_symbol : Mm
one_symbol = record mm { symrgtbl = rg 700 800 ∷ replicate 29 (rg 0 0) }

free_region_example : FreeCases (free_region one_symbol 0) one_symbol 0
free_region_example = free_region_lem one_symbol 0 (area 0) [] refl refl

-- An area from 0 to 700, and another one inside it.
abbrev two_areas : Mm
two_areas = record mm { mmap = area 0 ∷ record (area 1) { vm_start = 600; vm_end = 650 } ∷ [] }

first_found : get_vma_by_num two_areas 0 ≡ found 0
unfolding get_vma_by_num vma_from
first_found = refl

validate_overlap_vm_area_example :
    ((validate_overlap_vm_area two_areas 0 700 956 ≡ some success)
      × ((i : ℕ) (vma : Vma) (x : ℕ) → Shares two_areas.mmap 0 (area 0) i vma x → ⊥))
    ⊎ ((validate_overlap_vm_area two_areas 0 700 956 ≡ some failure)
        × ((i : ℕ) × (vma : Vma) × (x : ℕ) × Shares two_areas.mmap 0 (area 0) i vma x))
validate_overlap_vm_area_example =
    validate_overlap_vm_area_lem two_areas 0 700 956 0 (area 0) (omega arith) first_found refl
      (omega arith, (omega arith, tt))
