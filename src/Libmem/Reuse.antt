-- ===== src/Libmem/Reuse.antt =====
-- Memory that a process frees is given to its next request that fits.
use os_assignment.Base.{
  ℕ, ◌+◌, ◌^◌, ◌≤◌, ◌<◌, ◌≡◌, ◌≢◌, refl, ap, ◌∙◌, arith, List, ◌∷◌, some, true, false, ◌==◌, ◌&&◌,
  ◌||◌, leb, ltb, length, length-set, get_or, get_or-set_self, get_elem?, set,
}
use os_assignment.Region.{
  Rg, Vma, Mm, success, found, vma_from, get_vma_by_num, entry, get_symrg_byid,
  enlist_vm_freerg_list, get_free_vmrg_area,
}
use os_assignment.Region.Space.{IsRegion, head_cut, remainder}
use os_assignment.Region.FirstFit.{cut_region-first, get_free_vmrg_area-cut_region}
use os_assignment.Region.Symbols.{no_region, free_region, entry-at, free_region-set}
use os_assignment.Machine.{Machine, ◌>>=◌, mm_of, put_mm, pure, bind-run}
use os_assignment.Libmem.Regions.{
  set_caller_mm, with_free_list, set_symbol, alloc_free, alloc_region, code_of, liballoc, libfree,
}

pub put_mm_self :
    (s : Machine) (proc : ℕ) (mm : Mm) → mm_of (put_mm s (s.procs proc).mm mm) proc ≡ mm
put_mm_self s proc mm =
    let self : ((s.procs proc).mm == (s.procs proc).mm) ≡ true = ground arith in rw self refl

pub set_symbol-run :
    (s : Machine) (caller rgid : ℕ) (rg : Rg)
    → rgid < 30
    → set_symbol caller rgid rg s
      ≡ some (
        tt,
        put_mm s
            (s.procs caller).mm
            (record (mm_of s caller) { symrgtbl = set (mm_of s caller).symrgtbl rgid rg }),
      )
unfolding set_symbol
set_symbol-run s caller rgid rg h =
    let inside : ltb rgid 30 ≡ true = ground arith in rw (set_symbol, inside) refl

-- The state of the structure after a region of the free list was taken.
alloc_free-run :
    (s : Machine) (caller rgid cur : ℕ) (vma : Vma) (chosen : Rg) (left : List Rg)
    → rgid < 30
    → length (mm_of s caller).symrgtbl ≡ 30
    → (s' : Machine) × (alloc_free caller rgid cur vma chosen left s
        ≡ some (some chosen.rg_start, s'))
      × (get_symrg_byid (mm_of s' caller) rgid ≡ entry chosen)
unfolding alloc_free
alloc_free-run s caller rgid cur vma chosen left h size =
    let mm1 = with_free_list (mm_of s caller) cur vma left in
    let s1 = put_mm s (s.procs caller).mm mm1 in
    let mm2 = record (mm_of s1 caller) { symrgtbl = set (mm_of s1 caller).symrgtbl rgid chosen } in
    let s2 = put_mm s1 (s.procs caller).mm mm2 in
    let same = put_mm_self s caller mm1 in
    let kept = length-set (mm_of s1 caller).symrgtbl rgid chosen in
    let thirty : length (mm_of s1 caller).symrgtbl ≡ 30 =
      ap (λ (m : Mm). length m.symrgtbl) same ∙ size in
    (
      s2,
      bind-run (set_caller_mm caller mm1)
            (λ u. set_symbol caller rgid chosen >>= λ w. pure (some chosen.rg_start)) s tt s1 refl
          ∙ bind-run (set_symbol caller rgid chosen) (λ w. pure (some chosen.rg_start)) s1 tt s2
              (set_symbol-run s1 caller rgid chosen h),
      ap (λ (m : Mm). get_symrg_byid m rgid) (put_mm_self s1 caller mm2)
          ∙ entry-at mm2 rgid (kept ∙ thirty) h
          ∙ ap entry
              (get_or-set_self (mm_of s1 caller).symrgtbl rgid chosen no_region (omega arith)),
    )

pub first_area :
    (mm : Mm) (vma : Vma) (rest : List Vma)
    → mm.mmap ≡ vma ∷ rest
    → (get_vma_by_num mm 0 ≡ found 0) × (get_elem? mm.mmap 0 ≡ some vma)
unfolding get_vma_by_num vma_from
first_area mm vma rest e =
    let low : ltb vma.vm_id 0 ≡ false = ground arith in
    (rw (get_vma_by_num, e, vma_from, low) refl, ap (λ (l : List Vma). get_elem? l 0) e)

alloc_region-free :
    (s : Machine) (caller rgid size : ℕ) (vma : Vma) (rest : List Vma) (chosen : Rg)
    (left : List Rg)
    → (s.procs caller).mm ≢ 0
    → 0 < size
    → (mm_of s caller).mmap ≡ vma ∷ rest
    → get_free_vmrg_area vma.vm_freerg_list size ≡ some (chosen, left)
    → alloc_region caller 0 rgid size s ≡ alloc_free caller rgid 0 vma chosen left s
unfolding alloc_region
alloc_region-free s caller rgid size vma rest chosen left there real areas fits =
    let used : (size == 0 || (s.procs caller).mm == 0) ≡ false = ground arith in
    let (area, first) = first_area (mm_of s caller) vma rest areas in
    rw (alloc_region, used, area, first, fits) refl

libfree-run :
    (s : Machine) (proc rgid : ℕ) (mm : Mm)
    → (s.procs proc).mm ≢ 0
    → free_region (mm_of s proc) rgid ≡ some (success, mm)
    → libfree proc rgid s ≡ some (success, put_mm s (s.procs proc).mm mm)
unfolding libfree
libfree-run s proc rgid mm there e =
    let real : ((s.procs proc).mm == 0) ≡ false = ground arith in rw (libfree, real, e) refl

enlisted-first :
    (rgs : List Rg) (rg : Rg)
    → rg.rg_start < rg.rg_end
    → (enlist_vm_freerg_list rgs rg).1 ≡ rg ∷ rgs
unfolding enlist_vm_freerg_list
enlisted-first rgs rg h =
    let long : leb rg.rg_end rg.rg_start ≡ false = ground arith in
    rw (enlist_vm_freerg_list, long) refl

-- For a process with an area and a table of 30 symbols, and a symbol `old` with a region of user
-- addresses: `libfree` of the symbol succeeds, and `liballoc` of at most as many bytes, not 0 and
-- below 2 ^ 31, for a symbol below 30 then succeeds and gives this symbol the bytes from the start of the freed
-- region on.
pub libfree-liballoc :
    (s : Machine) (proc old rgid size : ℕ) (vma : Vma) (rest : List Vma)
    → (s.procs proc).mm ≢ 0
    → length (mm_of s proc).symrgtbl ≡ 30
    → (mm_of s proc).mmap ≡ vma ∷ rest
    → old < 30
    → rgid < 30
    → 0 < size
    → size < 2 ^ 31
    → IsRegion (get_or (mm_of s proc).symrgtbl old no_region)
    → (get_or (mm_of s proc).symrgtbl old no_region).rg_start + size
      ≤ (get_or (mm_of s proc).symrgtbl old no_region).rg_end
    → (s' s'' : Machine) × (libfree proc old s ≡ some (success, s'))
      × (liballoc proc size rgid s' ≡ some (success, s''))
      × (get_symrg_byid (mm_of s'' proc) rgid
          ≡ entry (head_cut size (get_or (mm_of s proc).symrgtbl old no_region)))
unfolding liballoc
libfree-liballoc s proc old rgid size vma rest there table areas low low' real small region long =
    let rg = get_or (mm_of s proc).symrgtbl old no_region in
    let used : (rg.rg_start == 0 && rg.rg_end == 0) ≡ false = ground arith in
    let freed = free_region-set (mm_of s proc) old vma rest table areas low used in
    let vma' : Vma = record vma {
      vm_freerg_list = (enlist_vm_freerg_list vma.vm_freerg_list rg).1;
    } in
    let mm' = record (mm_of s proc) {
      mmap = vma' ∷ rest;
      symrgtbl = set (mm_of s proc).symrgtbl old no_region;
    } in
    let s' = put_mm s (s.procs proc).mm mm' in
    let same = put_mm_self s proc mm' in
    let kept = length-set (mm_of s proc).symrgtbl old no_region in
    let fits =
      ap (λ (l : List Rg). get_free_vmrg_area l size)
        (enlisted-first vma.vm_freerg_list rg (omega arith))
      ∙ get_free_vmrg_area-cut_region (rg ∷ vma.vm_freerg_list) size real small
      ∙ cut_region-first size rg vma.vm_freerg_list small region long in
    let (s'', e, symbol) =
      alloc_free-run s' proc rgid 0 vma' (head_cut size rg) (remainder size rg vma.vm_freerg_list)
        low' (ap (λ (m : Mm). length m.symrgtbl) same ∙ kept ∙ table) in
    (
      s',
      s'',
      libfree-run s proc old mm' there freed,
      bind-run (alloc_region proc 0 rgid size) (λ a. pure (code_of a)) s' (some rg.rg_start) s''
          (alloc_region-free s' proc rgid size vma' rest (head_cut size rg)
              (remainder size rg vma.vm_freerg_list) there real (ap (λ (m : Mm). m.mmap) same) fits
            ∙ e),
      symbol,
    )
