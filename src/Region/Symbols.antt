-- ===== src/Region/Symbols.antt =====
-- `__free` of src/libmem.c.
use os_assignment.Base.{
  ℕ, ◌≤◌, ◌<◌, ◌≡◌, ◌≢◌, ◌⊎◌, inl, inr, refl, sym, arith, ◌∙◌, List, [], ◌∷◌, length, true, false,
  ◌&&◌, ◌==◌, ltb, leb, Bool-cases, Option, none, some, get_or, set, get_elem?-eq-get_or,
  get_or-set_self, get_or-set_ne, length-set, if◌then◌else◌,
}
use os_assignment.Region.{
  Rg, Vma, Mm, Code, success, failure, max_symtbl_sz, entry, null_symbol, behind_table,
  get_symrg_byid, enlist_vm_freerg_list,
}

abbrev pub no_region : Rg
no_region = record { rg_start = 0; rg_end = 0 }

-- The list of areas with the free list of the first one given to `enlist_vm_freerg_list`, whose
-- return code `__free` does not look at; `none` is a NULL list of areas.
unfoldable pub enlist_first : List Vma → Rg → Option (List Vma)
enlist_first [] rg = none
enlist_first (vma ∷ rest) rg =
    some (record vma { vm_freerg_list = (enlist_vm_freerg_list vma.vm_freerg_list rg).1 } ∷ rest)

-- `none` is an access that C leaves undefined. `rgid` is not negative, and `malloc` succeeds.
unfoldable pub free_region : Mm → ℕ → Option (Code × Mm)
unfolding enlist_first
free_region mm rgid =
    if leb max_symtbl_sz rgid then some (failure, mm) else (elim (get_symrg_byid mm rgid) [
      | null_symbol ↦ some (failure, mm)
      | behind_table ↦ none
      | entry rgnode ↦
          if rgnode.rg_start == 0 && rgnode.rg_end == 0
          then some (failure, mm)
          else (elim (enlist_first mm.mmap rgnode) [
            | none ↦ none
            | some areas ↦
                some
                  (success, record mm { mmap = areas; symrgtbl = set mm.symrgtbl rgid no_region })
          ])
    ])

-- The region goes from the symbol table to the free list of the first area.
pub record IsFreed (mm : Mm) (rgid : ℕ) (vma : Vma) (rest : List Vma) (rg : Rg) (mm' : Mm)
    : Type 0 where
  pub areas :
      mm'.mmap
      ≡ record vma { vm_freerg_list = (enlist_vm_freerg_list vma.vm_freerg_list rg).1 } ∷ rest
  pub self : get_or mm'.symrgtbl rgid no_region ≡ no_region
  pub others : (i : ℕ) → i ≢ rgid → get_or mm'.symrgtbl i no_region ≡ get_or mm.symrgtbl i no_region
  pub size : length mm'.symrgtbl ≡ length mm.symrgtbl
  pub pages : mm'.fifo_pgn ≡ mm.fifo_pgn
  pub again : free_region mm' rgid ≡ some (failure, mm')

pub entry-at :
    (mm : Mm) (rgid : ℕ)
    → length mm.symrgtbl ≡ 30
    → rgid < 30
    → get_symrg_byid mm rgid ≡ entry (get_or mm.symrgtbl rgid no_region)
unfolding get_symrg_byid
entry-at mm rgid size h =
    let le : ltb 30 rgid ≡ false = ground arith in
    rw (le, get_elem?-eq-get_or mm.symrgtbl rgid no_region (omega arith)) refl

free_region-unset :
    (mm : Mm) (rgid : ℕ)
    → length mm.symrgtbl ≡ 30
    → get_or mm.symrgtbl rgid no_region ≡ no_region
    → free_region mm rgid ≡ some (failure, mm)
unfolding free_region
free_region-unset mm rgid size e = elim (Bool-cases (leb 30 rgid)) [
  | inl out ↦ rw (out, free_region)
  | inr inside ↦ rw (inside, entry-at mm rgid size (ground arith), e, free_region)
]

pub free_region-set :
    (mm : Mm) (rgid : ℕ) (vma : Vma) (rest : List Vma)
    → length mm.symrgtbl ≡ 30
    → mm.mmap ≡ vma ∷ rest
    → rgid < 30
    → ((get_or mm.symrgtbl rgid no_region).rg_start == 0
        && (get_or mm.symrgtbl rgid no_region).rg_end == 0)
      ≡ false
    → free_region mm rgid
      ≡ some (
        success,
        record mm {
          mmap =
              record vma {
                vm_freerg_list =
                    (enlist_vm_freerg_list vma.vm_freerg_list
                      (get_or mm.symrgtbl rgid no_region)).1;
              }
              ∷ rest;
          symrgtbl = set mm.symrgtbl rgid no_region;
        },
      )
unfolding free_region enlist_first
free_region-set mm rgid vma rest size areas h real =
    let inside : leb 30 rgid ≡ false = ground arith in
    rw (inside, entry-at mm rgid size h, real, areas, enlist_first, free_region) refl

zero_bounds : (rg : Rg) → (rg.rg_start == 0 && rg.rg_end == 0) ≡ true → rg ≡ no_region
zero_bounds rg e =
    let from : rg.rg_start ≡ 0 = ground arith in
    let to : rg.rg_end ≡ 0 = ground arith in λ i. record { rg_start = from i; rg_end = to i }

-- For a process with an area and a table of 30 symbols: `__free` of an identifier of 30 or more, or
-- of one without a region, fails and changes nothing. Otherwise it gives the region to
-- `enlist_vm_freerg_list` for the first area and unsets this symbol and no other, and a second
-- `__free` of the same identifier fails.
pub free_region_lem :
    (mm : Mm) (rgid : ℕ) (vma : Vma) (rest : List Vma)
    → length mm.symrgtbl ≡ 30
    → mm.mmap ≡ vma ∷ rest
    → (((30 ≤ rgid) ⊎ (get_or mm.symrgtbl rgid no_region ≡ no_region))
        × (free_region mm rgid ≡ some (failure, mm)))
      ⊎ ((mm' : Mm) × (free_region mm rgid ≡ some (success, mm'))
          × IsFreed mm rgid vma rest (get_or mm.symrgtbl rgid no_region) mm')
unfolding free_region
free_region_lem mm rgid vma rest size areas = elim (Bool-cases (leb 30 rgid)) [
  | inl out ↦ inl (inl (ground arith), rw (out, free_region) refl)
  | inr inside ↦
      let rg = get_or mm.symrgtbl rgid no_region in
      elim (Bool-cases (rg.rg_start == 0 && rg.rg_end == 0)) [
        | inl unset ↦ let e = zero_bounds rg unset in inl (inr e, free_region-unset mm rgid size e)
        | inr real ↦
            let within : rgid < length mm.symrgtbl = ground arith in
            let self = get_or-set_self mm.symrgtbl rgid no_region no_region within in
            let kept = length-set mm.symrgtbl rgid no_region in
            inr (
              _,
              free_region-set mm rgid vma rest size areas (ground arith) real,
              record {
                areas = refl;
                self = self;
                others = λ i apart.
                    get_or-set_ne mm.symrgtbl rgid i no_region no_region (λ e. apart (sym e));
                size = kept;
                pages = refl;
                again = free_region-unset _ rgid (kept ∙ size) self;
              },
            )
      ]
]
