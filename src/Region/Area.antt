-- ===== src/Region/Area.antt =====
-- The checks of src/mm-vm.c before an area grows.
use os_assignment.Base.{
  ℕ, ◌+◌, ◌%◌, ◌^◌, ◌≤◌, ◌<◌, ◌≡◌, ◌⊎◌, inl, inr, refl, arith, List, [], ◌∷◌, Bool, true, false,
  not, ◌&&◌, ◌==◌, ltb, leb, Bool-cases, Option, none, some, get_elem?, if◌then◌else◌, zero, suc,
  max, All, subst, none-ne-some, some-inj, ◌≢◌,
}
use os_assignment.Region.{
  Rg, Vma, Mm, Code, success, failure, found, null_list, fault, get_vma_by_num,
}

-- OVERLAP(x1, x2, y1, y2).
abbrev pub overlap : ℕ → ℕ → ℕ → ℕ → Bool
overlap x1 x2 y1 y2 = ltb x1 y2 && ltb y1 x2

-- The loop of `validate_overlap_vm_area` at position `pos`; the current area is the one at `cur`.
unfoldable pub overlaps_from : List Vma → ℕ → ℕ → Vma → Bool
overlaps_from [] pos cur cur_area = false
overlaps_from (vma ∷ rest) pos cur cur_area =
    if not (pos == cur) && overlap cur_area.vm_start cur_area.vm_end vma.vm_start vma.vm_end
    then true
    else overlaps_from rest (pos + 1) cur cur_area

-- `none` is an access through a NULL pointer.
unfoldable pub validate_overlap_vm_area : Mm → ℕ → ℕ → ℕ → Option Code
unfolding overlaps_from
validate_overlap_vm_area mm vmaid vmastart vmaend =
    if leb vmaend vmastart then some failure else (elim (get_vma_by_num mm vmaid) [
      | null_list ↦ some failure
      | fault ↦ none
      | found cur ↦ elim (get_elem? mm.mmap cur) [
        | none ↦ none
        | some cur_area ↦ some (if overlaps_from mm.mmap 0 cur cur_area then failure else success)
      ]
    ])

-- The new region at the break; the field `size` is not read.
unfoldable pub get_vm_area_node_at_brk : Vma → ℕ → Rg
get_vm_area_node_at_brk cur_vma alignedsz = record {
  rg_start = cur_vma.sbrk;
  rg_end = (cur_vma.sbrk + alignedsz) % 2 ^ 64;
}

-- An address of the area.
abbrev pub Within : ℕ → Vma → Type 0
Within x vma = (vma.vm_start ≤ x) × (x < vma.vm_end)

-- The area at position `i` of the list is another one than the one at `cur`, and holds the address
-- `x` as well.
abbrev pub Shares : List Vma → ℕ → Vma → ℕ → Vma → ℕ → Type 0
Shares vmas cur cur_area i vma x =
    (get_elem? vmas i ≡ some vma) × (i ≢ cur) × Within x cur_area × Within x vma

abbrev pub IsInhabited : Vma → Type 0
IsInhabited vma = vma.vm_start < vma.vm_end

overlaps_from-apart :
    (vmas : List Vma) (pos cur : ℕ) (cur_area : Vma)
    → overlaps_from vmas pos cur cur_area ≡ false
    → (i : ℕ) (vma : Vma) → get_elem? vmas i ≡ some vma
    → pos + i ≢ cur
    → overlap cur_area.vm_start cur_area.vm_end vma.vm_start vma.vm_end ≡ false
unfolding overlaps_from
overlaps_from-apart [] pos cur cur_area h i vma e other = absurd (none-ne-some e)
overlaps_from-apart (v ∷ rest) pos cur cur_area h zero vma e other =
    let clear : overlap cur_area.vm_start cur_area.vm_end v.vm_start v.vm_end ≡ false =
      ground arith in
    subst (λ (w : Vma). overlap cur_area.vm_start cur_area.vm_end w.vm_start w.vm_end ≡ false)
      (some-inj e) clear
overlaps_from-apart (v ∷ rest) pos cur cur_area h (suc i) vma e other =
    overlaps_from-apart rest (pos + 1) cur cur_area (ground arith) i vma e
      (λ e'. other (omega arith))

overlaps_from-hit :
    (vmas : List Vma) (pos cur : ℕ) (cur_area : Vma)
    → overlaps_from vmas pos cur cur_area ≡ true
    → (i : ℕ) × (vma : Vma) × (get_elem? vmas i ≡ some vma)
      × (pos + i ≢ cur)
      × (overlap cur_area.vm_start cur_area.vm_end vma.vm_start vma.vm_end ≡ true)
unfolding overlaps_from
overlaps_from-hit [] pos cur cur_area h = absurd (let e = h in cc)
overlaps_from-hit (v ∷ rest) pos cur cur_area h =
    elim (Bool-cases
      (not (pos == cur) && overlap cur_area.vm_start cur_area.vm_end v.vm_start v.vm_end)) [
        | inl here ↦ (0, v, refl, (λ e. ground arith), ground arith)
        | inr clear ↦
            let (i, vma, e, other, hit) =
              overlaps_from-hit rest (pos + 1) cur cur_area (ground arith) in
            (suc i, vma, e, (λ e'. other (omega arith)), hit)
      ]

get_elem?-IsInhabited :
    (vmas : List Vma) (i : ℕ) (vma : Vma)
    → All IsInhabited vmas
    → get_elem? vmas i ≡ some vma
    → IsInhabited vma
get_elem?-IsInhabited [] i vma all e = absurd (none-ne-some e)
get_elem?-IsInhabited (v ∷ rest) zero vma (h, hs) e = subst IsInhabited (some-inj e) h
get_elem?-IsInhabited (v ∷ rest) (suc i) vma (h, hs) e = get_elem?-IsInhabited rest i vma hs e

-- For a planned range that is not empty, an area that is found, and areas none of which is empty:
-- `validate_overlap_vm_area` succeeds and no other area of the list holds an address of the area as
-- it is now, or it fails and there is such an address. The planned range is not looked at beyond
-- that.
pub validate_overlap_vm_area_lem :
    (mm : Mm) (vmaid vmastart vmaend cur : ℕ) (cur_area : Vma)
    → vmastart < vmaend
    → get_vma_by_num mm vmaid ≡ found cur
    → get_elem? mm.mmap cur ≡ some cur_area
    → All IsInhabited mm.mmap
    → ((validate_overlap_vm_area mm vmaid vmastart vmaend ≡ some success)
        × ((i : ℕ) (vma : Vma) (x : ℕ) → Shares mm.mmap cur cur_area i vma x → ⊥))
      ⊎ ((validate_overlap_vm_area mm vmaid vmastart vmaend ≡ some failure)
          × ((i : ℕ) × (vma : Vma) × (x : ℕ) × Shares mm.mmap cur cur_area i vma x))
unfolding validate_overlap_vm_area
validate_overlap_vm_area_lem mm vmaid vmastart vmaend cur cur_area h e e' inhabited =
    let range : leb vmaend vmastart ≡ false = ground arith in
    elim (Bool-cases (overlaps_from mm.mmap 0 cur cur_area)) [
      | inl hit ↦
          let (i, vma, at, other, both) = overlaps_from-hit mm.mmap 0 cur cur_area hit in
          let own = get_elem?-IsInhabited mm.mmap cur cur_area inhabited e' in
          let its = get_elem?-IsInhabited mm.mmap i vma inhabited at in
          inr (
            rw (range, e, e', hit),
            (
              i,
              vma,
              max cur_area.vm_start vma.vm_start,
              (
                at,
                (λ same. other (omega arith)),
                (omega arith, ground arith),
                (omega arith, ground arith),
              ),
            ),
          )
      | inr clear ↦ inl (
        rw (range, e, e', clear),
        λ i vma x (at, other, (from, to), (from', to')).
            let apart =
              overlaps_from-apart mm.mmap 0 cur cur_area clear i vma at
                (λ same. other (omega arith)) in
            ground arith,
      )
    ]
