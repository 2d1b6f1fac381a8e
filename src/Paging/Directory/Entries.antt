-- ===== src/Paging/Directory/Entries.antt =====
-- Reading back what `pte_set_fpn` and `pte_set_swap` wrote, through all five tables.
use os_assignment.Base.{
  ℕ, ◌+◌, ◌%◌, ◌^◌, ◌<◌, ◌≡◌, sym, subst, ◌∙◌, List, some, some-inj, true, false,
}
use os_assignment.Paging.Pte.{
  is_present, is_swapped, paging_fpn, paging_swp, set_fpn_entry, set_swap_entry,
}
use os_assignment.Paging.Pte.Laws.{set_fpn_entry_lem, set_swap_entry_lem}
use os_assignment.Paging.Directory.{Heap, pte_get_entry, pte_set_fpn, pte_set_swap}
use os_assignment.Paging.Directory.Forest.{IsForest, IsRoot}
use os_assignment.Paging.Directory.Descent.{HasRoom}
use os_assignment.Paging.Directory.Laws.{IsUpdated, update_entry-IsUpdated}

-- `h'` is `h` with page `pgn` in frame `fpn`.
abbrev pub IsMapped : Heap → (ℕ → List ℕ) → ℕ → ℕ → ℕ → ℕ → Heap → Type 0
IsMapped h home pgd pgn fpn n h' =
    (new : ℕ) × (pte_get_entry h' pgd pgn ≡ some new)
    × (is_present new ≡ true)
    × (is_swapped new ≡ false)
    × (paging_fpn new ≡ fpn % 2 ^ 13)
    × (new < 2 ^ 32)
    × IsUpdated h home pgd pgn (λ pte. set_fpn_entry pte fpn) n h'

-- `h'` is `h` with page `pgn` at offset `swpoff` of the swap device.
abbrev pub IsSwappedOut : Heap → (ℕ → List ℕ) → ℕ → ℕ → ℕ → ℕ → ℕ → Heap → Type 0
IsSwappedOut h home pgd pgn swptyp swpoff n h' =
    (new : ℕ) × (pte_get_entry h' pgd pgn ≡ some new)
    × (is_present new ≡ false)
    × (is_swapped new ≡ true)
    × (paging_swp new ≡ swpoff % 2 ^ 21)
    × (new < 2 ^ 32)
    × IsUpdated h home pgd pgn (λ pte. set_swap_entry pte swptyp swpoff) n h'

-- If the tables form trees and `calloc` gives `n` tables besides four, and the entry of page `pgn` < 2 ^ 45 was
-- read as 32 bits, then `pte_set_fpn` succeeds and `pte_get_entry` reads an entry that is present,
-- not swapped, and has the low 13 bits of the frame number; all other entries
-- read as before, and `calloc` still gives `n` tables.
pub pte_set_fpn_lem :
    (h : Heap) (home : ℕ → List ℕ) (pgd pgn fpn old n : ℕ)
    → IsForest h home
    → IsRoot h home pgd
    → pgn < 2 ^ 45
    → HasRoom h.calloc (4 + n) h.blocks
    → pte_get_entry h pgd pgn ≡ some old
    → old < 2 ^ 32
    → (h' : Heap) × (pte_set_fpn h pgd pgn fpn ≡ some h') × IsMapped h home pgd pgn fpn n h'
unfolding pte_set_fpn
pte_set_fpn_lem h home pgd pgn fpn old n f root small room read word =
    let (h', e, u) =
      update_entry-IsUpdated h home pgd pgn (λ pte. set_fpn_entry pte fpn) n f root small room in
    let same : u.old ≡ old = some-inj (sym u.before ∙ read) in
    let (there, not_out, clean, frame, middle, user, fits) =
      set_fpn_entry_lem u.old fpn (subst (λ w. w < 2 ^ 32) (sym same) word) in
    (h', e, (set_fpn_entry u.old fpn, u.now, there, not_out, frame, fits, u))

-- If the tables form trees and `calloc` gives `n` tables besides four, and the entry of page `pgn` < 2 ^ 45 was
-- read as 32 bits, then `pte_set_swap` succeeds and `pte_get_entry` reads an entry that is swapped,
-- not present, and has the low 21 bits of the swap offset; all other entries
-- read as before, and `calloc` still gives `n` tables.
pub pte_set_swap_lem :
    (h : Heap) (home : ℕ → List ℕ) (pgd pgn swptyp swpoff old n : ℕ)
    → IsForest h home
    → IsRoot h home pgd
    → pgn < 2 ^ 45
    → HasRoom h.calloc (4 + n) h.blocks
    → pte_get_entry h pgd pgn ≡ some old
    → old < 2 ^ 32
    → (h' : Heap) × (pte_set_swap h pgd pgn swptyp swpoff ≡ some h')
      × IsSwappedOut h home pgd pgn swptyp swpoff n h'
unfolding pte_set_swap
pte_set_swap_lem h home pgd pgn swptyp swpoff old n f root small room read word =
    let (h', e, u) =
      update_entry-IsUpdated h home pgd pgn (λ pte. set_swap_entry pte swptyp swpoff) n f root small
        room in
    let same : u.old ≡ old = some-inj (sym u.before ∙ read) in
    let (gone, out, clean, offset, kind, middle, user, fits) =
      set_swap_entry_lem u.old swptyp swpoff (subst (λ w. w < 2 ^ 32) (sym same) word) in
    (h', e, (set_swap_entry u.old swptyp swpoff, u.now, gone, out, offset, fits, u))
