-- ===== src/Libmem/Layout.antt =====
-- Where the pages of the processes are, RAM or swap, as their page table entries say, and when the
-- tables and the devices fit together. It is what the paging of src/libmem.c has to keep.
use os_assignment.Base.{
  ℕ, ◌+◌, ◌*◌, ◌^◌, ◌≤◌, ◌<◌, ◌≡◌, ◌≢◌, List, [], ◌∷◌, Option, none, some, Bool, true, length,
  get_or, All, if◌then◌else◌,
}
use os_assignment.Paging.Pte.{is_present, is_swapped, paging_fpn, paging_swp}
use os_assignment.Paging.Directory.{Heap, pte_get_entry}
use os_assignment.Paging.Directory.Forest.{IsForest, IsRoot}
use os_assignment.Memphy.{Memphy}

-- A frame of RAM, a frame of the swap device, or no frame.
pub data Place : Type 0 where
  in_ram in_swap : ℕ → Place
  nowhere : Place

abbrev pub place : ℕ → Place
place pte =
    if is_swapped pte
    then in_swap (paging_swp pte)
    else (if is_present pte then in_ram (paging_fpn pte) else nowhere)

-- The tables and the devices.
pub record Memory : Type 0 where
  pub heap : Heap
  pub mram : Memphy
  pub mswp : Memphy

-- The place of page `pgn` of the page directory `pgd`.
abbrev pub place_or_nowhere : Option ℕ → Place
place_or_nowhere none = nowhere
place_or_nowhere (some pte) = place pte

unfoldable pub at : Heap → ℕ → ℕ → Place
at heap pgd pgn = place_or_nowhere (pte_get_entry heap pgd pgn)

-- Byte `i` of a frame.
abbrev pub byte : Memory → Place → ℕ → ℕ
byte m (in_ram f) i = get_or m.mram.storage (f * 256 + i) 0
byte m (in_swap f) i = get_or m.mswp.storage (f * 256 + i) 0
byte m nowhere i = 0

-- Byte `i` of a page, wherever the page is.
abbrev pub content : Memory → ℕ → ℕ → ℕ → ℕ
content m pgd pgn i = byte m (at m.heap pgd pgn) i

abbrev pub Avoids : List ℕ → ℕ → Type 0
Avoids fs f = All (λ g. f ≢ g) fs

abbrev pub Distinct : List ℕ → Type 0
Distinct [] = Unit
Distinct (f ∷ fs) = Avoids fs f × Distinct fs

-- The frame is inside its device, and its number fits the field of a page table entry.
abbrev pub Fits : Memory → Place → Type 0
Fits m (in_ram f) = (f < 2 ^ 13) × (f * 256 + 256 ≤ length m.mram.storage)
Fits m (in_swap f) = (f < 2 ^ 21) × (f * 256 + 256 ≤ length m.mswp.storage)
Fits m nowhere = Unit

-- The frame is not in the list of free frames.
abbrev pub IsTaken : Memory → Place → Type 0
IsTaken m (in_ram f) = Avoids m.mram.free_fp_list f
IsTaken m (in_swap f) = Avoids m.mswp.free_fp_list f
IsTaken m nowhere = Unit

abbrev pub IsPage : (ℕ → Bool) → ℕ → ℕ → Type 0
IsPage live pgd pgn = (live pgd ≡ true) × (pgn < 2 ^ 45)

-- `live` tells which addresses are those of page directories of processes: every page is in a frame
-- of its own that is not free, or in none.
pub record IsConsistent (m : Memory) (home : ℕ → List ℕ) (live : ℕ → Bool) : Type 0 where
  pub forest : IsForest m.heap home
  pub roots : (r : ℕ) → live r ≡ true → IsRoot m.heap home r
  pub random_ram : m.mram.rdmflg ≢ 0
  pub random_swap : m.mswp.rdmflg ≢ 0
  pub words :
      (r q : ℕ)
      → IsPage live r q
      → (pte : ℕ) × (pte_get_entry m.heap r q ≡ some pte) × (pte < 2 ^ 32)
  pub fits : (r q : ℕ) → IsPage live r q → Fits m (at m.heap r q)
  pub taken : (r q : ℕ) → IsPage live r q → IsTaken m (at m.heap r q)
  pub alone :
      (r q r' q' : ℕ)
      → IsPage live r q
      → IsPage live r' q'
      → at m.heap r q ≡ at m.heap r' q'
      → at m.heap r q ≢ nowhere
      → (r ≡ r') × (q ≡ q')
  pub free_ram : All (λ f. Fits m (in_ram f)) m.mram.free_fp_list × Distinct m.mram.free_fp_list
  pub free_swap : All (λ f. Fits m (in_swap f)) m.mswp.free_fp_list × Distinct m.mswp.free_fp_list

-- A frame that is neither free nor that of a page.
pub record IsLoose (m : Memory) (live : ℕ → Bool) (y : Place) : Type 0 where
  pub fits : Fits m y
  pub taken : IsTaken m y
  pub real : y ≢ nowhere
  pub unused : (r q : ℕ) → IsPage live r q → at m.heap r q ≢ y
