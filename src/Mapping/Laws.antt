-- ===== src/Mapping/Laws.antt =====
-- What a mapping does to the frames and to the page queue.
use os_assignment.Base.{ℕ, ◌<◌, ◌≡◌, ◌⊎◌, inl, inr, ap, List, [], ◌++◌, length, Option, none, some}
use os_assignment.Memphy.{Memphy}
use os_assignment.Region.{Rg}
use os_assignment.Frames.Laws.{reverse_onto, with_free, alloc_pages_range_lem}
use os_assignment.Mapping.{
  mapped, not_mapped, Space, vmap_page_range, RamMap, map_ram_after, vm_map_ram,
}

-- `vm_map_ram` with the frames it was given.
abbrev pub after_alloc : Space → Memphy → ℕ → ℕ → List ℕ → Option RamMap
after_alloc s mram mapstart incpgnum frames = elim (vmap_page_range s mapstart incpgnum frames) [
  | none ↦ none
  | some (code, s', rg) ↦ some (record { code = mapped; space = s'; mram = mram; ret_rg = rg })
]

-- With at least `incpgnum` free frames, `vm_map_ram` maps the first `incpgnum` of the free list, the
-- last of these first, from `mapstart` on, and leaves the others free. With fewer it returns -1,
-- and the page tables, the page queue, the region and the free list are as before.
pub vm_map_ram_lem :
    (s : Space) (mram : Memphy) (mapstart incpgnum : ℕ) (ret_rg : Rg)
    → ((taken : List ℕ) × (rest : List ℕ) × (mram.free_fp_list ≡ taken ++ rest)
        × (length taken ≡ incpgnum)
        × (vm_map_ram s mram mapstart incpgnum ret_rg
            ≡ after_alloc s (with_free mram rest) mapstart incpgnum (reverse_onto taken [])))
      ⊎ ((length mram.free_fp_list < incpgnum)
          × (vm_map_ram s mram mapstart incpgnum ret_rg
              ≡ some (record { code = not_mapped; space = s; mram = mram; ret_rg = ret_rg })))
unfolding vm_map_ram
vm_map_ram_lem s mram mapstart incpgnum ret_rg = elim (alloc_pages_range_lem incpgnum mram) [
  | inl (taken, rest, split, size, e) ↦
      inl (taken, rest, split, size, ap (map_ram_after s mapstart incpgnum ret_rg) e)
  | inr (short, e) ↦ inr (short, ap (map_ram_after s mapstart incpgnum ret_rg) e)
]
