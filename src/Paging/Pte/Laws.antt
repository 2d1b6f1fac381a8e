-- ===== src/Paging/Pte/Laws.antt =====
-- What the two updates of an entry leave in its fields, and `init_pte`.
use os_assignment.Base.{
  ℕ, ◌+◌, ◌*◌, ◌/◌, ◌%◌, ◌^◌, ◌<◌, ◌≡◌, ◌≢◌, ◌⊎◌, inl, inr, ap, arith, true, false, bit_and, ◌==◌,
  Bool-cases,
}
use os_assignment.Base.Masks.{set_bit, clear_bit, set_value, get_value}
use os_assignment.Paging.Pte.{
  present_mask, swapped_mask, dirty_mask, fpn_mask, swptyp_mask, is_present, is_swapped, paging_fpn,
  paging_swp, set_fpn_entry, set_swap_entry, init_pte, ready, invalid,
}
use os_assignment.Paging.Pte.Fields.{
  present_bit, swapped_bit, dirty_bit, fpn_field, swptyp_field, swpoff_field, set_present,
  clear_present, set_swapped, clear_swapped, clear_dirty, clear_fpn, put_fpn, put_swptyp,
  put_swpoff,
}

-- The updated words, as sums of fields.
set_fpn-sum :
    (pte fpn : ℕ)
    → pte < 2 ^ 32
    → set_fpn_entry pte fpn
      ≡ 2 ^ 31 + pte / 2 ^ 29 % 2 * 2 ^ 29 + pte / 2 ^ 13 % 2 ^ 15 * 2 ^ 13 + fpn % 2 ^ 13
unfolding set_fpn_entry
set_fpn-sum pte fpn h =
    let p1 = set_bit pte present_mask in
    let e1 = set_present pte h in
    let p2 = clear_bit p1 swapped_mask in
    let e2 = clear_swapped p1 (omega arith) in
    let p3 = clear_bit p2 dirty_mask in
    let e3 = clear_dirty p2 (omega arith) in
    let p4 = clear_bit p3 fpn_mask in
    let e4 = clear_fpn p3 (omega arith) in let e5 = put_fpn p4 fpn (omega arith) in omega arith

set_swap-sum :
    (pte t o : ℕ)
    → pte < 2 ^ 32
    → set_swap_entry pte t o
      ≡ pte / 2 ^ 29 % 2 * 2 ^ 29
        + 2 ^ 30
        + pte / 2 ^ 26 % 2 ^ 2 * 2 ^ 26
        + o % 2 ^ 21 * 2 ^ 5
        + t % 2 ^ 5
unfolding set_swap_entry
set_swap-sum pte t o h =
    let p1 = clear_bit pte present_mask in
    let e1 = clear_present pte in
    let p2 = set_bit p1 swapped_mask in
    let e2 = set_swapped p1 in
    let p3 = clear_bit p2 dirty_mask in
    let e3 = clear_dirty p2 (omega arith) in
    let p4 = set_value p3 t swptyp_mask 0 in
    let e4 = put_swptyp p3 t (omega arith) in let e5 = put_swpoff p4 o (omega arith) in omega arith

-- For every 32-bit entry: after `pte_set_fpn` writes it, the page is present and not swapped, the
-- dirty bit is clear, PAGING_FPN gives the low 13 bits of the frame number, bits 13 to 27 and 29
-- are as before, and the entry has 32 bits.
pub set_fpn_entry_lem :
    (pte fpn : ℕ)
    → pte < 2 ^ 32
    → (is_present (set_fpn_entry pte fpn) ≡ true)
      × (is_swapped (set_fpn_entry pte fpn) ≡ false)
      × (bit_and (set_fpn_entry pte fpn) dirty_mask ≡ 0)
      × (paging_fpn (set_fpn_entry pte fpn) ≡ fpn % 2 ^ 13)
      × (set_fpn_entry pte fpn / 2 ^ 13 % 2 ^ 15 ≡ pte / 2 ^ 13 % 2 ^ 15)
      × (set_fpn_entry pte fpn / 2 ^ 29 % 2 ≡ pte / 2 ^ 29 % 2)
      × (set_fpn_entry pte fpn < 2 ^ 32)
unfolding is_present is_swapped paging_fpn
set_fpn_entry_lem pte fpn h =
    let sum = set_fpn-sum pte fpn h in
    let w = set_fpn_entry pte fpn in
    (
      ground (arith, present_bit w),
      ground (arith, swapped_bit w),
      omega (arith, dirty_bit w),
      omega (arith, fpn_field w),
      omega arith,
      omega arith,
      omega arith,
    )

-- For every 32-bit entry: after `pte_set_swap` writes it, the page is not present and is swapped,
-- the dirty bit is clear, PAGING_SWP gives the low 21 bits of the swap offset, the swap type field
-- has the low 5 bits of the type, bits 26, 27 and 29 are as before, and the entry has 32 bits.
pub set_swap_entry_lem :
    (pte t o : ℕ)
    → pte < 2 ^ 32
    → (is_present (set_swap_entry pte t o) ≡ false)
      × (is_swapped (set_swap_entry pte t o) ≡ true)
      × (bit_and (set_swap_entry pte t o) dirty_mask ≡ 0)
      × (paging_swp (set_swap_entry pte t o) ≡ o % 2 ^ 21)
      × (get_value (set_swap_entry pte t o) swptyp_mask 0 ≡ t % 2 ^ 5)
      × (set_swap_entry pte t o / 2 ^ 26 % 2 ^ 2 ≡ pte / 2 ^ 26 % 2 ^ 2)
      × (set_swap_entry pte t o / 2 ^ 29 % 2 ≡ pte / 2 ^ 29 % 2)
      × (set_swap_entry pte t o < 2 ^ 32)
unfolding is_present is_swapped paging_swp
set_swap_entry_lem pte t o h =
    let sum = set_swap-sum pte t o h in
    let w = set_swap_entry pte t o in
    (
      ground (arith, present_bit w),
      ground (arith, swapped_bit w),
      omega (arith, dirty_bit w),
      omega (arith, swpoff_field w),
      omega (arith, swptyp_field w),
      omega arith,
      omega arith,
      omega arith,
    )

-- The entry is the one that `pte_set_fpn` or `pte_set_swap` writes.
init_pte-cases :
    (pte pre fpn swp t o : ℕ)
    → pte < 2 ^ 32
    → ((pre ≡ 0) × (init_pte pte pre fpn swp t o ≡ ready pte))
      ⊎ (((pre ≢ 0) × (swp ≡ 0) × (fpn ≡ 0) × (init_pte pte pre fpn swp t o ≡ invalid))
          ⊎ (((pre ≢ 0)
                × (swp ≡ 0)
                × (fpn ≢ 0)
                × (init_pte pte pre fpn swp t o ≡ ready (set_fpn_entry pte fpn)))
              ⊎ ((pre ≢ 0)
                  × (swp ≢ 0)
                  × (init_pte pte pre fpn swp t o ≡ ready (set_swap_entry pte t o)))))
unfolding init_pte set_swap_entry
init_pte-cases pte pre fpn swp t o h = elim (Bool-cases (pre == 0)) [
  | inl e ↦ inl (ground arith, rw e)
  | inr e ↦ inr (elim (Bool-cases (swp == 0)) [
    | inl e' ↦ elim (Bool-cases (fpn == 0)) [
      | inl e'' ↦ inl (ground arith, ground arith, ground arith, rw (e, e', e''))
      | inr e'' ↦
          inr (inl (ground arith, ground arith, ground arith, rw (e, e', e'') (ap ready same)))
    ]
    | inr e' ↦ inr (inr (ground arith, ground arith, rw (e, e')))
  ])
]
  where
    same :
        set_value
          (clear_bit (clear_bit (set_bit pte present_mask) swapped_mask) dirty_mask)
          fpn
          fpn_mask
          0
        ≡ set_fpn_entry pte fpn
    same =
        let p1 = set_bit pte present_mask in
        let e1 = set_present pte h in
        let p2 = clear_bit p1 swapped_mask in
        let e2 = clear_swapped p1 (omega arith) in
        let p3 = clear_bit p2 dirty_mask in
        let e3 = clear_dirty p2 (omega arith) in
        let e4 = put_fpn p3 fpn (omega arith) in omega (arith, set_fpn-sum pte fpn h)

-- The entry of a page in a frame, and of a page on the swap device.
abbrev pub IsInFrame : ℕ → ℕ → Type 0
IsInFrame fpn pte =
    (is_present pte ≡ true)
    × (is_swapped pte ≡ false)
    × (bit_and pte dirty_mask ≡ 0)
    × (paging_fpn pte ≡ fpn % 2 ^ 13)

abbrev pub IsInSwap : ℕ → ℕ → ℕ → Type 0
IsInSwap swptyp swpoff pte =
    (is_present pte ≡ false)
    × (is_swapped pte ≡ true)
    × (bit_and pte dirty_mask ≡ 0)
    × (paging_swp pte ≡ swpoff % 2 ^ 21)
    × (get_value pte swptyp_mask 0 ≡ swptyp % 2 ^ 5)

abbrev pub InitCases : ℕ → ℕ → ℕ → ℕ → ℕ → ℕ → Type 0
InitCases pte pre fpn swp t o =
    ((pre ≡ 0) × (init_pte pte pre fpn swp t o ≡ ready pte))
    ⊎ (((pre ≢ 0) × (swp ≡ 0) × (fpn ≡ 0) × (init_pte pte pre fpn swp t o ≡ invalid))
        ⊎ (((pre ≢ 0)
              × (swp ≡ 0)
              × (fpn ≢ 0)
              × ((new : ℕ) × (init_pte pte pre fpn swp t o ≡ ready new)
                  × IsInFrame fpn new
                  × (new < 2 ^ 32)))
            ⊎ ((pre ≢ 0)
                × (swp ≢ 0)
                × ((new : ℕ) × (init_pte pte pre fpn swp t o ≡ ready new)
                    × IsInSwap t o new
                    × (new < 2 ^ 32)))))

-- `init_pte` on a 32-bit entry: it fails exactly for a present page that is not swapped and has
-- frame 0; without `pre` the entry stays. Otherwise the entry it leaves has 32 bits, the dirty bit is
-- clear, and the readers of an entry find what was given: a page that is present, not swapped, and
-- in the frame with the low 13 bits of the number; or one that is swapped, not present, with the low
-- 21 bits of the offset and the low 5 bits of the type.
pub init_pte_lem : (pte pre fpn swp t o : ℕ) → pte < 2 ^ 32 → InitCases pte pre fpn swp t o
init_pte_lem pte pre fpn swp t o h = elim (init_pte-cases pte pre fpn swp t o h) [
  | inl stays ↦ inl stays
  | inr (inl fails) ↦ inr (inl fails)
  | inr (inr (inl (p, online, frame, e))) ↦
      let (there, out, clean, number, fields, reserved, word) = set_fpn_entry_lem pte fpn h in
      inr (
        inr (inl (p, online, frame, (set_fpn_entry pte fpn, e, (there, out, clean, number), word))))
  | inr (inr (inr (p, gone, e))) ↦
      let (there, out, clean, offset, kind, fields, reserved, word) =
        set_swap_entry_lem pte t o h in
      inr
        (inr (inr (p, gone, (set_swap_entry pte t o, e, (there, out, clean, offset, kind), word))))
]
