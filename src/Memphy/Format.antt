-- ===== src/Memphy/Format.antt =====
-- The free list that `init_memphy` starts with.
use os_assignment.Base.{
  ℕ, zero, suc, ◌+◌, ◌-◌, ◌/◌, ◌^◌, ◌≤◌, ◌<◌, ◌≡◌, ◌⊎◌, inl, inr, refl, sym, ap, subst, arith, ◌∙◌,
  List, ◌∷◌, length, none, some, get_elem?, replicate, length-replicate, ltb, ◌==◌, Bool-cases,
  Bool, false, if◌then◌else◌,
}
use os_assignment.Paging.{paging_pagesz}
use os_assignment.Memphy.{Memphy, frames_from, or_as_before, format, int_size, init_memphy}

get_elem?-frames_from :
    (n k i : ℕ) → get_elem? (frames_from n k) i ≡ (if ltb i n then some (k + i) else none)
unfolding frames_from
get_elem?-frames_from zero k i = ground arith
get_elem?-frames_from (suc n) k zero = ground arith
get_elem?-frames_from (suc n) k (suc i) = get_elem?-frames_from n (k + 1) i ∙ ground arith

-- What the free list holds after `init_memphy`, by the number of frames.
abbrev pub FreshFrames : Memphy → ℕ → List ℕ → Memphy → Type 0
FreshFrames mp max_size tail mp' =
    ((max_size < 256) × (mp'.free_fp_list ≡ mp.free_fp_list))
    ⊎ (((256 ≤ max_size) × (max_size < 512) × (mp'.free_fp_list ≡ 0 ∷ tail))
        ⊎ ((512 ≤ max_size)
            × ((i : ℕ)
                → get_elem? mp'.free_fp_list i
                  ≡ (if ltb i (max_size / 256) then some i else none))))

frames_from-step : (n : ℕ) → 0 < n → 0 ∷ frames_from (n - 1) 1 ≡ frames_from n 0
unfolding frames_from
frames_from-step zero h = absurd (omega arith)
frames_from-step (suc n) h = ap (λ k. 0 ∷ frames_from k 1) (omega arith)

more-frames :
    (n : ℕ) (tail : List ℕ)
    → 1 < n
    → (i : ℕ)
    → get_elem? (0 ∷ (if n == 1 then tail else frames_from (n - 1) 1)) i
      ≡ (if ltb i n then some i else none)
more-frames n tail h i =
    let more : (n == 1) ≡ false = ground arith in
    ap (λ (b : Bool). get_elem? (0 ∷ (if b then tail else frames_from (n - 1) 1)) i) more
    ∙ ap (λ (fs : List ℕ). get_elem? fs i) (frames_from-step n (omega arith))
    ∙ get_elem?-frames_from n 0 i
    ∙ ap (λ k. if ltb i n then some k else none) (omega arith)

-- The setting of the flag, at the end of `init_memphy`, touches neither storage nor frames.
abbrev flagged : Memphy → ℕ → Memphy
flagged formatted randomflg =
    let flag : ℕ = if randomflg == 0 then 0 else 1 in
    let with_flag = record formatted { rdmflg = flag } in
    if flag == 0 then record with_flag { cursor = 0 } else with_flag

flagged_lem :
    (mp : Memphy) (randomflg : ℕ)
    → ((flagged mp randomflg).storage ≡ mp.storage)
      × ((flagged mp randomflg).maxsz ≡ mp.maxsz)
      × ((flagged mp randomflg).free_fp_list ≡ mp.free_fp_list)
flagged_lem mp randomflg = elim (Bool-cases (randomflg == 0)) [
  | inl e ↦ (rw e, rw e, rw e)
  | inr e ↦ (rw e, rw e, rw e)
]

-- The device before the flag is set, with `max_size` bytes and `size` as the size in `maxsz`.
abbrev sized : Memphy → ℕ → ℕ → Memphy
sized mp max_size size = record mp { storage = replicate max_size 0; maxsz = size }

abbrev Formatted : Memphy → ℕ → ℕ → List ℕ → Memphy → Type 0
Formatted mp max_size size tail mp' =
    (mp'.storage ≡ replicate max_size 0) × (mp'.maxsz ≡ size) × FreshFrames mp size tail mp'

format-Formatted :
    (mp : Memphy) (max_size size : ℕ) (tail : List ℕ)
    → Formatted mp max_size size tail
        (or_as_before (sized mp max_size size) (format (sized mp max_size size) paging_pagesz tail))
unfolding format
format-Formatted mp max_size size tail = elim (Bool-cases (size / 256 == 0)) [
  | inl small ↦ rw small (refl, refl, inl (ground arith, refl))
  | inr enough ↦ elim (Bool-cases (size / 256 == 1)) [
    | inl one ↦ rw (enough, one) (refl, refl, inr (inl (ground arith, ground arith, refl)))
    | inr more ↦
        rw enough
          (refl, refl, inr (inr (ground arith, more-frames (size / 256) tail (ground arith))))
  ]
]

-- `init_memphy` gives a storage of `max_size` bytes, while `maxsz` is `max_size` converted to an
-- `int`, 0 here if that is negative, and the frames are those of `maxsz` bytes: with two frames or
-- more the free list is 0, 1, 2, ... up to the last whole frame of them; with one frame it is frame 0
-- followed by whatever the field `fp_next` of the new node held (`tail`); below one page it stays
-- as it was. Below 2 GiB `maxsz` is `max_size` itself.
pub init_memphy_lem :
    (mp : Memphy) (max_size randomflg : ℕ) (tail : List ℕ)
    → (length (init_memphy mp max_size randomflg tail).storage ≡ max_size)
      × ((init_memphy mp max_size randomflg tail).maxsz ≡ int_size max_size)
      × FreshFrames mp (int_size max_size) tail (init_memphy mp max_size randomflg tail)
      × ((int_size max_size ≡ max_size) ⊎ (2 ^ 31 ≤ max_size))
unfolding init_memphy format
init_memphy_lem mp max_size randomflg tail =
    let device = sized mp max_size (int_size max_size) in
    let before = or_as_before device (format device paging_pagesz tail) in
    let (bytes, size, frames) = format-Formatted mp max_size (int_size max_size) tail in
    let (bytes', size', frames') = flagged_lem before randomflg in
    (
      ap length (bytes' ∙ bytes) ∙ length-replicate max_size 0,
      size' ∙ size,
      subst
          (λ free. FreshFrames mp (int_size max_size) tail (record before { free_fp_list = free }))
          (sym frames') frames,
      ground arith,
    )
