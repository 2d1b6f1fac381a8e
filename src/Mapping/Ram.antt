-- ===== src/Mapping/Ram.antt =====
-- `vm_map_ram` as a whole: frames are taken, and the pages are mapped to them.
use os_assignment.Base.{
  ℕ, suc, ◌+◌, ◌-◌, ◌*◌, ◌%◌, ◌^◌, ◌≤◌, ◌<◌, ◌≡◌, ◌≢◌, ◌⊎◌, inl, inr, refl, sym, ap, subst, arith,
  ◌∙◌, List, [], ◌∷◌, ◌++◌, length, length-append, get_or-append, some, true, get_or,
}
use os_assignment.Paging.Pte.{is_present, paging_fpn}
use os_assignment.Paging.Directory.{pte_get_entry}
use os_assignment.Paging.Directory.Forest.{IsForest, IsRoot}
use os_assignment.Paging.Directory.Descent.{HasRoom}
use os_assignment.Memphy.{Memphy}
use os_assignment.Frames.Laws.{reverse_onto, with_free}
use os_assignment.Region.{Rg}
use os_assignment.Mapping.{mapped, Space, nth_page, vm_map_ram}
use os_assignment.Mapping.Laws.{vm_map_ram_lem, after_alloc}
use os_assignment.Mapping.Pages.{ReadsWord, IsVmapped, vmap_page_range-IsVmapped}

lt_or_eq : (k n : ℕ) → k < suc n → (k < n) ⊎ (k ≡ n)
lt_or_eq k n h = ground arith

length-reverse_onto : (xs ys : List ℕ) → length (reverse_onto xs ys) ≡ length xs + length ys
length-reverse_onto [] ys = omega arith
length-reverse_onto (x ∷ xs) ys = omega (arith, length-reverse_onto xs (x ∷ ys))

get_or-reverse_onto-behind :
    (xs ys : List ℕ) (k : ℕ) → get_or (reverse_onto xs ys) (length xs + k) 0 ≡ get_or ys k 0
get_or-reverse_onto-behind [] ys k =
    ap (λ i. get_or ys i 0) (let same : 0 + k ≡ k = omega arith in same)
get_or-reverse_onto-behind (x ∷ xs) ys k =
    let place : length (x ∷ xs) + k ≡ length xs + suc k = omega arith in
    ap (λ i. get_or (reverse_onto xs (x ∷ ys)) i 0) place
    ∙ get_or-reverse_onto-behind xs (x ∷ ys) (suc k)

get_or-reverse_onto :
    (xs ys : List ℕ) (k : ℕ)
    → k < length xs
    → get_or (reverse_onto xs ys) k 0 ≡ get_or xs (length xs - 1 - k) 0
get_or-reverse_onto [] ys k h = absurd (omega arith)
get_or-reverse_onto (x ∷ xs) ys k h = elim (lt_or_eq k (length xs) (omega arith)) [
  | inl less ↦
      let place : suc (length xs - 1 - k) ≡ length (x ∷ xs) - 1 - k = omega arith in
      get_or-reverse_onto xs (x ∷ ys) k less ∙ ap (λ i. get_or (x ∷ xs) i 0) place
  | inr last ↦
      let place : k ≡ length xs + 0 = omega arith in
      let first : 0 ≡ length (x ∷ xs) - 1 - k = omega arith in
      ap (λ i. get_or (reverse_onto xs (x ∷ ys)) i 0) place
      ∙ get_or-reverse_onto-behind xs (x ∷ ys) 0
      ∙ ap (λ i. get_or (x ∷ xs) i 0) first
]

-- No frame stands twice in the list, and every number fits the field of an entry.
pub record IsFrameList (frames : List ℕ) : Type 0 where
  pub once : (j k : ℕ) → j < k → k < length frames → get_or frames j 0 ≢ get_or frames k 0
  pub fits : (k : ℕ) → k < length frames → get_or frames k 0 < 2 ^ 13

reverse-IsFrameList :
    (taken rest : List ℕ) → IsFrameList (taken ++ rest) → IsFrameList (reverse_onto taken [])
reverse-IsFrameList taken rest l =
    let count = length-reverse_onto taken [] in
    let whole = length-append taken rest in
    let place : (k : ℕ)
        → k < length (reverse_onto taken [])
        → get_or (reverse_onto taken []) k 0 ≡ get_or (taken ++ rest) (length taken - 1 - k) 0 =
      λ k h.
        get_or-reverse_onto taken [] k (omega arith)
        ∙ sym (get_or-append taken rest (length taken - 1 - k) 0 (omega arith)) in
    record {
      once = λ j k less h e.
          l.once (length taken - 1 - k) (length taken - 1 - j) (omega arith) (omega arith)
            (sym (place k h) ∙ sym e ∙ place j (omega arith));
      fits = λ k h.
          subst (λ f. f < 2 ^ 13) (sym (place k h)) (l.fits (length taken - 1 - k) (omega arith));
    }

-- The first `n` pages of the range are present in the frames of the list, each in its own one.
pub record IsOwn (s' : Space) (pgd addr n : ℕ) (frames : List ℕ) : Type 0 where
  pub there :
      (k : ℕ)
      → k < n
      → (pte : ℕ) × (pte_get_entry s'.heap pgd (nth_page addr (0 + k)) ≡ some pte)
        × (is_present pte ≡ true)
        × (paging_fpn pte ≡ get_or frames k 0)
  pub apart : (j k : ℕ) → j < k → k < n → get_or frames j 0 ≢ get_or frames k 0

mapped-IsOwn :
    (s : Space) (home : ℕ → List ℕ) (n addr : ℕ) (frames : List ℕ) (s' : Space)
    → n ≤ length frames
    → IsFrameList frames
    → IsVmapped s home n 0 addr frames s'
    → IsOwn s' s.pgd addr n frames
mapped-IsOwn s home n addr frames s' enough l v = record {
  there = λ k h.
      let (pte, now, present, out, frame) = v.pages k h in
      let fits = l.fits k (omega arith) in
      let whole : get_or frames k 0 % 2 ^ 13 ≡ get_or frames k 0 = omega arith in
      (pte, now, present, frame ∙ whole);
  apart = λ j k less h. l.once j k less (omega arith);
}

-- The result of a mapping of `n` pages to the first `n` free frames.
abbrev pub IsRamMapped : Space → (ℕ → List ℕ) → Memphy → ℕ → ℕ → Rg → Type 0
IsRamMapped s home mram addr n ret_rg =
    (taken : List ℕ) × (rest : List ℕ) × (s' : Space) × (mram.free_fp_list ≡ taken ++ rest)
    × (length taken ≡ n)
    × (vm_map_ram s mram addr n ret_rg
        ≡ some (record {
          code = mapped;
          space = s';
          mram = with_free mram rest;
          ret_rg = record { rg_start = addr; rg_end = addr + n * 256 };
        }))
    × IsVmapped s home n 0 addr (reverse_onto taken []) s'
    × IsOwn s' s.pgd addr n (reverse_onto taken [])

-- With at least `n` free frames, no frame twice in the free list and all of them below 8192, and a
-- range of `n` pages below 4 MiB, if the tables form trees, `calloc` gives four tables for each
-- page, and the entries of the range were read as words of 32 bits: `vm_map_ram` returns 0, the
-- frames are the first `n` of the free list and no longer free, every page of the range is present
-- in its own one of them, the first page in the last of them, and every other entry reads as before.
pub vm_map_ram-IsRamMapped :
    (n addr : ℕ) (s : Space) (mram : Memphy) (ret_rg : Rg) (home : ℕ → List ℕ)
    → IsForest s.heap home
    → IsRoot s.heap home s.pgd
    → HasRoom s.heap.calloc (n * 4) s.heap.blocks
    → n ≤ length mram.free_fp_list
    → IsFrameList mram.free_fp_list
    → addr + n * 256 ≤ 2 ^ 22
    → ((k : ℕ) → k < n → ReadsWord s.heap s.pgd (nth_page addr (0 + k)))
    → IsRamMapped s home mram addr n ret_rg
vm_map_ram-IsRamMapped n addr s mram ret_rg home f root room enough once range words =
    elim (vm_map_ram_lem s mram addr n ret_rg) [
      | inr (short, _) ↦ absurd (omega arith)
      | inl (taken, rest, split, size, e) ↦
          let frames = reverse_onto taken [] in
          let count = length-reverse_onto taken [] in
          let (s', e', v) =
            vmap_page_range-IsVmapped n addr frames s home f root room (omega arith) range words in
          let own =
            mapped-IsOwn s home n addr frames s' (omega arith)
              (reverse-IsFrameList taken rest (subst IsFrameList split once)) v in
          (taken, rest, s', split, size, e ∙ rw (e', after_alloc) refl, v, own)
    ]
