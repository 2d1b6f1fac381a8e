-- ===== src/Frames/Laws.antt =====
-- What `alloc_pages_range` takes and what it gives back.
use os_assignment.Base.{
  ℕ, zero, suc, ◌<◌, ◌≡◌, ◌⊎◌, inl, inr, refl, sym, ap, subst, arith, List, [], ◌∷◌, ◌++◌, length,
  take-split, ltb, Bool-cases,
}
use os_assignment.Memphy.{Memphy, get_freefp, put_freefp}
use os_assignment.Frames.{frames_taken, out_of_memory, give_back, alloc_pages_range}

abbrev pub reverse_onto : List ℕ → List ℕ → List ℕ
reverse_onto [] ys = ys
reverse_onto (x ∷ xs) ys = reverse_onto xs (x ∷ ys)

abbrev pub with_free : Memphy → List ℕ → Memphy
with_free mp free = record mp { free_fp_list = free }

give_back_lem :
    (frames free : List ℕ) (mp : Memphy)
    → give_back frames (with_free mp free) ≡ with_free mp (reverse_onto frames free)
unfolding give_back put_freefp
give_back_lem [] free mp = refl
give_back_lem (fpn ∷ frames) free mp = give_back_lem frames (fpn ∷ free) mp

alloc-enough :
    (taken rest frm_lst : List ℕ) (mp : Memphy)
    → alloc_pages_range (length taken) frm_lst (with_free mp (taken ++ rest)) ≡ record {
      code = frames_taken;
      frm_lst = reverse_onto taken frm_lst;
      mram = with_free mp rest;
    }
unfolding alloc_pages_range get_freefp
alloc-enough [] rest frm_lst mp = refl
alloc-enough (fpn ∷ taken) rest frm_lst mp = alloc-enough taken rest (fpn ∷ frm_lst) mp

alloc-short :
    (n : ℕ) (free frm_lst : List ℕ) (mp : Memphy)
    → length free < n
    → alloc_pages_range n frm_lst (with_free mp free) ≡ record {
      code = out_of_memory;
      frm_lst = [];
      mram = with_free mp (reverse_onto frm_lst free);
    }
unfolding alloc_pages_range get_freefp
alloc-short zero free frm_lst mp h = absurd (omega arith)
alloc-short (suc n) [] frm_lst mp h =
    ap (λ m. record { code = out_of_memory; frm_lst = []; mram = m }) (give_back_lem frm_lst [] mp)
alloc-short (suc n) (fpn ∷ free) frm_lst mp h = alloc-short n free (fpn ∷ frm_lst) mp (omega arith)

-- The result of a request for `n` frames is one of two.
abbrev pub AllFrames : ℕ → Memphy → Type 0
AllFrames n mp =
    (taken : List ℕ) × (rest : List ℕ) × (mp.free_fp_list ≡ taken ++ rest)
    × (length taken ≡ n)
    × (alloc_pages_range n [] mp
        ≡ record { code = frames_taken; frm_lst = reverse_onto taken []; mram = with_free mp rest })

abbrev pub NoFrames : ℕ → Memphy → Type 0
NoFrames n mp =
    (length mp.free_fp_list < n)
    × (alloc_pages_range n [] mp ≡ record { code = out_of_memory; frm_lst = []; mram = mp })

-- A request for `n` frames takes exactly the first `n` of the free list, the last one first, and
-- leaves the others; when there are fewer than `n`, it takes none, and the device is as it was
-- before.
pub alloc_pages_range_lem : (n : ℕ) (mp : Memphy) → AllFrames n mp ⊎ NoFrames n mp
alloc_pages_range_lem n mp = elim (Bool-cases (ltb (length mp.free_fp_list) n)) [
  | inl short ↦ inr (ground arith, alloc-short n mp.free_fp_list [] mp (ground arith))
  | inr enough ↦
      let (taken, rest, split, size, first) = take-split n mp.free_fp_list (ground arith) in
      inl (
        taken,
        rest,
        split,
        size,
        subst
            (λ k. alloc_pages_range k [] mp ≡ record {
              code = frames_taken;
              frm_lst = reverse_onto taken [];
              mram = with_free mp rest;
            })
            size
            (subst
              (λ free. alloc_pages_range (length taken) [] (with_free mp free) ≡ record {
                code = frames_taken;
                frm_lst = reverse_onto taken [];
                mram = with_free mp rest;
              })
              (sym split) (alloc-enough taken rest [] mp)),
      )
]
