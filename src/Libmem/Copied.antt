-- ===== src/Libmem/Copied.antt =====
-- The copy of a page between RAM and swap, together with the update of its entry, moves the page.
use os_assignment.Base.{
  ℕ, ◌+◌, ◌*◌, ◌<◌, ◌≡◌, ◌≢◌, ◌⊎◌, inl, inr, refl, sym, ap, subst, ◌∙◌, arith, List, some, Bool,
  get_or,
}
use os_assignment.Paging.Pte.{paging_fpn, paging_swp}
use os_assignment.Paging.Directory.{Heap, pte_set_fpn, pte_set_swap}
use os_assignment.Paging.Directory.Descent.{HasRoom}
use os_assignment.Paging.Directory.Entries.{pte_set_fpn_lem, pte_set_swap_lem}
use os_assignment.Memphy.{Memphy, done}
use os_assignment.Memphy.Copy.{IsCopied, swap_cp_page, swap_cp_page_lem}
use os_assignment.Libmem.Layout.{
  Place, in_ram, in_swap, nowhere, Memory, at, byte, Fits, IsPage, IsConsistent, IsLoose,
}
use os_assignment.Libmem.Places.{at-entry, place-swapped, place-present}
use os_assignment.Libmem.Move.{IsRefilled, IsMoved}

IsRefilled-refl : (mp : Memphy) → IsRefilled mp mp
IsRefilled-refl mp = record { size = refl; random = refl; frames = refl }

copied-IsRefilled :
    (src : Memphy) (sf : ℕ) (dst : Memphy) (df : ℕ) (dst' : Memphy)
    → IsCopied src sf dst df 0 256 dst'
    → IsRefilled dst dst'
copied-IsRefilled src sf dst df dst' c = record {
  size = c.size;
  random = c.random;
  frames = c.frames;
}

copied-others :
    (src : Memphy) (sf : ℕ) (dst : Memphy) (df : ℕ) (dst' : Memphy) (k i : ℕ)
    → IsCopied src sf dst df 0 256 dst'
    → k ≢ df
    → i < 256
    → get_or dst'.storage (k * 256 + i) 0 ≡ get_or dst.storage (k * 256 + i) 0
copied-others src sf dst df dst' k i c apart small = elim (lt_or_gt k df apart) [
  | inl less ↦ c.below (k * 256 + i) (omega arith)
  | inr more ↦ c.above (k * 256 + i) (omega arith)
]
  where
    lt_or_gt : (a b : ℕ) → a ≢ b → (a < b) ⊎ (b < a)
    lt_or_gt a b ne = ground arith

-- The state of a page in RAM after it went to frame `g` of the swap device.
module _ (m : Memory) (home : ℕ → List ℕ) (live : ℕ → Bool) (c : IsConsistent m home live)
    (r q f g stale swptyp n : ℕ) (page : IsPage live r q) (here : at m.heap r q ≡ in_ram f)
    (l : IsLoose m live (in_swap g)) (room : HasRoom m.heap.calloc (4 + n) m.heap.blocks) where
  abbrev pub SwapOut : Type 0
  SwapOut =
      (heap : Heap) × (mswp : Memphy) × (home' : ℕ → List ℕ) × (swap_cp_page stale m.mram f m.mswp g
        ≡ done (m.mram, mswp))
      × (pte_set_swap m.heap r q swptyp g ≡ some heap)
      × IsMoved m live r q (in_swap g) (record { heap = heap; mram = m.mram; mswp = mswp }) home'
      × HasRoom heap.calloc n heap.blocks

  pub swap_out-IsMoved : SwapOut
  swap_out-IsMoved =
      let inside = subst (Fits m) here (c.fits r q page) in
      let (mswp, e, k) =
        swap_cp_page_lem stale m.mram f m.mswp g c.random_ram c.random_swap inside.1 l.fits.1 in
      let (pte, read, word) = c.words r q page in
      let (heap, e', (new, now, gone, out, offset, fits, u)) =
        pte_set_swap_lem m.heap home r q swptyp g pte n c.forest (c.roots r page.0) page.1 room read
          word in
      let frame : paging_swp new ≡ g = let small = l.fits.0 in omega arith in
      (
        heap,
        mswp,
        u.homes,
        e,
        e',
        record {
          forest = u.forest;
          roots = λ d a. u.roots d (c.roots d a);
          word = (new, now, fits);
          at_self = at-entry heap r q new now ∙ place-swapped new out ∙ ap in_swap frame;
          others = λ r' q' p apart. u.others r' q' (c.roots r' p.0) p.1 apart;
          byte_self = λ i small. k.copied i (omega arith) small ∙ ap (λ x. byte m x i) (sym here);
          byte_others = λ x i apart small. other_bytes mswp heap k x i apart small;
          ram = IsRefilled-refl m.mram;
          swap = copied-IsRefilled m.mram f m.mswp g mswp k;
        },
        u.room,
      )
    where
      other_bytes :
          (mswp : Memphy) (heap : Heap)
          → IsCopied m.mram f m.mswp g 0 256 mswp
          → (x : Place) (i : ℕ) → x ≢ in_swap g
          → i < 256
          → byte (record { heap = heap; mram = m.mram; mswp = mswp }) x i ≡ byte m x i
      other_bytes mswp heap k (in_ram a) i apart small = refl
      other_bytes mswp heap k (in_swap a) i apart small =
          copied-others m.mram f m.mswp g mswp a i k (λ e. apart (ap in_swap e)) small
      other_bytes mswp heap k nowhere i apart small = refl

-- The state of a swapped page after it went to frame `f` of RAM.
module _ (m : Memory) (home : ℕ → List ℕ) (live : ℕ → Bool) (c : IsConsistent m home live)
    (r q g f stale n : ℕ) (page : IsPage live r q) (here : at m.heap r q ≡ in_swap g)
    (l : IsLoose m live (in_ram f)) (room : HasRoom m.heap.calloc (4 + n) m.heap.blocks) where
  abbrev pub SwapIn : Type 0
  SwapIn =
      (heap : Heap) × (mram : Memphy) × (home' : ℕ → List ℕ) × (swap_cp_page stale m.mswp g m.mram f
        ≡ done (m.mswp, mram))
      × (pte_set_fpn m.heap r q f ≡ some heap)
      × IsMoved m live r q (in_ram f) (record { heap = heap; mram = mram; mswp = m.mswp }) home'
      × HasRoom heap.calloc n heap.blocks

  pub swap_in-IsMoved : SwapIn
  swap_in-IsMoved =
      let inside = subst (Fits m) here (c.fits r q page) in
      let (mram, e, k) =
        swap_cp_page_lem stale m.mswp g m.mram f c.random_swap c.random_ram inside.1 l.fits.1 in
      let (pte, read, word) = c.words r q page in
      let (heap, e', (new, now, there, out, frame, fits, u)) =
        pte_set_fpn_lem m.heap home r q f pte n c.forest (c.roots r page.0) page.1 room read word in
      let same : paging_fpn new ≡ f = let small = l.fits.0 in omega arith in
      (
        heap,
        mram,
        u.homes,
        e,
        e',
        record {
          forest = u.forest;
          roots = λ d a. u.roots d (c.roots d a);
          word = (new, now, fits);
          at_self = at-entry heap r q new now ∙ place-present new out there ∙ ap in_ram same;
          others = λ r' q' p apart. u.others r' q' (c.roots r' p.0) p.1 apart;
          byte_self = λ i small. k.copied i (omega arith) small ∙ ap (λ x. byte m x i) (sym here);
          byte_others = λ x i apart small. other_bytes mram heap k x i apart small;
          ram = copied-IsRefilled m.mswp g m.mram f mram k;
          swap = IsRefilled-refl m.mswp;
        },
        u.room,
      )
    where
      other_bytes :
          (mram : Memphy) (heap : Heap)
          → IsCopied m.mswp g m.mram f 0 256 mram
          → (x : Place) (i : ℕ) → x ≢ in_ram f
          → i < 256
          → byte (record { heap = heap; mram = mram; mswp = m.mswp }) x i ≡ byte m x i
      other_bytes mram heap k (in_ram a) i apart small =
          copied-others m.mswp g m.mram f mram a i k (λ e. apart (ap in_ram e)) small
      other_bytes mram heap k (in_swap a) i apart small = refl
      other_bytes mram heap k nowhere i apart small = refl
