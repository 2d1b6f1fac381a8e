-- ===== src/Mapping/Pages.antt =====
-- `vmap_page_range` on every page of its range, and on no other page.
use os_assignment.Base.{
  ℕ, zero, suc, ◌+◌, ◌*◌, ◌%◌, ◌^◌, ◌≤◌, ◌<◌, ◌≡◌, ◌≢◌, ◌⊎◌, inl, inr, refl, sym, ap, subst, arith,
  ◌∙◌, List, [], ◌∷◌, length, some, true, false, get_or,
}
use os_assignment.Paging.{paging_pgn}
use os_assignment.Paging.Address.Laws.{paging_pgn_lem}
use os_assignment.Paging.Pte.{is_present, is_swapped, paging_fpn, set_fpn_entry}
use os_assignment.Paging.Directory.{Heap, pte_get_entry}
use os_assignment.Paging.Directory.Forest.{IsForest, IsRoot}
use os_assignment.Paging.Directory.Descent.{HasRoom}
use os_assignment.Paging.Directory.Laws.{IsUpdated}
use os_assignment.Paging.Directory.Entries.{IsMapped, pte_set_fpn_lem}
use os_assignment.Region.{enlist_pgn_node}
use os_assignment.Mapping.{mapped, Space, nth_page, vmap_from, vmap_page_range}

-- The entry of the page is read as a word of 32 bits.
abbrev pub ReadsWord : Heap → ℕ → ℕ → Type 0
ReadsWord h pgd pgn = (old : ℕ) × (pte_get_entry h pgd pgn ≡ some old) × (old < 2 ^ 32)

-- The page is present in the frame with the low 13 bits of this number.
abbrev pub IsPageIn : Heap → ℕ → ℕ → ℕ → Type 0
IsPageIn h pgd pgn fpn =
    (pte : ℕ) × (pte_get_entry h pgd pgn ≡ some pte)
    × (is_present pte ≡ true)
    × (is_swapped pte ≡ false)
    × (paging_fpn pte ≡ fpn % 2 ^ 13)

-- The page queue with `n` pages of the range from round `i` on it.
abbrev pub queued : ℕ → ℕ → ℕ → List ℕ → List ℕ
queued zero i addr fifo_pgn = fifo_pgn
queued (suc n) i addr fifo_pgn = queued n (i + 1) addr (nth_page addr i ∷ fifo_pgn)

-- `s'` is `s` with the pages of the rounds `i`, ..., `i + n - 1` in the first `n` frames.
pub record IsVmapped (s : Space) (home : ℕ → List ℕ) (n i addr : ℕ) (frames : List ℕ) (s' : Space)
    : Type 0 where
  pub homes : ℕ → List ℕ
  pub forest : IsForest s'.heap homes
  pub roots : (r : ℕ) → IsRoot s.heap home r → IsRoot s'.heap homes r
  pub same_pgd : s'.pgd ≡ s.pgd
  pub pages : (k : ℕ) → k < n → IsPageIn s'.heap s.pgd (nth_page addr (i + k)) (get_or frames k 0)
  pub others :
      (r q : ℕ)
      → IsRoot s.heap home r
      → q < 2 ^ 45
      → (r ≢ s.pgd) ⊎ ((k : ℕ) → k < n → q ≢ nth_page addr (i + k))
      → pte_get_entry s'.heap r q ≡ pte_get_entry s.heap r q
  pub queue : s'.fifo_pgn ≡ queued n i addr s.fifo_pgn

-- Pages of different rounds below 4 MiB are different, and small.
nth_page-bounds :
    (addr j : ℕ)
    → addr + j * 256 < 2 ^ 22
    → (nth_page addr j * 256 ≤ addr + j * 256) × (addr + j * 256 < nth_page addr j * 256 + 256)
nth_page-bounds addr j h =
    let wrap : (addr + j * 256) % 2 ^ 64 ≡ addr + j * 256 = omega arith in
    let page : nth_page addr j ≡ paging_pgn (addr + j * 256) = ap paging_pgn wrap in
    let l = paging_pgn_lem (addr + j * 256) h in
    let sum = l.0 in let below = l.1 in (omega arith, omega arith)

nth_page-ne : (addr j k : ℕ) → j < k → addr + k * 256 < 2 ^ 22 → nth_page addr j ≢ nth_page addr k
nth_page-ne addr j k lt h e =
    let a = nth_page-bounds addr j (omega arith) in let b = nth_page-bounds addr k h in omega arith

nth_page-small : (addr j : ℕ) → addr + j * 256 < 2 ^ 22 → nth_page addr j < 2 ^ 45
nth_page-small addr j h = let a = nth_page-bounds addr j h in omega arith

-- The address space after the first round.
abbrev after_round : Space → Heap → ℕ → ℕ → Space
after_round s h' addr i = record s {
  heap = h';
  fifo_pgn = enlist_pgn_node s.fifo_pgn (nth_page addr i);
}

module _ (n i addr fpn : ℕ) (frames : List ℕ) (s : Space) (home : ℕ → List ℕ) (more : ℕ) (h' : Heap)
    (root : IsRoot s.heap home s.pgd) (range : addr + (i + suc n) * 256 ≤ 2 ^ 22)
    (m : IsMapped s.heap home s.pgd (nth_page addr i) fpn more h') where
  abbrev update :
      IsUpdated s.heap home s.pgd (nth_page addr i) (λ pte. set_fpn_entry pte fpn) more h'
  update = m.6

  words-after :
      ((k : ℕ) → k < suc n → ReadsWord s.heap s.pgd (nth_page addr (i + k)))
      → (k : ℕ) → k < n
      → ReadsWord h' s.pgd (nth_page addr (i + 1 + k))
  words-after words k h =
      let next : i + suc k ≡ i + 1 + k = omega arith in
      let (old, read, word) =
        subst (λ j. ReadsWord s.heap s.pgd (nth_page addr j)) next (words (suc k) (omega arith)) in
      (
        old,
        update.others s.pgd (nth_page addr (i + 1 + k)) root
              (nth_page-small addr (i + 1 + k) (omega arith))
              (inr (λ e. nth_page-ne addr i (i + 1 + k) (omega arith) (omega arith) (sym e)))
            ∙ read,
        word,
      )

  combine :
      (s' : Space)
      → IsVmapped (after_round s h' addr i) update.homes n (i + 1) addr frames s'
      → IsVmapped s home (suc n) i addr (fpn ∷ frames) s'
  unfolding enlist_pgn_node
  combine s' v = record {
    homes = v.homes;
    forest = v.forest;
    roots = λ r h. v.roots r (update.roots r h);
    same_pgd = v.same_pgd;
    pages = pages-all;
    others = λ r q h small away.
        v.others r q (update.roots r h) small (later r q away)
        ∙ update.others r q h small (first r q away);
    queue = v.queue;
  }
    where
      first :
          (r q : ℕ)
          → (r ≢ s.pgd) ⊎ ((k : ℕ) → k < suc n → q ≢ nth_page addr (i + k))
          → (r ≢ s.pgd) ⊎ (q ≢ nth_page addr i)
      first r q (inl apart) = inl apart
      first r q (inr away) =
          let here : i + 0 ≡ i = omega arith in
          inr (subst (λ j. q ≢ nth_page addr j) here (away 0 (omega arith)))

      later :
          (r q : ℕ)
          → (r ≢ s.pgd) ⊎ ((k : ℕ) → k < suc n → q ≢ nth_page addr (i + k))
          → (r ≢ s.pgd) ⊎ ((k : ℕ) → k < n → q ≢ nth_page addr (i + 1 + k))
      later r q (inl apart) = inl apart
      later r q (inr away) = inr (λ k h.
          let next : i + suc k ≡ i + 1 + k = omega arith in
          subst (λ j. q ≢ nth_page addr j) next (away (suc k) (omega arith)))

      first_page : IsPageIn s'.heap s.pgd (nth_page addr i) fpn
      first_page =
          let (new, now, there, out, frame, fits, u) = m in
          (
            new,
            v.others s.pgd (nth_page addr i) (update.roots s.pgd root)
                  (nth_page-small addr i (omega arith))
                  (inr (λ k h. nth_page-ne addr i (i + 1 + k) (omega arith) (omega arith)))
                ∙ now,
            there,
            out,
            frame,
          )

      pages-all :
          (k : ℕ)
          → k < suc n
          → IsPageIn s'.heap s.pgd (nth_page addr (i + k)) (get_or (fpn ∷ frames) k 0)
      pages-all zero h =
          let here : i ≡ i + 0 = omega arith in
          subst (λ j. IsPageIn s'.heap s.pgd (nth_page addr j) fpn) here first_page
      pages-all (suc k) h =
          let next : i + 1 + k ≡ i + suc k = omega arith in
          subst (λ j. IsPageIn s'.heap s.pgd (nth_page addr j) (get_or frames k 0)) next
            (v.pages k (omega arith))

-- The loop does it, from any round on.
vmap_from-IsVmapped :
    (n i addr : ℕ) (frames : List ℕ) (s : Space) (home : ℕ → List ℕ)
    → IsForest s.heap home
    → IsRoot s.heap home s.pgd
    → HasRoom s.heap.calloc (n * 4) s.heap.blocks
    → n ≤ length frames
    → addr + (i + n) * 256 ≤ 2 ^ 22
    → ((k : ℕ) → k < n → ReadsWord s.heap s.pgd (nth_page addr (i + k)))
    → (s' : Space) × (vmap_from n i addr frames s ≡ some (mapped, s'))
      × IsVmapped s home n i addr frames s'
unfolding vmap_from
vmap_from-IsVmapped zero i addr frames s home f root room enough range words = (
  s,
  refl,
  record {
    homes = home;
    forest = f;
    roots = λ r h. h;
    same_pgd = refl;
    pages = λ k h. absurd (omega arith);
    others = λ r q h small away. refl;
    queue = refl;
  },
)
vmap_from-IsVmapped (suc n) i addr [] s home f root room enough range words = absurd (omega arith)
vmap_from-IsVmapped (suc n) i addr (fpn ∷ frames) s home f root room enough range words =
    let here : i + 0 ≡ i = omega arith in
    let (old, read, word) =
      subst (λ j. ReadsWord s.heap s.pgd (nth_page addr j)) here (words 0 (omega arith)) in
    let count : suc n * 4 ≡ 4 + n * 4 = omega arith in
    let (h', e, m) =
      pte_set_fpn_lem s.heap home s.pgd (nth_page addr i) fpn old (n * 4) f root
        (nth_page-small addr i (omega arith))
        (subst (λ k. HasRoom s.heap.calloc k s.heap.blocks) count room) read word in
    let u = update n i addr fpn frames s home (n * 4) h' root range m in
    let (s', e', v) =
      vmap_from-IsVmapped n (i + 1) addr frames (after_round s h' addr i) u.homes u.forest
        (u.roots s.pgd root) u.room (omega arith) (omega arith)
        (words-after n i addr fpn frames s home (n * 4) h' root range m words) in
    (s', rw (e, vmap_from) e', combine n i addr fpn frames s home (n * 4) h' root range m s' v)

-- For a range below 4 MiB of `n` pages and at least `n` frames, if the tables form trees, `calloc`
-- gives four tables for each page, and the entries of the range were read as words of 32 bits:
-- `vmap_page_range` returns 0 and the region from `addr` on, page k of the range is then present,
-- not swapped, and its entry has the low 13 bits of the number of frame k, every other entry of this and of every other process reads as before, the tables still
-- form trees, and the pages are on the page queue, the last one first.
pub vmap_page_range-IsVmapped :
    (n addr : ℕ) (frames : List ℕ) (s : Space) (home : ℕ → List ℕ)
    → IsForest s.heap home
    → IsRoot s.heap home s.pgd
    → HasRoom s.heap.calloc (n * 4) s.heap.blocks
    → n ≤ length frames
    → addr + n * 256 ≤ 2 ^ 22
    → ((k : ℕ) → k < n → ReadsWord s.heap s.pgd (nth_page addr (0 + k)))
    → (s' : Space) × (vmap_page_range s addr n frames
        ≡ some (mapped, s', record { rg_start = addr; rg_end = addr + n * 256 }))
      × IsVmapped s home n 0 addr frames s'
unfolding vmap_page_range
vmap_page_range-IsVmapped n addr frames s home f root room enough range words =
    let (s', e, v) =
      vmap_from-IsVmapped n 0 addr frames s home f root room enough (omega arith) words in
    let wrap : (addr + n * 256) % 2 ^ 64 ≡ addr + n * 256 = omega arith in
    (s', rw (e, wrap, vmap_page_range) refl, v)
