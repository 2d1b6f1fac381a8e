-- ===== src/Paging/Directory/Laws.antt =====
-- The page directory is a map from page numbers to entries, for every process apart.
use os_assignment.Base.{
  ℕ, ◌+◌, ◌^◌, ◌<◌, ◌≡◌, ◌≢◌, ◌⊎◌, inl, inr, sym, ap, subst₂, ◌∙◌, arith, List, [], ◌∷◌, length,
  some, true, get_or,
}
use native.Mathlib.Decide.{ℕ_discrete}
use os_assignment.Paging.Address.{get_pd_from_pagenum}
use os_assignment.Paging.Address.Laws.{get_pd_from_pagenum-injective}
use os_assignment.Paging.Directory.{
  Heap, contains, upper, lookup_entry, write_cell, descend, update_entry, pte_get_entry,
}
use os_assignment.Paging.Directory.Forest.{IsForest, IsRoot}
use os_assignment.Paging.Directory.Descent.{HasRoom, trail, Descends}
use os_assignment.Paging.Directory.Arrival.{descend-Descends}
use os_assignment.Paging.Directory.Write.{
  lookup-Leads, cell-written, blocks-written, written-IsForest, Leads-written, lookup-written_ne,
  written,
}

-- `h'` is the heap after the entry of page `pgn` under the root `pgd` was changed by `change`, with
-- room for `n` more tables.
pub record IsUpdated (h : Heap) (home : ℕ → List ℕ) (pgd pgn : ℕ) (change : ℕ → ℕ) (n : ℕ)
    (h' : Heap) : Type 0 where
  pub homes : ℕ → List ℕ
  pub forest : IsForest h' homes
  pub roots : (r : ℕ) → IsRoot h home r → IsRoot h' homes r
  pub old : ℕ
  pub before : pte_get_entry h pgd pgn ≡ some old
  pub now : pte_get_entry h' pgd pgn ≡ some (change old)
  pub others :
      (r q : ℕ)
      → IsRoot h home r
      → q < 2 ^ 45
      → (r ≢ pgd) ⊎ (q ≢ pgn)
      → pte_get_entry h' r q ≡ pte_get_entry h r q
  pub room : HasRoom h'.calloc n h'.blocks

-- Different pages have different ways through the tables.
trail-ne :
    (r r' p q : ℕ)
    → p < 2 ^ 45
    → q < 2 ^ 45
    → (r ≢ r') ⊎ (p ≢ q)
    → (trail (upper (get_pd_from_pagenum p)) (r ∷ [])
        ≢ trail (upper (get_pd_from_pagenum q)) (r' ∷ []))
      ⊎ ((get_pd_from_pagenum p).pt ≢ (get_pd_from_pagenum q).pt)
trail-ne r r' p q h k (inl apart) = inl (λ e. apart (ap (λ l. get_or l 4 0) e))
trail-ne r r' p q h k (inr apart) =
    elim (ℕ_discrete (get_pd_from_pagenum p).pt (get_pd_from_pagenum q).pt) [
      | no other ↦ inr other
      | yes same ↦ inl λ e. apart (
          get_pd_from_pagenum-injective p q h k λ i. record {
            pgd = get_or (e i) 3 0;
            p4d = get_or (e i) 2 0;
            pud = get_or (e i) 1 0;
            pmd = get_or (e i) 0 0;
            pt = same i;
          })
    ]

update_entry-some :
    (h : Heap) (pgd pgn pt : ℕ) (h' : Heap) (change : ℕ → ℕ)
    → descend h pgd (upper (get_pd_from_pagenum pgn)) ≡ some (pt, h')
    → contains h'.blocks pt ≡ true
    → update_entry h pgd pgn change
      ≡ some (
          write_cell h' pt
            (get_pd_from_pagenum pgn).pt
            (change (h'.cell pt (get_pd_from_pagenum pgn).pt)))
unfolding update_entry
update_entry-some h pgd pgn pt h' change e live = rw (e, update_entry) (rw live)

-- The record of an update, from the descent that it makes.
module _ (h : Heap) (home : ℕ → List ℕ) (pgd pgn : ℕ) (change : ℕ → ℕ) (root : IsRoot h home pgd)
    (small : pgn < 2 ^ 45) (n : ℕ)
    (d : Descends h home pgd (upper (get_pd_from_pagenum pgn)) n) where
  abbrev entry : ℕ
  entry = (get_pd_from_pagenum pgn).pt

  abbrev value : ℕ
  value = d.after.cell d.pt entry

  depth : length (home pgd) + 4 ≡ 5
  depth = omega (arith, ap (λ (t : List ℕ). length t) root.1)

  depth-after : length (d.homes pgd) + 4 ≡ 5
  depth-after = omega (arith, ap (λ (t : List ℕ). length t) (d.keeps.homes pgd root.0), depth)

  bottom : length (d.homes d.pt) ≡ 5
  bottom = omega (arith, ap (λ (t : List ℕ). length t) d.at, depth)

  roots-after :
      (r : ℕ)
      → IsRoot h home r
      → IsRoot
          (written d.after d.homes d.pt entry (change value) d.keeps.forest d.live bottom)
          d.homes
          r
  roots-after r (l, at) = (
    blocks-written d.after d.homes d.pt entry (change value) d.keeps.forest d.live bottom r
        ∙ d.keeps.blocks r l,
    d.keeps.homes r l ∙ at,
  )

  others-after :
      (r q : ℕ)
      → IsRoot h home r
      → q < 2 ^ 45
      → (r ≢ pgd) ⊎ (q ≢ pgn)
      → lookup_entry
          (written d.after d.homes d.pt entry (change value) d.keeps.forest d.live bottom)
          r
          (upper (get_pd_from_pagenum q))
          (get_pd_from_pagenum q).pt
        ≡ lookup_entry h r (upper (get_pd_from_pagenum q)) (get_pd_from_pagenum q).pt
  others-after r q (l, at) k apart =
      let iq = get_pd_from_pagenum q in
      let home_r : d.homes r ≡ r ∷ [] = d.keeps.homes r l ∙ at in
      let depth_r = ap (λ (t : List ℕ). length t) at in
      let depth_r' = ap (λ (t : List ℕ). length t) home_r in
      let home_pt : trail (upper (get_pd_from_pagenum pgn)) (pgd ∷ []) ≡ d.homes d.pt =
        sym (d.at ∙ ap (trail (upper (get_pd_from_pagenum pgn))) root.1) in
      let away =
        subst₂ (λ t u. (trail (upper iq) t ≢ u) ⊎ (iq.pt ≢ entry)) (sym home_r) home_pt
          (trail-ne r pgd q pgn k small apart) in
      lookup-written_ne d.after d.homes d.pt entry (change value) d.keeps.forest d.live bottom
        (upper iq) r iq.pt (d.keeps.blocks r l) (omega arith) away
      ∙ d.keeps.reads r (upper iq) iq.pt l (omega arith)

  descends-IsUpdated :
      IsUpdated h home pgd pgn change n
        (written d.after d.homes d.pt entry (change value) d.keeps.forest d.live bottom)
  unfolding pte_get_entry write_cell
  descends-IsUpdated = record {
    homes = d.homes;
    forest =
        written-IsForest d.after d.homes d.pt entry (change value) d.keeps.forest d.live bottom;
    roots = roots-after;
    old = value;
    before =
        sym (d.keeps.reads pgd (upper (get_pd_from_pagenum pgn)) entry root.0 depth)
        ∙ lookup-Leads (upper (get_pd_from_pagenum pgn)) d.after d.homes pgd d.pt entry
            d.keeps.forest (d.keeps.blocks pgd root.0) depth-after d.leads;
    now =
        lookup-Leads (upper (get_pd_from_pagenum pgn)) _ d.homes pgd d.pt entry
          (written-IsForest d.after d.homes d.pt entry (change value) d.keeps.forest d.live bottom)
          (roots-after pgd root).0 depth-after
          (Leads-written d.after d.homes d.pt entry (change value) d.keeps.forest d.live bottom
            (upper (get_pd_from_pagenum pgn)) pgd (d.keeps.blocks pgd root.0) depth-after d.leads)
        ∙ ap some
            (cell-written d.after d.homes d.pt entry (change value) d.keeps.forest d.live bottom);
    others = others-after;
    room = d.room;
  }

-- If the tables form trees and `calloc` gives `n` tables besides the at most four that the way down needs, an
-- update of the entry of a page below 2 ^ 45 succeeds: the entry of this page is changed as asked,
-- every other entry of this and of every other page directory reads as before, and the tables
-- still form trees with the same roots, and `calloc` still gives `n` tables.
pub update_entry-IsUpdated :
    (h : Heap) (home : ℕ → List ℕ) (pgd pgn : ℕ) (change : ℕ → ℕ) (n : ℕ)
    → IsForest h home
    → IsRoot h home pgd
    → pgn < 2 ^ 45
    → HasRoom h.calloc (4 + n) h.blocks
    → (h' : Heap) × (update_entry h pgd pgn change ≡ some h') × IsUpdated h home pgd pgn change n h'
update_entry-IsUpdated h home pgd pgn change n f (live, root) small room =
    let deep : length (home pgd) + 4 ≡ 5 = omega (arith, ap (λ (t : List ℕ). length t) root) in
    let d = descend-Descends (upper (get_pd_from_pagenum pgn)) h home pgd n f live deep room in
    (
      _,
      update_entry-some h pgd pgn d.pt d.after change d.result d.live,
      descends-IsUpdated h home pgd pgn change (live, root) small n d,
    )
