-- ===== src/Libmem/Move.antt =====
-- A page moves from one frame to another: the frames stay apart, and no page changes a byte.
use os_assignment.Base.{
  ℕ, ◌+◌, ◌*◌, ◌^◌, ◌≤◌, ◌<◌, ◌≡◌, ◌≢◌, ◌⊎◌, inl, inr, sym, ap, subst, ◌∙◌, List, [], ◌∷◌, some,
  Bool, true, length, All,
}
use native.Mathlib.Decide.{ℕ_discrete}
use os_assignment.Paging.Directory.{pte_get_entry}
use os_assignment.Paging.Directory.Forest.{IsForest, IsRoot}
use os_assignment.Memphy.{Memphy}
use os_assignment.Libmem.Layout.{
  Place, in_ram, in_swap, nowhere, Memory, place_or_nowhere, at, byte, content, Avoids, Distinct,
  Fits, IsTaken, IsPage, IsConsistent, IsLoose,
}

-- A device with other bytes.
pub record IsRefilled (mp mp' : Memphy) : Type 0 where
  pub size : length mp'.storage ≡ length mp.storage
  pub random : mp'.rdmflg ≡ mp.rdmflg
  pub frames : mp'.free_fp_list ≡ mp.free_fp_list

-- `m'` is `m` with page `q` of `r` at `y`.
pub record IsMoved (m : Memory) (live : ℕ → Bool) (r q : ℕ) (y : Place) (m' : Memory)
    (home' : ℕ → List ℕ) : Type 0 where
  pub forest : IsForest m'.heap home'
  pub roots : (d : ℕ) → live d ≡ true → IsRoot m'.heap home' d
  pub word : (pte : ℕ) × (pte_get_entry m'.heap r q ≡ some pte) × (pte < 2 ^ 32)
  pub at_self : at m'.heap r q ≡ y
  pub others :
      (r' q' : ℕ)
      → IsPage live r' q'
      → (r' ≢ r) ⊎ (q' ≢ q)
      → pte_get_entry m'.heap r' q' ≡ pte_get_entry m.heap r' q'
  pub byte_self : (i : ℕ) → i < 256 → byte m' y i ≡ content m r q i
  pub byte_others : (x : Place) (i : ℕ) → x ≢ y → i < 256 → byte m' x i ≡ byte m x i
  pub ram : IsRefilled m.mram m'.mram
  pub swap : IsRefilled m.mswp m'.mswp

abbrev pub Stays : Memory → (ℕ → Bool) → Memory → Type 0
Stays m live m' = (r q i : ℕ) → IsPage live r q → i < 256 → content m' r q i ≡ content m r q i

page-cases : (r q r' q' : ℕ) → ((r' ≡ r) × (q' ≡ q)) ⊎ ((r' ≢ r) ⊎ (q' ≢ q))
page-cases r q r' q' = elim (ℕ_discrete r' r) [
  | no other ↦ inr (inl other)
  | yes same ↦ elim (ℕ_discrete q' q) [ no other ↦ inr (inr other) | yes same' ↦ inl (same, same') ]
]

module _ (m : Memory) (home : ℕ → List ℕ) (live : ℕ → Bool) (r q : ℕ) (y : Place) (m' : Memory)
    (home' : ℕ → List ℕ) (c : IsConsistent m home live) (l : IsLoose m live y)
    (page : IsPage live r q) (v : IsMoved m live r q y m' home') where
  moved-Fits : (x : Place) → Fits m x → Fits m' x
  moved-Fits (in_ram f) (small, inside) =
      (small, subst (λ n. f * 256 + 256 ≤ n) (sym v.ram.size) inside)
  moved-Fits (in_swap f) (small, inside) =
      (small, subst (λ n. f * 256 + 256 ≤ n) (sym v.swap.size) inside)
  moved-Fits nowhere h = tt

  moved-IsTaken : (x : Place) → IsTaken m x → IsTaken m' x
  moved-IsTaken (in_ram f) h = subst (λ l. Avoids l f) (sym v.ram.frames) h
  moved-IsTaken (in_swap f) h = subst (λ l. Avoids l f) (sym v.swap.frames) h
  moved-IsTaken nowhere h = tt

  pub at_others :
      (r' q' : ℕ) → IsPage live r' q' → (r' ≢ r) ⊎ (q' ≢ q) → at m'.heap r' q' ≡ at m.heap r' q'
  unfolding at
  at_others r' q' p apart = ap place_or_nowhere (v.others r' q' p apart)

  pub moved-cases :
      (r' q' : ℕ)
      → IsPage live r' q'
      → ((r' ≡ r) × (q' ≡ q) × (at m'.heap r' q' ≡ y))
        ⊎ (((r' ≢ r) ⊎ (q' ≢ q)) × (at m'.heap r' q' ≡ at m.heap r' q'))
  moved-cases r' q' p = elim (page-cases r q r' q') [
    | inl (same, same') ↦
        inl (same, same', ap (λ a. at m'.heap a q') same ∙ ap (at m'.heap r) same' ∙ v.at_self)
    | inr apart ↦ inr (apart, at_others r' q' p apart)
  ]

  pub moved-Stays : Stays m live m'
  moved-Stays r' q' i p small = elim (moved-cases r' q' p) [
    | inl (same, same', there) ↦
        ap (λ x. byte m' x i) there
        ∙ v.byte_self i small
        ∙ ap (λ a. content m a q i) (sym same)
        ∙ ap (λ b. content m r' b i) (sym same')
    | inr (apart, there) ↦
        ap (λ x. byte m' x i) there ∙ v.byte_others (at m.heap r' q') i (l.unused r' q' p) small
  ]

  -- The frame that the page left.
  pub moved-IsLoose : at m.heap r q ≢ nowhere → IsLoose m' live (at m.heap r q)
  moved-IsLoose real = record {
    fits = moved-Fits (at m.heap r q) (c.fits r q page);
    taken = moved-IsTaken (at m.heap r q) (c.taken r q page);
    real = real;
    unused = λ r' q' p e. elim (moved-cases r' q' p) [
      | inl (same, same', there) ↦ l.unused r q page (sym e ∙ there)
      | inr (apart, there) ↦
          let (same, same') = c.alone r q r' q' page p (sym (sym there ∙ e)) real in
          elim apart [ inl other ↦ other (sym same) | inr other ↦ other (sym same') ]
    ];
  }

  moved-alone :
      (a b a' b' : ℕ)
      → IsPage live a b
      → IsPage live a' b'
      → at m'.heap a b ≡ at m'.heap a' b'
      → at m'.heap a b ≢ nowhere
      → (a ≡ a') × (b ≡ b')
  moved-alone a b a' b' p p' e real = elim (moved-cases a b p) [
    | inl (s, t, there) ↦ elim (moved-cases a' b' p') [
      | inl (s', t', there') ↦ (s ∙ sym s', t ∙ sym t')
      | inr (apart, there') ↦ absurd (l.unused a' b' p' (sym there' ∙ sym e ∙ there))
    ]
    | inr (apart, there) ↦ elim (moved-cases a' b' p') [
      | inl (s', t', there') ↦ absurd (l.unused a b p (sym there ∙ e ∙ there'))
      | inr (apart', there') ↦
          c.alone a b a' b' p p' (sym there ∙ e ∙ there') (λ z. real (there ∙ z))
    ]
  ]

  moved-words :
      (a b : ℕ)
      → IsPage live a b
      → (pte : ℕ) × (pte_get_entry m'.heap a b ≡ some pte) × (pte < 2 ^ 32)
  moved-words a b p = elim (page-cases r q a b) [
    | inl (same, same') ↦
        let (pte, e, w) = v.word in
        (pte, ap (λ d. pte_get_entry m'.heap d b) same ∙ ap (pte_get_entry m'.heap r) same' ∙ e, w)
    | inr apart ↦ let (pte, e, w) = c.words a b p in (pte, v.others a b p apart ∙ e, w)
  ]

  All-Fits :
      (kind : ℕ → Place) (fs : List ℕ)
      → All (λ f. Fits m (kind f)) fs
      → All (λ f. Fits m' (kind f)) fs
  All-Fits kind [] h = tt
  All-Fits kind (f ∷ fs) (h, hs) = (moved-Fits (kind f) h, All-Fits kind fs hs)

  pub moved-IsConsistent : IsConsistent m' home' live
  moved-IsConsistent = record {
    forest = v.forest;
    roots = v.roots;
    random_ram = λ e. c.random_ram (sym v.ram.random ∙ e);
    random_swap = λ e. c.random_swap (sym v.swap.random ∙ e);
    words = moved-words;
    fits = λ a b p. elim (moved-cases a b p) [
      | inl (s, t, there) ↦ subst (Fits m') (sym there) (moved-Fits y l.fits)
      | inr (apart, there) ↦ subst (Fits m') (sym there) (moved-Fits (at m.heap a b) (c.fits a b p))
    ];
    taken = λ a b p. elim (moved-cases a b p) [
      | inl (s, t, there) ↦ subst (IsTaken m') (sym there) (moved-IsTaken y l.taken)
      | inr (apart, there) ↦
          subst (IsTaken m') (sym there) (moved-IsTaken (at m.heap a b) (c.taken a b p))
    ];
    alone = moved-alone;
    free_ram =
        subst (λ fs. All (λ f. Fits m' (in_ram f)) fs × Distinct fs) (sym v.ram.frames)
          (All-Fits in_ram m.mram.free_fp_list c.free_ram.0, c.free_ram.1);
    free_swap =
        subst (λ fs. All (λ f. Fits m' (in_swap f)) fs × Distinct fs) (sym v.swap.frames)
          (All-Fits in_swap m.mswp.free_fp_list c.free_swap.0, c.free_swap.1);
  }
