-- ===== src/Paging/Directory/Descent.antt =====
-- The descent keeps the forest and every entry that could be read before.
use os_assignment.Base.{
  ℕ, zero, suc, ◌+◌, ◌<◌, ◌≡◌, ◌≢◌, ◌⊎◌, inl, inr, refl, sym, ap, subst, ◌∙◌, arith, List, [], ◌∷◌,
  length, some, true, false, ◌==◌, Bool-cases, bit_or, if◌then◌else◌,
}
use native.Mathlib.Decide.{ℕ_discrete}
use os_assignment.Paging.Directory.{
  Heap, contains, is_present64, table_addr, present64_mask, lookup_entry, descend,
}
use os_assignment.Paging.Directory.Forest.{
  IsForest, IsExtended, ne_of_contains, is_present64-entry, table_addr-entry, is_present64-zero,
}

-- `h'` has the tables of `h` at the same homes and is a forest, and whatever could be read from a
-- table of `h` down to a page table is read in `h'` too.
pub record Keeps (h : Heap) (home : ℕ → List ℕ) (h' : Heap) (home' : ℕ → List ℕ) : Type 0 where
  pub forest : IsForest h' home'
  pub blocks : (a : ℕ) → contains h.blocks a ≡ true → contains h'.blocks a ≡ true
  pub homes : (a : ℕ) → contains h.blocks a ≡ true → home' a ≡ home a
  pub entries :
      (c j : ℕ)
      → contains h.blocks c ≡ true
      → length (home c) < 5
      → is_present64 (h.cell c j) ≡ true
      → h'.cell c j ≡ h.cell c j
  pub reads :
      (c : ℕ) (is : List ℕ) (j : ℕ)
      → contains h.blocks c ≡ true
      → length (home c) + length is ≡ 5
      → lookup_entry h' c is j ≡ lookup_entry h c is j

pub Keeps-refl : (h : Heap) (home : ℕ → List ℕ) → IsForest h home → Keeps h home h home
Keeps-refl h home f = record {
  forest = f;
  blocks = λ a l. l;
  homes = λ a l. refl;
  entries = λ c j l n p. refl;
  reads = λ c is j l n. refl;
}

pub Keeps-trans :
    (h h₁ h₂ : Heap) (home home₁ home₂ : ℕ → List ℕ)
    → Keeps h home h₁ home₁
    → Keeps h₁ home₁ h₂ home₂
    → Keeps h home h₂ home₂
Keeps-trans h h₁ h₂ home home₁ home₂ k l = record {
  forest = l.forest;
  blocks = λ a m. l.blocks a (k.blocks a m);
  homes = λ a m. l.homes a (k.blocks a m) ∙ k.homes a m;
  entries = λ c j m n p.
      let first = k.entries c j m n p in
      l.entries c j (k.blocks c m) (subst (λ (t : List ℕ). length t < 5) (sym (k.homes c m)) n)
        (ap is_present64 first ∙ p)
      ∙ first;
  reads = λ c is j m n.
      l.reads c is j (k.blocks c m) (ap (λ (t : List ℕ). length t + length is) (k.homes c m) ∙ n)
      ∙ k.reads c is j m n;
}

-- The home of the new table.
abbrev pub settle : (ℕ → List ℕ) → ℕ → ℕ → ℕ → ℕ → List ℕ
settle home a i b c = if c == b then i ∷ home a else home c

module _ (h : Heap) (home : ℕ → List ℕ) (a i b : ℕ) (h' : Heap) (f : IsForest h home)
    (live : contains h.blocks a ≡ true) (upper : length (home a) < 5)
    (x : IsExtended h a i b h') where
  pub contains-new : contains h'.blocks b ≡ true
  unfolding contains
  contains-new = rw x.added (ground arith)

  contains-old : (c : ℕ) → contains h.blocks c ≡ true → contains h'.blocks c ≡ true
  unfolding contains
  contains-old c l = rw x.added (ground arith)

  contains-cases : (c : ℕ) → contains h'.blocks c ≡ true → (c ≡ b) ⊎ (contains h.blocks c ≡ true)
  unfolding contains
  contains-cases c l = let l' = rw x.added at l in ground arith

  settle-old : (c : ℕ) → contains h.blocks c ≡ true → settle home a i b c ≡ home c
  settle-old c l = ground (arith, ne_of_contains h.blocks c b l x.fresh)

  pub settle-new : settle home a i b b ≡ i ∷ home a
  settle-new = ground arith

  -- An entry of an old table is the new one, or as before.
  entry-cases :
      (c j : ℕ) → contains h.blocks c ≡ true → ((c ≡ a) × (j ≡ i)) ⊎ (h'.cell c j ≡ h.cell c j)
  entry-cases c j l = elim (ℕ_discrete c a) [
    | no other ↦ inr (x.others c j l (inl other))
    | yes same ↦ elim (ℕ_discrete j i) [
      | no other ↦ inr (x.others c j l (inr other))
      | yes same' ↦ inl (same, same')
    ]
  ]

  extended-children :
      (c j : ℕ)
      → contains h'.blocks c ≡ true
      → length (settle home a i b c) < 5
      → is_present64 (h'.cell c j) ≡ true
      → (contains h'.blocks (table_addr (h'.cell c j)) ≡ true)
        × (settle home a i b (table_addr (h'.cell c j)) ≡ j ∷ settle home a i b c)
  extended-children c j l n p = elim (contains-cases c l) [
    | inl new ↦ absurd (
        let bad : is_present64 0 ≡ true =
          sym (ap is_present64 (ap (λ t. h'.cell t j) new ∙ x.zeros j)) ∙ p in
        let shut = is_present64-zero in cc)
    | inr old ↦ elim (entry-cases c j old) [
      | inl (at, at') ↦
          let entry : h'.cell c j ≡ bit_or b present64_mask =
            ap (λ t. h'.cell t j) at ∙ ap (h'.cell a) at' ∙ x.entered in
          let target : table_addr (h'.cell c j) ≡ b =
            ap table_addr entry ∙ table_addr-entry b x.address in
          (
            rw target contains-new,
            ap (settle home a i b) target
                ∙ settle-new
                ∙ ap (λ t. t ∷ home a) (sym at')
                ∙ ap (λ t. j ∷ home t) (sym at)
                ∙ ap (λ (t : List ℕ). j ∷ t) (sym (settle-old c old)),
          )
      | inr same ↦
          let (inside, at) =
            f.children c j old (subst (λ (t : List ℕ). length t < 5) (settle-old c old) n)
              (sym (ap is_present64 same) ∙ p) in
          (
            contains-old _ (ap (λ t. contains h.blocks (table_addr t)) same ∙ inside),
            settle-old _ (ap (λ t. contains h.blocks (table_addr t)) same ∙ inside)
                ∙ ap (λ t. home (table_addr t)) same
                ∙ at
                ∙ ap (λ (t : List ℕ). j ∷ t) (sym (settle-old c old)),
          )
    ]
  ]

  extended-IsForest : IsForest h' (settle home a i b)
  extended-IsForest = record {
    calloc = rw x.same_calloc f.calloc;
    not_null = unfold contains in rw x.added (ground (arith, x.real, f.not_null));
    children = extended-children;
  }

  lookup-new : (is : List ℕ) (j : ℕ) → lookup_entry h' b is j ≡ some 0
  unfolding lookup_entry
  lookup-new [] j = rw (contains-new, x.zeros j)
  lookup-new (k ∷ is) j = rw (contains-new, x.zeros k, is_present64-zero)

  lookup-extended :
      (is : List ℕ) (c j : ℕ)
      → contains h.blocks c ≡ true
      → length (home c) + length is ≡ 5
      → lookup_entry h' c is j ≡ lookup_entry h c is j
  unfolding lookup_entry
  lookup-extended [] c j l n = elim (entry-cases c j l) [
    | inl (at, at') ↦ absurd (let same = ap (λ t. length (home t)) at in omega arith)
    | inr same ↦ rw (contains-old c l, l, same)
  ]
  lookup-extended (k ∷ is) c j l n = elim (entry-cases c k l) [
    | inl (at, at') ↦
        let entry : h'.cell c k ≡ bit_or b present64_mask =
          ap (λ t. h'.cell t k) at ∙ ap (h'.cell a) at' ∙ x.entered in
        let gone : is_present64 (h.cell c k) ≡ false =
          ap (λ t. is_present64 (h.cell t k)) at
          ∙ ap (λ t. is_present64 (h.cell a t)) at'
          ∙ x.missing in
        rw
          (
            contains-old c l,
            l,
            entry,
            gone,
            is_present64-entry b x.address,
            table_addr-entry b x.address,
          )
          (lookup-new is j)
    | inr same ↦ elim (Bool-cases (is_present64 (h.cell c k))) [
      | inr gone ↦ rw (contains-old c l, l, same, gone)
      | inl there ↦
          let (inside, at) = f.children c k l (omega arith) there in
          rw (contains-old c l, l, same, there)
            (lookup-extended is (table_addr (h.cell c k)) j inside
              (omega (arith, ap (λ (t : List ℕ). length t) at)))
    ]
  ]

  extended-entries :
      (c j : ℕ)
      → contains h.blocks c ≡ true
      → is_present64 (h.cell c j) ≡ true
      → h'.cell c j ≡ h.cell c j
  extended-entries c j l p = elim (entry-cases c j l) [
    | inr same ↦ same
    | inl (at, at') ↦
        let gone =
          ap (λ t. is_present64 (h.cell t j)) at
          ∙ ap (λ t. is_present64 (h.cell a t)) at'
          ∙ x.missing in
        cc
  ]

  pub extended-Keeps : Keeps h home h' (settle home a i b)
  extended-Keeps = record {
    forest = extended-IsForest;
    blocks = contains-old;
    homes = settle-old;
    entries = λ c j l n p. extended-entries c j l p;
    reads = λ c is j l n. lookup-extended is c j l n;
  }

-- `calloc` gives `n` tables in a row, each time with those it gave before in use.
abbrev pub HasRoom : (List ℕ → ℕ) → ℕ → List ℕ → Type 0
HasRoom calloc zero bs = Unit
HasRoom calloc (suc n) bs = (calloc bs ≢ 0) × HasRoom calloc n (calloc bs ∷ bs)

pub HasRoom-fewer :
    (calloc : List ℕ → ℕ) (n : ℕ) (bs : List ℕ) → HasRoom calloc (suc n) bs → HasRoom calloc n bs
HasRoom-fewer calloc zero bs r = tt
HasRoom-fewer calloc (suc n) bs r = (r.0, HasRoom-fewer calloc n (calloc bs ∷ bs) r.1)

-- The home at the end of the indices.
abbrev pub trail : List ℕ → List ℕ → List ℕ
trail [] at = at
trail (i ∷ is) at = trail is (i ∷ at)

-- The entries of `h` lead from table `a` along the indices to `pt`.
abbrev pub Leads : Heap → ℕ → List ℕ → ℕ → Type 0
Leads h a [] pt = a ≡ pt
Leads h a (i ∷ is) pt = (is_present64 (h.cell a i) ≡ true) × Leads h (table_addr (h.cell a i)) is pt

-- What one step or several of them reach, with room for `n` more tables.
pub record Descends (h : Heap) (home : ℕ → List ℕ) (a : ℕ) (is : List ℕ) (n : ℕ) : Type 0 where
  pub pt : ℕ
  pub after : Heap
  pub homes : ℕ → List ℕ
  pub result : descend h a is ≡ some (pt, after)
  pub keeps : Keeps h home after homes
  pub live : contains after.blocks pt ≡ true
  pub leads : Leads after a is pt
  pub at : homes pt ≡ trail is (home a)
  pub room : HasRoom after.calloc n after.blocks
