-- ===== src/Paging/Directory/Write.antt =====
-- Writing an entry of a page table: what is read afterwards.
use os_assignment.Base.{
  ℕ, ◌+◌, ◌<◌, ◌≡◌, ◌≢◌, ◌⊎◌, inl, inr, refl, sym, ap, subst, ◌∙◌, arith, List, [], ◌∷◌, length,
  some, true, Bool-cases,
}
use os_assignment.Paging.Directory.{
  Heap, contains, is_present64, table_addr, lookup_entry, write_cell,
}
use os_assignment.Paging.Directory.Forest.{IsForest}
use os_assignment.Paging.Directory.Descent.{trail, Leads}

-- What is read along the indices that lead to `pt`.
pub lookup-Leads :
    (is : List ℕ) (h : Heap) (home : ℕ → List ℕ) (a pt j : ℕ)
    → IsForest h home
    → contains h.blocks a ≡ true
    → length (home a) + length is ≡ 5
    → Leads h a is pt
    → lookup_entry h a is j ≡ some (h.cell pt j)
unfolding lookup_entry
lookup-Leads [] h home a pt j f live depth e = rw (live, e)
lookup-Leads (i ∷ is) h home a pt j f live depth (there, leads) =
    let (inside, at) = f.children a i live (omega arith) there in
    rw (live, there)
      (lookup-Leads is h home (table_addr (h.cell a i)) pt j f inside
        (omega (arith, ap (λ (t : List ℕ). length t) at)) leads)

module _ (h : Heap) (home : ℕ → List ℕ) (pt j v : ℕ) (f : IsForest h home)
    (live : contains h.blocks pt ≡ true) (bottom : length (home pt) ≡ 5) where
  abbrev pub written : Heap
  written = write_cell h pt j v

  pub blocks-written : (c : ℕ) → contains written.blocks c ≡ contains h.blocks c
  unfolding write_cell
  blocks-written c = refl

  pub cell-written : written.cell pt j ≡ v
  unfolding write_cell
  cell-written = ground arith

  cell-written_ne : (c k : ℕ) → (c ≢ pt) ⊎ (k ≢ j) → written.cell c k ≡ h.cell c k
  unfolding write_cell
  cell-written_ne c k apart = ground arith

  -- The tables above the page tables are not written.
  cell-upper : (c k : ℕ) → length (home c) < 5 → written.cell c k ≡ h.cell c k
  cell-upper c k n =
      cell-written_ne c k (inl λ e. let same = ap (λ t. length (home t)) e in omega arith)

  pub written-IsForest : IsForest written home
  unfolding write_cell
  written-IsForest = record {
    calloc = f.calloc;
    not_null = f.not_null;
    children = λ c k l n p.
        let same = cell-upper c k n in
        let (inside, at) = f.children c k l n (sym (ap is_present64 same) ∙ p) in
        (
          ap (λ t. contains h.blocks (table_addr t)) same ∙ inside,
          ap (λ t. home (table_addr t)) same ∙ at,
        );
  }

  pub Leads-written :
      (is : List ℕ) (c : ℕ)
      → contains h.blocks c ≡ true
      → length (home c) + length is ≡ 5
      → Leads h c is pt
      → Leads written c is pt
  Leads-written [] c l n e = e
  Leads-written (i ∷ is) c l n (there, leads) =
      let same = cell-upper c i (omega arith) in
      let (inside, at) = f.children c i l (omega arith) there in
      (
        ap is_present64 same ∙ there,
        subst (λ t. Leads written (table_addr t) is pt) (sym same)
            (Leads-written is (table_addr (h.cell c i)) inside
              (omega (arith, ap (λ (t : List ℕ). length t) at)) leads),
      )

  -- A read that ends at another table or at another entry of this one is as before.
  pub lookup-written_ne :
      (is : List ℕ) (c k : ℕ)
      → contains h.blocks c ≡ true
      → length (home c) + length is ≡ 5
      → (trail is (home c) ≢ home pt) ⊎ (k ≢ j)
      → lookup_entry written c is k ≡ lookup_entry h c is k
  unfolding lookup_entry
  lookup-written_ne [] c k l n (inl apart) =
      rw (blocks-written c, l, cell-written_ne c k (inl (λ e. apart (ap home e))))
  lookup-written_ne [] c k l n (inr apart) =
      rw (blocks-written c, l, cell-written_ne c k (inr apart))
  lookup-written_ne (i ∷ is) c k l n apart =
      let same = cell-upper c i (omega arith) in
      elim (Bool-cases (is_present64 (h.cell c i))) [
        | inr gone ↦ rw (blocks-written c, l, same, gone)
        | inl there ↦
            let (inside, at) = f.children c i l (omega arith) there in
            rw (blocks-written c, l, same, there)
              (lookup-written_ne is (table_addr (h.cell c i)) k inside
                (omega (arith, ap (λ (t : List ℕ). length t) at))
                (subst (λ t. (trail is t ≢ home pt) ⊎ (k ≢ j)) (sym at) apart))
      ]
