-- ===== src/Paging/Directory/Forest.antt =====
-- The invariant of the tables: they form trees. Every table has a home, the indices that lead to
-- it from a root, last index first; so no two entries lead to the same table.
use os_assignment.Base.{
  ℕ, ◌+◌, ◌^◌, ◌<◌, ◌≡◌, ◌≢◌, ◌⊎◌, inl, inr, refl, ap, arith, List, [], ◌∷◌, length, some, true,
  false, ◌&&◌, ◌==◌, Bool-cases, bit_or, if◌then◌else◌,
}
use os_assignment.Base.Masks.{bit_and_field, bit_or_field}
use os_assignment.Paging.Directory.{
  Heap, contains, is_present64, table_addr, present64_mask, write_cell, alloc_table,
  get_next_level_table,
}

-- A present entry with an address of 48 bits.
entry-sum : (a : ℕ) → a < 2 ^ 48 → bit_or a present64_mask ≡ 2 ^ 63 + a
entry-sum a h = omega (arith, bit_or_field 63 1 a)

pub is_present64-entry : (a : ℕ) → a < 2 ^ 48 → is_present64 (bit_or a present64_mask) ≡ true
unfolding is_present64
is_present64-entry a h = rw (entry-sum a h) (ground (arith, bit_and_field 63 1 (2 ^ 63 + a)))

pub table_addr-entry : (a : ℕ) → a < 2 ^ 48 → table_addr (bit_or a present64_mask) ≡ a
unfolding table_addr
table_addr-entry a h = rw (entry-sum a h) (omega (arith, bit_and_field 0 48 (2 ^ 63 + a)))

pub is_present64-zero : is_present64 0 ≡ false
unfolding is_present64
is_present64-zero = refl

-- What is relied on of `calloc`: it returns NULL, or the address of a new block, of at most 48
-- bits as user addresses have on the machines the code is for.
abbrev pub IsCalloc : (List ℕ → ℕ) → Type 0
IsCalloc calloc =
    (bs : List ℕ) → (calloc bs ≡ 0) ⊎ ((contains bs (calloc bs) ≡ false) × (calloc bs < 2 ^ 48))

-- A table at depth 5 is a page table; the others hold addresses of tables.
pub record IsForest (h : Heap) (home : ℕ → List ℕ) : Type 0 where
  pub calloc : IsCalloc h.calloc
  pub not_null : contains h.blocks 0 ≡ false
  pub children :
      (a i : ℕ)
      → contains h.blocks a ≡ true
      → length (home a) < 5
      → is_present64 (h.cell a i) ≡ true
      → (contains h.blocks (table_addr (h.cell a i)) ≡ true)
        × (home (table_addr (h.cell a i)) ≡ i ∷ home a)

-- A page global directory.
abbrev pub IsRoot : Heap → (ℕ → List ℕ) → ℕ → Type 0
IsRoot h home a = (contains h.blocks a ≡ true) × (home a ≡ a ∷ [])

-- `h'` is `h` with a new table of zeros at `b`, entered at entry `i` of `a`.
pub record IsExtended (h : Heap) (a i b : ℕ) (h' : Heap) : Type 0 where
  pub fresh : contains h.blocks b ≡ false
  pub given : b ≡ h.calloc h.blocks
  pub address : b < 2 ^ 48
  pub real : b ≢ 0
  pub missing : is_present64 (h.cell a i) ≡ false
  pub added : h'.blocks ≡ b ∷ h.blocks
  pub same_calloc : h'.calloc ≡ h.calloc
  pub entered : h'.cell a i ≡ bit_or b present64_mask
  pub zeros : (j : ℕ) → h'.cell b j ≡ 0
  pub others : (c j : ℕ) → contains h.blocks c ≡ true → (c ≢ a) ⊎ (j ≢ i) → h'.cell c j ≡ h.cell c j

-- The three ends of a step of the descent from a table of the heap.
abbrev pub Steps : Heap → ℕ → ℕ → ℕ → Heap → Type 0
Steps h a i b h' =
    ((is_present64 (h.cell a i) ≡ true) × (b ≡ table_addr (h.cell a i)) × (h' ≡ h))
    ⊎ (((h.calloc h.blocks ≡ 0) × (b ≡ 0)) ⊎ IsExtended h a i b h')

pub ne_of_contains : (bs : List ℕ) (a b : ℕ) → contains bs a ≡ true → contains bs b ≡ false → a ≢ b
ne_of_contains bs a b h k e = let bad = ap (contains bs) e in cc

-- The heap after a new table at `b` is entered at entry `i` of `a`.
abbrev pub extended : Heap → ℕ → ℕ → ℕ → Heap
extended h a i b = record h {
  blocks = b ∷ h.blocks;
  cell = λ c j.
      if c == a && j == i then bit_or b present64_mask else (if c == b then 0 else h.cell c j);
}

extended-IsExtended :
    (h : Heap) (a i b : ℕ)
    → contains h.blocks a ≡ true
    → is_present64 (h.cell a i) ≡ false
    → contains h.blocks b ≡ false
    → b < 2 ^ 48
    → b ≢ 0
    → b ≡ h.calloc h.blocks
    → IsExtended h a i b (extended h a i b)
extended-IsExtended h a i b live missing fresh small real given = record {
  fresh = fresh;
  address = small;
  real = real;
  given = given;
  missing = missing;
  added = refl;
  same_calloc = refl;
  entered = ground arith;
  zeros = λ j. ground (arith, ne_of_contains h.blocks a b live fresh);
  others = λ c j old apart. ground (arith, ne_of_contains h.blocks c b old fresh);
}

-- Every step from a table ends in one of the three ways.
pub get_next_level_table-Steps :
    (h : Heap) (a i : ℕ)
    → IsCalloc h.calloc
    → contains h.blocks a ≡ true
    → (b : ℕ) × (h' : Heap) × (get_next_level_table h a i ≡ some (b, h')) × Steps h a i b h'
unfolding get_next_level_table write_cell alloc_table
get_next_level_table-Steps h a i calloc live = elim (Bool-cases (is_present64 (h.cell a i))) [
  | inl there ↦ (table_addr (h.cell a i), h, rw (live, there), inl (there, refl, refl))
  | inr missing ↦ elim (Bool-cases (h.calloc h.blocks == 0)) [
    | inl null ↦ (
      0,
      write_cell h a i (bit_or 0 present64_mask),
      rw (live, missing, null),
      inr (inl (ground arith, refl)),
    )
    | inr real ↦ elim (calloc h.blocks) [
      | inl null ↦ absurd (ground arith)
      | inr (fresh, small) ↦
          let b = h.calloc h.blocks in
          (
            b,
            extended h a i b,
            rw (live, missing, real),
            inr (inr (extended-IsExtended h a i b live missing fresh small (ground arith) refl)),
          )
    ]
  ]
]
