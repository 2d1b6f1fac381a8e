-- ===== src/Paging/Directory/Arrival.antt =====
-- With room for the tables it needs, the descent arrives at a page table.
use os_assignment.Base.{
  ℕ, suc, ◌+◌, ◌<◌, ◌≡◌, inl, inr, refl, sym, ap, ap₂, subst, ◌∙◌, arith, List, [], ◌∷◌, length,
  some, true,
}
use os_assignment.Paging.Directory.{
  Heap, contains, is_present64, table_addr, descend, get_next_level_table,
}
use os_assignment.Paging.Directory.Forest.{
  IsForest, Steps, is_present64-entry, table_addr-entry, get_next_level_table-Steps,
}
use os_assignment.Paging.Directory.Descent.{
  Keeps, Keeps-refl, Keeps-trans, HasRoom, HasRoom-fewer, trail, Leads, Descends, settle,
  settle-new, contains-new, extended-Keeps,
}

-- One step from a table: the table below it, and the heap then.
record Arrives (h : Heap) (home : ℕ → List ℕ) (a i n : ℕ) : Type 0 where
  below : ℕ
  after : Heap
  homes : ℕ → List ℕ
  result : get_next_level_table h a i ≡ some (below, after)
  keeps : Keeps h home after homes
  live : contains after.blocks below ≡ true
  at : homes below ≡ i ∷ home a
  present : is_present64 (after.cell a i) ≡ true
  target : table_addr (after.cell a i) ≡ below
  room : HasRoom after.calloc n after.blocks

next-Arrives :
    (h : Heap) (home : ℕ → List ℕ) (a i n : ℕ)
    → IsForest h home
    → contains h.blocks a ≡ true
    → length (home a) < 5
    → HasRoom h.calloc (suc n) h.blocks
    → Arrives h home a i n
next-Arrives h home a i n f live upper room =
    let (b, h', e, ends) = get_next_level_table-Steps h a i f.calloc live in go b h' e ends
  where
    go :
        (b : ℕ) (h' : Heap)
        → get_next_level_table h a i ≡ some (b, h')
        → Steps h a i b h'
        → Arrives h home a i n
    go b h' e (inl (there, at, same)) = record {
      below = table_addr (h.cell a i);
      after = h;
      homes = home;
      result = e ∙ ap some (ap₂ (λ (t : ℕ) (k : Heap). (t, k)) at same);
      keeps = Keeps-refl h home f;
      live = (f.children a i live upper there).0;
      at = (f.children a i live upper there).1;
      present = there;
      target = refl;
      room = HasRoom-fewer h.calloc n h.blocks room;
    }
    go b h' e (inr (inl (null, at))) = absurd (room.0 null)
    go b h' e (inr (inr x)) = record {
      below = b;
      after = h';
      homes = settle home a i b;
      result = e;
      keeps = extended-Keeps h home a i b h' f live upper x;
      live = contains-new h home a i b h' f live upper x;
      at = settle-new h home a i b h' f live upper x;
      present = ap is_present64 x.entered ∙ is_present64-entry b x.address;
      target = ap table_addr x.entered ∙ table_addr-entry b x.address;
      room = rw (x.same_calloc, x.added, x.given) room.1;
    }

Leads-Keeps :
    (h : Heap) (home : ℕ → List ℕ) (h' : Heap) (home' : ℕ → List ℕ) (a i : ℕ) (is : List ℕ)
    (below pt : ℕ)
    → Keeps h home h' home'
    → contains h.blocks a ≡ true
    → length (home a) < 5
    → is_present64 (h.cell a i) ≡ true
    → table_addr (h.cell a i) ≡ below
    → Leads h' below is pt
    → Leads h' a (i ∷ is) pt
Leads-Keeps h home h' home' a i is below pt k live upper present target leads =
    let same = k.entries a i live upper present in
    (
      ap is_present64 same ∙ present,
      subst (λ t. Leads h' t is pt) (sym (ap table_addr same ∙ target)) leads,
    )

descend-cons :
    (h : Heap) (a i : ℕ) (is : List ℕ) (b : ℕ) (h' : Heap)
    → get_next_level_table h a i ≡ some (b, h')
    → descend h a (i ∷ is) ≡ descend h' b is
unfolding descend
descend-cons h a i is b h' e = rw (e, descend) refl

-- From a table at depth d the descent along 5 - d indices arrives, and leaves room for `n` tables.
pub descend-Descends :
    (is : List ℕ) (h : Heap) (home : ℕ → List ℕ) (a n : ℕ)
    → IsForest h home
    → contains h.blocks a ≡ true
    → length (home a) + length is ≡ 5
    → HasRoom h.calloc (length is + n) h.blocks
    → Descends h home a is n
unfolding descend
descend-Descends [] h home a n f live depth room = record {
  pt = a;
  after = h;
  homes = home;
  result = refl;
  keeps = Keeps-refl h home f;
  live = live;
  leads = refl;
  at = refl;
  room = let count : 0 + n ≡ n = omega arith in subst (λ k. HasRoom h.calloc k h.blocks) count room;
}
descend-Descends (i ∷ is) h home a n f live depth room =
    let count : length (i ∷ is) + n ≡ suc (length is + n) = omega arith in
    let room' = subst (λ k. HasRoom h.calloc k h.blocks) count room in
    let s = next-Arrives h home a i (length is + n) f live (omega arith) room' in
    let r =
      descend-Descends is s.after s.homes s.below n s.keeps.forest s.live
        (omega (arith, ap (λ (t : List ℕ). length t) s.at)) s.room in
    record {
      pt = r.pt;
      after = r.after;
      homes = r.homes;
      result = descend-cons h a i is s.below s.after s.result ∙ r.result;
      keeps = Keeps-trans h s.after r.after home s.homes r.homes s.keeps r.keeps;
      live = r.live;
      leads =
          Leads-Keeps s.after s.homes r.after r.homes a i is s.below r.pt r.keeps
            (s.keeps.blocks a live)
            (subst (λ (t : List ℕ). length t < 5) (sym (s.keeps.homes a live)) (omega arith))
            s.present s.target r.leads;
      at = r.at ∙ ap (trail is) s.at;
      room = r.room;
    }
