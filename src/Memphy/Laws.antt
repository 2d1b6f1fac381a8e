-- ===== src/Memphy/Laws.antt =====
-- Reading and writing of a device.
use os_assignment.Base.{
  ℕ, ◌≤◌, ◌<◌, ◌≡◌, ◌≢◌, ◌⊎◌, inl, inr, refl, sym, ap, arith, ◌∙◌, length, some, get_or, set,
  length-set, get_or-set_self, get_or-set_ne, get_elem?-eq-get_or, get_elem?-none, ltb, ◌==◌,
  Bool-cases, true, false,
}
use os_assignment.Memphy.{
  Memphy, Access, done, refused, fault, load_byte, store_byte, seq_read, read, seq_write, write,
}

-- `mp'` is `mp` with byte `v` at `addr`.
pub record IsWritten (mp : Memphy) (addr v : ℕ) (mp' : Memphy) : Type 0 where
  pub self : read (some mp') addr ≡ done (v, mp')
  pub others :
      (b w : ℕ) → b ≢ addr → read (some mp) b ≡ done (w, mp) → read (some mp') b ≡ done (w, mp')
  pub size : length mp'.storage ≡ length mp.storage
  pub frames : mp'.free_fp_list ≡ mp.free_fp_list

read-random : (mp : Memphy) (a : ℕ) → mp.rdmflg ≢ 0 → read (some mp) a ≡ load_byte mp a
unfolding read
read-random mp a flag = let random : (mp.rdmflg == 0) ≡ false = ground arith in rw random

write-random : (mp : Memphy) (a v : ℕ) → mp.rdmflg ≢ 0 → write (some mp) a v ≡ store_byte mp a v
unfolding write
write-random mp a v flag = let random : (mp.rdmflg == 0) ≡ false = ground arith in rw random

pub read-inside :
    (mp : Memphy) (a : ℕ)
    → mp.rdmflg ≢ 0
    → a < length mp.storage
    → read (some mp) a ≡ done (get_or mp.storage a 0, mp)
unfolding load_byte
read-inside mp a flag h =
    read-random mp a flag ∙ rw (get_elem?-eq-get_or mp.storage a 0 h, load_byte)

read-outside :
    (mp : Memphy) (a : ℕ) → mp.rdmflg ≢ 0 → length mp.storage ≤ a → read (some mp) a ≡ fault
unfolding load_byte
read-outside mp a flag h = read-random mp a flag ∙ rw (get_elem?-none mp.storage a h, load_byte)

done-value :
    {mp mp' : Memphy} {v w : ℕ}
    → ◌≡◌ {A = Access (ℕ × Memphy)} (done (v, mp)) (done (w, mp'))
    → v ≡ w
done-value {mp} {mp'} {v} {w} e = ap first e
  where
    first : Access (ℕ × Memphy) → ℕ
    first (done p) = p.0
    first refused = v
    first fault = v

-- `mp` with byte `v` at `addr`.
abbrev pub stored : Memphy → ℕ → ℕ → Memphy
stored mp addr v = record mp { storage = set mp.storage addr v }

pub write-inside :
    (mp : Memphy) (addr v : ℕ)
    → mp.rdmflg ≢ 0
    → addr < length mp.storage
    → write (some mp) addr v ≡ done (stored mp addr v)
unfolding store_byte
write-inside mp addr v flag h =
    let inside : ltb addr (length mp.storage) ≡ true = ground arith in
    write-random mp addr v flag ∙ rw inside

stored-IsWritten :
    (mp : Memphy) (addr v : ℕ)
    → mp.rdmflg ≢ 0
    → addr < length mp.storage
    → IsWritten mp addr v (stored mp addr v)
stored-IsWritten mp addr v flag h = record {
  self =
      let l = length-set mp.storage addr v in
      read-inside (stored mp addr v) addr flag (omega arith)
      ∙ ap (λ w. done (w, stored mp addr v)) (get_or-set_self mp.storage addr v 0 h);
  others = λ b w apart e.
      let l = length-set mp.storage addr v in
      elim (Bool-cases (ltb b (length mp.storage))) [
        | inl inside ↦
            read-inside (stored mp addr v) b flag (ground arith)
            ∙ ap (λ u. done (u, stored mp addr v))
                (get_or-set_ne mp.storage addr b v 0 (λ q. apart (sym q))
                  ∙ done-value (sym (read-inside mp b flag (ground arith)) ∙ e))
        | inr outside ↦ let clash = sym (read-outside mp b flag (ground arith)) ∙ e in absurd cc
      ];
  size = length-set mp.storage addr v;
  frames = refl;
}

-- A write to a device with random access: inside the storage it succeeds, the byte is then read at
-- that address, every other address reads as before, and size and free frames stay; at any other
-- address the C code leaves the storage.
pub write_lem :
    (mp : Memphy) (addr v : ℕ)
    → mp.rdmflg ≢ 0
    → ((addr < length mp.storage)
        × ((mp' : Memphy) × (write (some mp) addr v ≡ done mp') × IsWritten mp addr v mp'))
      ⊎ ((length mp.storage ≤ addr) × (write (some mp) addr v ≡ fault))
unfolding store_byte
write_lem mp addr v flag = elim (Bool-cases (ltb addr (length mp.storage))) [
  | inl inside ↦ inl (
    ground arith,
    (
      stored mp addr v,
      write-inside mp addr v flag (ground arith),
      stored-IsWritten mp addr v flag (ground arith),
    ),
  )
  | inr outside ↦ inr (ground arith, write-random mp addr v flag ∙ rw outside)
]

-- A device with sequential access, whose `rdmflg` is 0, refuses every read and every write: the
-- sequential routines that the accesses are passed on to ask for random access as well.
pub sequential-refused :
    (mp : Memphy) (addr v : ℕ)
    → mp.rdmflg ≡ 0
    → (read (some mp) addr ≡ refused) × (write (some mp) addr v ≡ refused)
unfolding read seq_read write seq_write
sequential-refused mp addr v e =
    let flag : (mp.rdmflg == 0) ≡ true = ground arith in (rw flag, rw flag)
