-- ===== src/Machine/Keeps.antt =====
-- Steps of the kernel that leave the process control blocks and the scheduler alone.
use os_assignment.Base.{◌≡◌, ◌∙◌, Option, none, some, Bool, true, false, if◌then◌else◌}
use os_assignment.Memphy.{Access, done, refused, fault}
use os_assignment.Machine.{Machine, Kernel, ◌>>=◌}

abbrev pub SameProcs : Machine → Machine → Type 0
SameProcs s s' = (s'.procs ≡ s.procs) × (s'.sched ≡ s.sched)

-- If there is a result, its state has the processes and the scheduler of `s`.
abbrev pub Keeps {ℓ} : {A : Type ℓ} → Machine → Option (A × Machine) → Type 0
Keeps s none = Unit
Keeps s (some (a, s')) = SameProcs s s'

Keeps-from :
    {A : Type 0} (s t : Machine) (r : Option (A × Machine)) → SameProcs s t → Keeps t r → Keeps s r
Keeps-from s t none same k = tt
Keeps-from s t (some (a, s')) same k = (k.0 ∙ same.0, k.1 ∙ same.1)

pub bind-Keeps :
    {A B : Type 0} (s : Machine) (m : Kernel A) (f : A → Kernel B)
    → Keeps s (m s)
    → ((a : A) (t : Machine) → Keeps t (f a t))
    → Keeps s ((m >>= f) s)
bind-Keeps {A} {B} s m f k l = go (m s) k
  where
    go :
        (r : Option (A × Machine))
        → Keeps s r
        → Keeps s (elim r [ none ↦ none | some (a, t) ↦ f a t ])
    go none k = tt
    go (some (a, t)) k = Keeps-from s t (f a t) k (l a t)

pub if-Keeps :
    {A : Type 0} (s : Machine) (b : Bool) (x y : Option (A × Machine))
    → Keeps s x
    → Keeps s y
    → Keeps s (if b then x else y)
if-Keeps s true x y k l = k
if-Keeps s false x y k l = l

pub option-Keeps {ℓ} :
    {X : Type ℓ} {A : Type 0} (s : Machine) (o : Option X) (x : Option (A × Machine))
    (f : X → Option (A × Machine))
    → Keeps s x
    → ((a : X) → Keeps s (f a))
    → Keeps s (elim o [ none ↦ x | some a ↦ f a ])
option-Keeps s none x f k l = k
option-Keeps s (some a) x f k l = l a

pub access-Keeps :
    {X A : Type 0} (s : Machine) (o : Access X) (f : X → Option (A × Machine))
    (x y : Option (A × Machine))
    → ((a : X) → Keeps s (f a))
    → Keeps s x
    → Keeps s y
    → Keeps s (elim o [ done a ↦ f a | refused ↦ x | fault ↦ y ])
access-Keeps s (done a) f x y k l m = k a
access-Keeps s refused f x y k l m = l
access-Keeps s fault f x y k l m = m

-- The same for a choice between two steps.
pub branch-Keeps :
    {A : Type 0} (s : Machine) (b : Bool) (m k : Kernel A)
    → Keeps s (m s)
    → Keeps s (k s)
    → Keeps s ((if b then m else k) s)
branch-Keeps s true m k p q = p
branch-Keeps s false m k p q = q

pub choice-Keeps :
    {X A : Type 0} (s : Machine) (o : Option X) (m : Kernel A) (f : X → Kernel A)
    → Keeps s (m s)
    → ((a : X) → Keeps s (f a s))
    → Keeps s ((elim o as (λ x. Kernel A) [ none ↦ m | some a ↦ f a ]) s)
choice-Keeps s none m f p q = p
choice-Keeps s (some a) m f p q = q a
