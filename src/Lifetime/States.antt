-- ===== src/Lifetime/States.antt =====
-- The states that objects and tasks name, as lists: which are in range, and that none stands twice among
-- the tasks of src/KeePassKeyWin.Provider/src/com/exe_server.rs.
use kee_pass_key_win.Prelude.{
  ℕ, zero, suc, ◌≤◌, ◌<◌, ◌≡◌, ap, refl, arith, none, some, List, [], ◌∷◌, get_elem?, set, without,
}
use kee_pass_key_win.Lifetime.{Lent}

-- The state of an object, unless it was freed, is one of the first `n`.
abbrev pub Within : ℕ → Lent → Type 0
Within n l = elim l.object [ none ↦ Unit | some o ↦ o.state < n ]

abbrev pub AllWithin : ℕ → List Lent → Type 0
AllWithin n [] = Unit
AllWithin n (l ∷ ls) = Within n l × AllWithin n ls

-- States below `n`, each below the one before it.
abbrev pub Descending : ℕ → List ℕ → Type 0
Descending n [] = Unit
Descending n (t ∷ ts) = (t < n) × Descending t ts

pub AllWithin-get :
    (n : ℕ) (ls : List Lent) (i : ℕ) (l : Lent)
    → AllWithin n ls
    → get_elem? ls i ≡ some l
    → Within n l
AllWithin-get n [] i l h e = ground arith
AllWithin-get n (k ∷ ls) zero l h e = ground arith
AllWithin-get n (k ∷ ls) (suc i) l h e = AllWithin-get n ls i l h.1 e

pub AllWithin-set :
    (n : ℕ) (ls : List Lent) (i : ℕ) (l : Lent)
    → AllWithin n ls
    → Within n l
    → AllWithin n (set ls i l)
AllWithin-set n [] i l h k = tt
AllWithin-set n (m ∷ ls) zero l h k = (k, h.1)
AllWithin-set n (m ∷ ls) (suc i) l h k = (h.0, AllWithin-set n ls i l h.1 k)

pub AllWithin-grow : (n m : ℕ) (ls : List Lent) → n ≤ m → AllWithin n ls → AllWithin m ls
AllWithin-grow n m [] k h = tt
AllWithin-grow n m (l ∷ ls) k h = (ground (arith, h.0), AllWithin-grow n m ls k h.1)

pub Descending-grow : (n m : ℕ) (ts : List ℕ) → n ≤ m → Descending n ts → Descending m ts
Descending-grow n m [] k h = tt
Descending-grow n m (t ∷ ts) k h = (omega (arith, h.0), h.1)

pub Descending-without : (n i : ℕ) (ts : List ℕ) → Descending n ts → Descending n (without i ts)
Descending-without n i [] h = tt
Descending-without n zero (t ∷ ts) h = Descending-grow t n ts (omega (arith, h.0)) h.1
Descending-without n (suc i) (t ∷ ts) h = (h.0, Descending-without t i ts h.1)

pub Descending-get : (n i a : ℕ) (ts : List ℕ) → Descending n ts → get_elem? ts i ≡ some a → a < n
Descending-get n i a [] h e = ground arith
Descending-get n zero a (t ∷ ts) h e = ground (arith, h.0)
Descending-get n (suc i) a (t ∷ ts) h e = omega (arith, h.0, Descending-get t i a ts h.1 e)

-- No state stands there twice.
pub Descending-distinct :
    (n i j a : ℕ) (ts : List ℕ)
    → Descending n ts
    → get_elem? ts i ≡ some a
    → get_elem? ts j ≡ some a
    → i ≡ j
Descending-distinct n i j a [] h e f = ground arith
Descending-distinct n zero zero a (t ∷ ts) h e f = refl
Descending-distinct n zero (suc j) a (t ∷ ts) h e f = ground (arith, Descending-get t j a ts h.1 f)
Descending-distinct n (suc i) zero a (t ∷ ts) h e f = ground (arith, Descending-get t i a ts h.1 e)
Descending-distinct n (suc i) (suc j) a (t ∷ ts) h e f =
    ap suc (Descending-distinct t i j a ts h.1 e f)
