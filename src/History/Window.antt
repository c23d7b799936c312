-- ===== src/History/Window.antt =====
-- The ring of samples read backwards from the index, as the graphs read it (`fill_table` of
-- src/graph.c), is a queue of the newest samples: storing one puts it in front and drops the oldest.
use bmon.Prelude.{
  ℕ, zero, suc, ◌+◌, ◌-◌, ◌≤◌, ◌<◌, ◌≡◌, ◌≢◌, refl, List, [], ◌∷◌, arith, if◌then◌else◌, ◌==◌, ltb,
  length, set, get_or, take, ap, ◌∙◌, sym,
}
use mathlib.Core.Path.{ap₂}

-- `if (--n < 0) n = size - 1;`
abbrev pub back : ℕ → ℕ → ℕ
back size n = if n == 0 then size - 1 else n - 1

-- The index after a store (`inc_history_index`).
abbrev pub forth : ℕ → ℕ → ℕ
forth size n = if ltb (n + 1) size then n + 1 else 0

-- The `m` newest samples before index `n`, newest first.
abbrev pub window : List ℕ → ℕ → ℕ → ℕ → List ℕ
window samples size n zero = []
window samples size n (suc m) = get_or samples (back size n) 0 ∷ window samples size (back size n) m

get_or-set_self : (xs : List ℕ) (i v : ℕ) → i < length xs → get_or (set xs i v) i 0 ≡ v
get_or-set_self [] i v h = absurd (omega arith)
get_or-set_self (x ∷ xs) zero v h = refl
get_or-set_self (x ∷ xs) (suc i) v h = get_or-set_self xs i v (omega arith)

get_or-set_ne : (xs : List ℕ) (i j v : ℕ) → i ≢ j → get_or (set xs i v) j 0 ≡ get_or xs j 0
get_or-set_ne [] i j v h = refl
get_or-set_ne (x ∷ xs) zero zero v h = absurd (h refl)
get_or-set_ne (x ∷ xs) zero (suc j) v h = refl
get_or-set_ne (x ∷ xs) (suc i) zero v h = refl
get_or-set_ne (x ∷ xs) (suc i) (suc j) v h = get_or-set_ne xs i j v (λ e. h (ap suc e))

pub back-lt : (size n : ℕ) → n < size → back size n < size
back-lt size n h = ground arith

back-forth : (size n : ℕ) → n < size → back size (forth size n) ≡ n
back-forth size n h = ground arith

-- How many steps back lead from `n` to `i`, round the ring.
abbrev dist : ℕ → ℕ → ℕ → ℕ
dist size n i = if ltb i n then n - i else n + size - i

dist-back :
    (size n i : ℕ)
    → n < size
    → i < size
    → 1 < dist size n i
    → dist size (back size n) i + 1 ≡ dist size n i
dist-back size n i h k p = ground arith

-- A window that does not reach index `i` is not changed by a write there.
window-set :
    (samples : List ℕ) (size i v m n : ℕ)
    → n < size
    → i < size
    → m < dist size n i
    → window (set samples i v) size n m ≡ window samples size n m
window-set samples size i v zero n hn hi h = refl
window-set samples size i v (suc m) n hn hi h =
    ap₂ ◌∷◌ (get_or-set_ne samples i (back size n) v (ground arith)) (
      window-set samples size i v m (back size n) (back-lt size n hn) hi
        (omega (arith, dist-back size n i hn hi)))

pub take-window :
    (samples : List ℕ) (size m k n : ℕ)
    → m ≤ k
    → take m (window samples size n k) ≡ window samples size n m
take-window samples size zero k n h = refl
take-window samples size (suc m) zero n h = absurd (omega arith)
take-window samples size (suc m) (suc k) n h =
    ap (λ (l : List ℕ). get_or samples (back size n) 0 ∷ l)
      (take-window samples size m k (back size n) (omega arith))

window-store_suc :
    (samples : List ℕ) (size n v m : ℕ)
    → length samples ≡ size
    → n < size
    → m < size
    → window (set samples n v) size (forth size n) (suc m) ≡ v ∷ window samples size n m
window-store_suc samples size n v m hl hn hm = rw (back-forth size n hn) (
    ap₂ ◌∷◌ (get_or-set_self samples n v (omega arith))
      (window-set samples size n v m n hn hn (ground arith)))

-- Storing a sample at the index and moving the index on puts it in front of the newest samples, and
-- drops the oldest of them.
pub window-store :
    (samples : List ℕ) (size n v k : ℕ)
    → length samples ≡ size
    → n < size
    → k ≤ size
    → window (set samples n v) size (forth size n) k ≡ take k (v ∷ window samples size n size)
window-store samples size n v zero hl hn hk = refl
window-store samples size n v (suc m) hl hn hk =
    window-store_suc samples size n v m hl hn hk
    ∙ ap (λ (l : List ℕ). v ∷ l) (sym (take-window samples size m size n (omega arith)))
