-- ===== src/Format/Quit.antt =====
-- The option `quitafter` of the outputs.
use bmon.Prelude.{
  ℕ, zero, suc, ◌-◌, ◌≡◌, refl, ◌∙◌, Option, none, some, arith, if◌then◌else◌, ltb, ◌>>=◌,
}
use bmon.Prelude.Int.{ℤ, pos, negsuc}
use bmon.Format.{quit_after}

-- The number after `n` drawings; `none` once the program has ended.
unfoldable pub drawings : ℕ → ℤ → Option ℤ
unfolding quit_after
drawings zero q = some q
drawings (suc n) q = quit_after q >>= drawings n

drawings-positive :
    (n q : ℕ) → drawings n (pos (suc q)) ≡ (if ltb n (suc q) then some (pos (suc q - n)) else none)
unfolding drawings quit_after
drawings-positive zero q = ground arith
drawings-positive (suc n) zero = ground arith
drawings-positive (suc n) (suc q) =
    let e : suc (suc q) - suc n ≡ suc q - n = omega arith in
    drawings-positive n q ∙ rw e (ground arith)

drawings-negative : (n q : ℕ) → drawings n (negsuc q) ≡ some (negsuc q)
unfolding drawings quit_after
drawings-negative zero q = refl
drawings-negative (suc n) q = drawings-negative n q

-- With `quitafter=NUM` the program ends with the drawing of that number, and not before; with a number
-- below 0, as it is by default, it never ends.
pub drawings-quit_after :
    (n q : ℕ)
    → (drawings n (pos (suc q)) ≡ (if ltb n (suc q) then some (pos (suc q - n)) else none))
      × (drawings n (negsuc q) ≡ some (negsuc q))
drawings-quit_after n q = (drawings-positive n q, drawings-negative n q)
