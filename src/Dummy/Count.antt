-- ===== src/Dummy/Count.antt =====
-- A read of a device counts its own counters up, and no other.

use bmon.Prelude.{
  ℕ, zero, suc, ◌+◌, ◌%◌, ◌^◌, ◌<◌, ◌≡◌, refl, sym, ap, ◌∙◌, Bool, true, false, ◌&&◌, Option, some,
  List, arith, if◌then◌else◌, ◌==◌, ◌>>=◌, length, get_elem?, Bool-cases, inl, inr,
}
use bmon.Dummy.{DummyCfg, Rands, cnt_size, cnt, step, count, dummy_values}
use bmon.Dummy.Place.{cnt-inside, cnt-injective, bumped, Added, add_to-Added}

abbrev same_device : ℕ → ℕ → ℕ → ℕ → Bool
same_device g d g' d' = (g' == g) && (d' == d)

cnt-eqb :
    (cfg : DummyCfg) (g d u w g' d' u' w' : ℕ)
    → d < cfg.c_numdev
    → d' < cfg.c_numdev
    → u < 2
    → w < 2
    → u' < 2
    → w' < 2
    → (cnt cfg g' d' u' w' == cnt cfg g d u w) ≡ (same_device g d g' d' && ((u' == u) && (w' == w)))
cnt-eqb cfg g d u w g' d' u' w' hd hd' hu hw hu' hw' =
    elim (Bool-cases (cnt cfg g' d' u' w' == cnt cfg g d u w)) [
      | inl e ↦
          let same : cnt cfg g' d' u' w' ≡ cnt cfg g d u w = ground arith in
          let (a, b, c, k) = cnt-injective cfg g' d' u' w' g d u w hd' hd hu' hw' hu hw same in
          ground arith
      | inr e ↦ elim (Bool-cases (same_device g d g' d' && ((u' == u) && (w' == w)))) [
        | inl s ↦
            let a : g' ≡ g = ground arith in
            let b : d' ≡ d = ground arith in
            let c : u' ≡ u = ground arith in
            let k : w' ≡ w = ground arith in
            let same : cnt cfg g' d' u' w' ≡ cnt cfg g d u w = cc in ground arith
        | inr s ↦ e ∙ sym s
      ]
    ]

-- What an addition at the place of the counter `u`, `w` does to the counter at another place.
abbrev added_if : Bool → ℕ → Option ℕ → Option ℕ
added_if b n o = if b then bumped n o else o

Added-at :
    (i n : ℕ) (cnts : List ℕ) (a : Added i n cnts) (j : ℕ) (b : Bool)
    → (j == i) ≡ b
    → get_elem? a.after j ≡ added_if b n (get_elem? cnts j)
Added-at i n cnts a j true e =
    let same : i ≡ j = ground arith in
    ap (get_elem? a.after) (sym same) ∙ a.own ∙ ap (λ k. bumped n (get_elem? cnts k)) same
Added-at i n cnts a j false e = a.others j (ground arith)

-- The counters of all devices after a read of the device `d` of the group `g`: its four are counted up,
-- and the others are as before.
pub record AfterCount (cfg : DummyCfg) (r : Rands) (g d : ℕ) (cnts : List ℕ) : Type 0 where
  pub after : List ℕ
  pub result : count cfg r g d cnts ≡ some after
  pub sized : length after ≡ length cnts
  pub counters :
      (g' d' u w : ℕ)
      → d' < cfg.c_numdev
      → u < 2
      → w < 2
      → get_elem? after (cnt cfg g' d' u w)
        ≡ added_if (same_device g d g' d') (step cfg r u w) (get_elem? cnts (cnt cfg g' d' u w))

four :
    (cfg : DummyCfg) (r : Rands) (s : Bool) (u w : ℕ) (x : Option ℕ)
    → u < 2
    → w < 2
    → added_if (s && ((u == 1) && (w == 1))) (step cfg r 1 1) (
        added_if (s && ((u == 1) && (w == 0))) (step cfg r 1 0) (
          added_if
            (s && ((u == 0) && (w == 1)))
            (step cfg r 0 1)
            (added_if (s && ((u == 0) && (w == 0))) (step cfg r 0 0) x)))
      ≡ added_if s (step cfg r u w) x
four cfg r false u w x hu hw = refl
four cfg r true zero zero x hu hw = refl
four cfg r true zero (suc zero) x hu hw = refl
four cfg r true (suc zero) zero x hu hw = refl
four cfg r true (suc zero) (suc zero) x hu hw = refl
four cfg r true (suc (suc u)) w x hu hw = absurd (omega (arith, hu))
four cfg r true u (suc (suc w)) x hu hw = absurd (omega (arith, hw))

after_four :
    (cfg : DummyCfg) (r : Rands) (g d : ℕ) (cnts : List ℕ)
    (a : Added (cnt cfg g d 0 0) (step cfg r 0 0) cnts)
    (b : Added (cnt cfg g d 0 1) (step cfg r 0 1) a.after)
    (c : Added (cnt cfg g d 1 0) (step cfg r 1 0) b.after)
    (e : Added (cnt cfg g d 1 1) (step cfg r 1 1) c.after) (g' d' u w : ℕ)
    → d < cfg.c_numdev
    → d' < cfg.c_numdev
    → u < 2
    → w < 2
    → get_elem? e.after (cnt cfg g' d' u w)
      ≡ added_if (same_device g d g' d') (step cfg r u w) (get_elem? cnts (cnt cfg g' d' u w))
after_four cfg r g d cnts a b c e g' d' u w hd hd' hu hw =
    let j = cnt cfg g' d' u w in
    let s = same_device g d g' d' in
    let at = λ (u' w' : ℕ) (hu' : u' < 2) (hw' : w' < 2).
      cnt-eqb cfg g d u' w' g' d' u w hd hd' hu' hw' hu hw in
    Added-at _ _ _ e j _ (at 1 1 (omega arith) (omega arith))
    ∙ ap (added_if (s && ((u == 1) && (w == 1))) (step cfg r 1 1)) (
        Added-at _ _ _ c j _ (at 1 0 (omega arith) (omega arith))
        ∙ ap (added_if (s && ((u == 1) && (w == 0))) (step cfg r 1 0)) (
            Added-at _ _ _ b j _ (at 0 1 (omega arith) (omega arith))
            ∙ ap (added_if (s && ((u == 0) && (w == 1))) (step cfg r 0 1))
                (Added-at _ _ _ a j _ (at 0 0 (omega arith) (omega arith)))))
    ∙ four cfg r s u w (get_elem? cnts j) hu hw

-- Every read of a device stays inside `cnts`, and counts up the four counters of that device alone.
pub count-AfterCount :
    (cfg : DummyCfg) (r : Rands) (g d : ℕ) (cnts : List ℕ)
    → g < cfg.c_numgroups
    → d < cfg.c_numdev
    → length cnts ≡ cnt_size cfg
    → AfterCount cfg r g d cnts
unfolding count
count-AfterCount cfg r g d cnts hg hd l =
    let inside = λ (u w : ℕ) (hu : u < 2) (hw : w < 2). cnt-inside cfg g d u w hg hd hu hw in
    let a =
      add_to-Added (cnt cfg g d 0 0) (step cfg r 0 0) cnts
        (omega (arith, l, inside 0 0 (omega arith) (omega arith))) in
    let b =
      add_to-Added (cnt cfg g d 0 1) (step cfg r 0 1) a.after
        (omega (arith, l, a.sized, inside 0 1 (omega arith) (omega arith))) in
    let c =
      add_to-Added (cnt cfg g d 1 0) (step cfg r 1 0) b.after
        (omega (arith, l, a.sized, b.sized, inside 1 0 (omega arith) (omega arith))) in
    let e =
      add_to-Added (cnt cfg g d 1 1) (step cfg r 1 1) c.after
        (omega (arith, l, a.sized, b.sized, c.sized, inside 1 1 (omega arith) (omega arith))) in
    record {
      after = e.after;
      result = rw (a.result, b.result, c.result, e.result) refl;
      sized = e.sized ∙ c.sized ∙ b.sized ∙ a.sized;
      counters = λ g' d' u w hd' hu hw. after_four cfg r g d cnts a b c e g' d' u w hd hd' hu hw;
    }

own_counter :
    (cfg : DummyCfg) (r : Rands) (g d : ℕ) (cnts : List ℕ) (a : AfterCount cfg r g d cnts)
    → d < cfg.c_numdev
    → (u w v n : ℕ) → u < 2
    → w < 2
    → step cfg r u w ≡ n
    → get_elem? cnts (cnt cfg g d u w) ≡ some v
    → get_elem? a.after (cnt cfg g d u w) ≡ some ((v + n) % 2 ^ 64)
own_counter cfg r g d cnts a hd u w v n hu hw e h =
    let own : same_device g d g d ≡ true = ground arith in
    a.counters g d u w hd hu hw
    ∙ ap (λ b. added_if b (step cfg r u w) (get_elem? cnts (cnt cfg g d u w))) own
    ∙ ap (bumped (step cfg r u w)) h
    ∙ ap (λ k. some ((v + k) % 2 ^ 64)) e

constant_steps :
    (cfg : DummyCfg) (r : Rands)
    → cfg.c_randomize ≡ false
    → ((step cfg r 0 0 ≡ cfg.c_rx_p_inc) × (step cfg r 0 1 ≡ cfg.c_tx_p_inc))
      × ((step cfg r 1 0 ≡ cfg.c_rx_b_inc) × (step cfg r 1 1 ≡ cfg.c_tx_b_inc))
unfolding step
constant_steps cfg r n = ((rw n refl, rw n refl), (rw n refl, rw n refl))

-- Without `randomize`, and for a device in its bounds, the numbers that the options `rxp` and `txp` give, the increments of the packets, are counted in the
-- counters that `dummy_read` hands to the attribute of the bytes, and those of `rxb` and `txb`, the
-- increments of the bytes, in the attribute of the packets.
pub dummy_values-swapped :
    (cfg : DummyCfg) (r : Rands) (g d : ℕ) (cnts : List ℕ)
    (rx_bytes tx_bytes rx_packets tx_packets : ℕ)
    → g < cfg.c_numgroups
    → d < cfg.c_numdev
    → length cnts ≡ cnt_size cfg
    → cfg.c_randomize ≡ false
    → get_elem? cnts (cnt cfg g d 0 0) ≡ some rx_bytes
    → get_elem? cnts (cnt cfg g d 0 1) ≡ some tx_bytes
    → get_elem? cnts (cnt cfg g d 1 0) ≡ some rx_packets
    → get_elem? cnts (cnt cfg g d 1 1) ≡ some tx_packets
    → ((count cfg r g d cnts >>= dummy_values cfg g d 0)
        ≡ some ((rx_bytes + cfg.c_rx_p_inc) % 2 ^ 64, (tx_bytes + cfg.c_tx_p_inc) % 2 ^ 64))
      × ((count cfg r g d cnts >>= dummy_values cfg g d 1)
          ≡ some ((rx_packets + cfg.c_rx_b_inc) % 2 ^ 64, (tx_packets + cfg.c_tx_b_inc) % 2 ^ 64))
unfolding dummy_values
dummy_values-swapped cfg r g d cnts rb tb rp tp hg hd l n hrb htb hrp htp =
    let a = count-AfterCount cfg r g d cnts hg hd l in
    let (p, q) = constant_steps cfg r n in
    let cell = own_counter cfg r g d cnts a hd in
    let rb' = cell 0 0 _ _ (omega arith) (omega arith) p.0 hrb in
    let tb' = cell 0 1 _ _ (omega arith) (omega arith) p.1 htb in
    let rp' = cell 1 0 _ _ (omega arith) (omega arith) q.0 hrp in
    let tp' = cell 1 1 _ _ (omega arith) (omega arith) q.1 htp in
    (rw (a.result, rb', tb') refl, rw (a.result, rp', tp') refl)
