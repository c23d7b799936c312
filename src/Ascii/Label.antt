-- ===== src/Ascii/Label.antt =====
-- src/out_ascii.c and src/out_curses.c: the name of an element fits the array it is put together in.
use bmon.Prelude.{
  ℕ, zero, suc, ◌-◌, ◌≤◌, ◌≡◌, refl, sym, ap, ◌∙◌, Option, none, some, [], ◌∷◌, ◌++◌, arith,
  replicate, take, length, length-take, length-replicate,
}
use bmon.Prelude.Bytes.{Bytes, codes}
use bmon.Ascii.{strncat_pad, element_pad}

-- The whole text, however long it is.
abbrev pub full_text : ℕ → Bytes → Option Bytes → Bytes
full_text spaces name none = replicate spaces 32 ++ name
full_text spaces name (some d) = (((replicate spaces 32 ++ name) ++ codes " (") ++ d) ++ codes ")"

take-append : (n : ℕ) (xs ys : Bytes) → take n (xs ++ ys) ≡ take n xs ++ take (n - length xs) ys
take-append zero [] ys = refl
take-append zero (x ∷ xs) ys =
    let none_left : 0 - suc (length xs) ≡ 0 = omega arith in rw none_left refl
take-append (suc n) [] ys = let all_left : suc n - 0 ≡ suc n = omega arith in rw all_left refl
take-append (suc n) (x ∷ xs) ys =
    let left : suc n - suc (length xs) ≡ n - length xs = omega arith in
    rw left (ap (λ zs. x ∷ zs) (take-append n xs ys))

take-whole : (n : ℕ) (xs : Bytes) → length xs ≤ n → take n xs ≡ xs
take-whole zero [] h = refl
take-whole zero (x ∷ xs) h = ground arith
take-whole (suc n) [] h = refl
take-whole (suc n) (x ∷ xs) h = ap (λ zs. x ∷ zs) (take-whole n xs (omega arith))

-- A text that is cut to the array, and cut again behind what is added to it.
strncat_pad-take :
    (size : ℕ) (t s : Bytes) → strncat_pad size (take (size - 1) t) s ≡ take (size - 1) (t ++ s)
unfolding strncat_pad
strncat_pad-take size t s =
    let left : size - length (take (size - 1) t) - 1 ≡ size - 1 - length t =
      omega (arith, length-take (size - 1) t) in
    ap (λ n. take (size - 1) t ++ take n s) left ∙ sym (take-append (size - 1) t s)

name-take :
    (size spaces : ℕ) (name : Bytes)
    → spaces ≤ size - 1
    → strncat_pad size (replicate spaces 32) name ≡ take (size - 1) (replicate spaces 32 ++ name)
name-take size spaces name h =
    let room : length (replicate spaces 32) ≤ size - 1 =
      omega (arith, length-replicate {A = ℕ} spaces 32) in
    ap (λ p. strncat_pad size p name) (sym (take-whole (size - 1) (replicate spaces 32) room))
    ∙ strncat_pad-take size (replicate spaces 32) name

-- With an indentation that leaves a place for the NUL, the array of a name holds exactly the first
-- size - 1 bytes of the indented name with its description in parentheses, however long both are.
pub element_pad-full_text :
    (size spaces : ℕ) (name : Bytes) (description : Option Bytes)
    → spaces ≤ size - 1
    → element_pad size spaces name description ≡ take (size - 1) (full_text spaces name description)
unfolding element_pad
element_pad-full_text size spaces name none h = name-take size spaces name h
element_pad-full_text size spaces name (some d) h =
    let t = replicate spaces 32 ++ name in
    ap (λ p. strncat_pad size (strncat_pad size (strncat_pad size p (codes " (")) d) (codes ")"))
      (name-take size spaces name h)
    ∙ ap (λ p. strncat_pad size (strncat_pad size p d) (codes ")"))
        (strncat_pad-take size t (codes " ("))
    ∙ ap (λ p. strncat_pad size p (codes ")")) (strncat_pad-take size (t ++ codes " (") d)
    ∙ strncat_pad-take size ((t ++ codes " (") ++ d) (codes ")")
