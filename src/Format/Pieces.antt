-- ===== src/Format/Pieces.antt =====
-- What a format string means, without the tokens: its bytes and its fields.

use bmon.Prelude.{ℕ, ◌≡◌, ◌≢◌, Option, none, some, List, [], ◌∷◌, ◌++◌}
use bmon.Prelude.Bytes.{Bytes}
use bmon.Conf.Pieces.{Without}
use bmon.Format.{escape, or_nothing}

pub data Piece : Type 0 where
  byte : ℕ → Piece
  field : Bytes → Piece

-- What stands behind the byte makes it neither the begin of a field nor that of an escape sequence.
abbrev pub IsText : ℕ → Bytes → Type 0
IsText c [] = Unit
IsText c (d ∷ s) = (c ≡ b'$' → d ≢ b'(') × (c ≡ b'\\' → escape d ≡ none)

-- The pieces of a format string.
pub data Means : Bytes → List Piece → Type 0 where
  end : Means [] []
  a_field :
      {name rest : Bytes} {ps : List Piece}
      → Without b')' name
      → Means rest ps
      → Means (b'$' ∷ b'(' ∷ name ++ b')' ∷ rest) (field name ∷ ps)
  an_escape :
      {d x : ℕ} {rest : Bytes} {ps : List Piece}
      → escape d ≡ some x
      → Means rest ps
      → Means (b'\\' ∷ d ∷ rest) (byte x ∷ ps)
  a_text :
      {c : ℕ} {rest : Bytes} {ps : List Piece}
      → IsText c rest
      → Means rest ps
      → Means (c ∷ rest) (byte c ∷ ps)

-- A field of the format string is not closed.
pub data Unclosed : Bytes → Type 0 where
  here : (name : Bytes) → Without b')' name → Unclosed (b'$' ∷ b'(' ∷ name)
  behind_field :
      (name rest : Bytes)
      → Without b')' name
      → Unclosed rest
      → Unclosed (b'$' ∷ b'(' ∷ name ++ b')' ∷ rest)
  behind_escape :
      {d x : ℕ} {rest : Bytes} → escape d ≡ some x → Unclosed rest → Unclosed (b'\\' ∷ d ∷ rest)
  behind_text : {c : ℕ} {rest : Bytes} → IsText c rest → Unclosed rest → Unclosed (c ∷ rest)

-- The text that pieces stand for, where `get` is the text of a field.
unfoldable pub render : (Bytes → Option Bytes) → List Piece → Bytes
render get [] = []
render get (byte c ∷ ps) = c ∷ render get ps
render get (field name ∷ ps) = or_nothing (get name) ++ render get ps
