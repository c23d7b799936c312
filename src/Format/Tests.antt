-- ===== src/Format/Tests.antt =====
-- Format strings at concrete values.

use bmon.Prelude.{◌≡◌, refl, [], ◌∷◌, arith}
use bmon.Prelude.Bytes.{Bytes, codes}
use bmon.Format.{probed, string_at, token_at, format_probe}
use bmon.Format.Tokens.{ProbeOutcome, format_probe-ProbeOutcome}

abbrev fmt : Bytes
fmt = codes "a$(id)b\\n$"

tokens_of_fmt :
    format_probe fmt
    ≡ probed
        (b'a' ∷ 0 ∷ b'(' ∷ b'i' ∷ b'd' ∷ 0 ∷ b'b' ∷ 0 ∷ 10 ∷ b'$' ∷ [])
        (string_at 0 ∷ token_at 3 ∷ string_at 6 ∷ string_at 8 ∷ [])
unfolding format_probe
tokens_of_fmt = refl

format_probe-ProbeOutcome_example : ProbeOutcome fmt (format_probe fmt)
format_probe-ProbeOutcome_example = format_probe-ProbeOutcome fmt (ground arith)
