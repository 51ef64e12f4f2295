-- ===== src/Prelude/Plain.antt =====
-- Texts that stand for themselves between the quotes of a JSON string: no control character, no quote
-- and no backslash.
use Prim.Native.Nat.{ℕ}
use Prim.Native.Char.{code}
use Prim.Native.String.{String, [], ◌∷◌}
use mathlib.Core.Bool.{Bool, true, not, ◌&&◌}
use tink.Prelude.Tests.{ltb, ◌==◌}

abbrev is_plain_code : ℕ → Bool
is_plain_code c = not (ltb c 32) && not (c == 34) && not (c == 92)

unfoldable pub is_plain : String → Bool
is_plain [] = true
is_plain (c ∷ s) = is_plain_code (code c) && is_plain s
