-- ===== src/Db/Template/Text.antt =====
-- What the table `template` asks of a name (db/migration), and `strings.ReplaceAll(name, "*", "%")`.
use Prim.Native.Nat.{ℕ}
use Prim.Native.Char.{code}
use Prim.Native.String.{String, [], ◌∷◌, ◌++◌, count}
use tink.Prelude.{Bool, true, ◌&&◌, ◌||◌, leb, ◌==◌, if◌then◌else◌}

abbrev between : ℕ → ℕ → ℕ → Bool
between a b c = leb a c && leb c b

-- a letter, a digit, an underscore or a dash
abbrev is_name_code : ℕ → Bool
is_name_code c = between 97 122 c || between 65 90 c || between 48 57 c || c == 95 || c == 45

unfoldable pub has_name_codes : String → Bool
has_name_codes [] = true
has_name_codes (c ∷ s) = is_name_code (code c) && has_name_codes s

-- VARCHAR(200) and the constraint ck_name
unfoldable pub is_template_name : String → Bool
unfolding has_name_codes
is_template_name name = leb (count name) 200 && has_name_codes name

-- strings.ReplaceAll(name, "*", "%")
unfoldable pub replace_stars : String → String
replace_stars [] = []
replace_stars (c ∷ s) = if code c == 42 then "%" ++ replace_stars s else c ∷ replace_stars s
