-- ===== src/Config/Lines.antt =====
-- The lines of a config file: what src/config/config_loader.cpp trims, splits and reads.
use Prim.Native.Char.{Char, code}
use wall.Fields.{cut_at, split_on, ◌>>=◌}
use wall.Prelude.{
  Bool, List, Option, String, [], false, if◌then◌else◌, none, some, ℕ, ◌==◌, ◌||◌, ◌∷◌,
}
use wall.Prelude.Dict.{Dict, insert}
use wall.Prelude.Text.{is_empty}

-- " \t\r\n"
abbrev pub is_blank : ℕ → Bool
is_blank c = c == b' ' || (c == b'\t' || (c == b'\r' || c == b'\n'))

unfoldable pub skip_blanks : String → String
skip_blanks String.[] = ""
skip_blanks (String.◌∷◌ c s) =
    let rest = skip_blanks s in if is_blank (code c) then rest else String.◌∷◌ c s

-- What is left up to the last character that is no blank.
abbrev pub keep : Char → String → String
keep c String.[] = if is_blank (code c) then "" else String.◌∷◌ c ""
keep c (String.◌∷◌ d s) = String.◌∷◌ c (String.◌∷◌ d s)

unfoldable pub drop_blanks : String → String
drop_blanks String.[] = ""
drop_blanks (String.◌∷◌ c s) = keep c (drop_blanks s)

unfoldable pub trim : String → String
unfolding skip_blanks drop_blanks
trim s = drop_blanks (skip_blanks s)

unfoldable pub trimmed_items : List String → List String
unfolding trim
trimmed_items [] = []
trimmed_items (s ∷ ss) =
    let rest = trimmed_items ss in if is_empty (trim s) then rest else trim s ∷ rest

unfoldable pub split_csv : String → List String
unfolding trimmed_items split_on
split_csv s = trimmed_items (split_on b',' s)

abbrev pub is_comment : String → Bool
is_comment String.[] = false
is_comment (String.◌∷◌ c s) = code c == b'#'

abbrev pub assign_line : Option (String × String) → Dict String → Option (Dict String)
assign_line none d = none
assign_line (some (key, value)) d = some (insert (trim key) (trim value) d)

-- The first step of `load_from_file`; a line without `=` throws.
unfoldable pub read_line : String → Dict String → Option (Dict String)
unfolding trim cut_at
read_line l d =
    if is_empty (trim l) || is_comment (trim l)
    then some d
    else assign_line (cut_at b'=' (trim l)) d

unfoldable pub read_config_lines : List String → Dict String → Option (Dict String)
unfolding read_line
read_config_lines [] d = some d
read_config_lines (l ∷ ls) d = do d' ← read_line l d; read_config_lines ls d'
