-- ===== src/Env/Tests.antt =====
-- A list with blank entries.
use go_service_template.Common.{◌≡◌, refl, [], ◌∷◌, Option, some, String, Result, ok}
use go_service_template.Common.Text.{Text, trim_space, trim_left, trim_right, is_space}
use go_service_template.Env.{parse_trimmed, add_parsed}

abbrev text : Text → Result Text
text value = ok value

abbrev no_variable : String → Option Text
no_variable key = some []

-- "a", " " and " b".
list_test :
    parse_trimmed text no_variable ((97 ∷ []) ∷ (32 ∷ []) ∷ (32 ∷ 98 ∷ []) ∷ [])
    ≡ ok ((97 ∷ []) ∷ (98 ∷ []) ∷ [])
unfolding parse_trimmed add_parsed trim_space trim_left trim_right is_space
list_test = refl
