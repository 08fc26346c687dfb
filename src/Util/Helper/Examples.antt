-- ===== src/Util/Helper/Examples.antt =====
-- Runs of the helpers, and their laws at concrete buffers.
use aods.Base.{[], arith, codes, refl, ◌∷◌, ◌≡◌}
use aods.Util.Helper.{get_hex_data, get_hex_string, toupper, upper_char}
use aods.Util.Helper.Laws.{get_hex_data-get_hex_string}

upper_run : toupper (codes "aB9") ≡ codes "AB9"
unfolding toupper upper_char
upper_run = refl

get_hex_data-get_hex_string_example : get_hex_data (get_hex_string (1 ∷ 171 ∷ [])) ≡ 1 ∷ 171 ∷ []
get_hex_data-get_hex_string_example =
    get_hex_data-get_hex_string (1 ∷ 171 ∷ []) (omega arith) (omega arith)
