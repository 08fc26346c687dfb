-- ===== src/Util/MsgTarget/Examples.antt =====
-- Tables of a class and its parent.
use aods.Base.{List, [], none, refl, some, ℕ, ◌∷◌, ◌≡◌}
use aods.Util.MsgTarget.{MsgFun, find_in_table, find_msg_fun}

abbrev own : List (MsgFun ℕ)
own = record { fun = some 1; msg_code = 10 } ∷ record { fun = none; msg_code = 0 } ∷ []

abbrev parent : List (MsgFun ℕ)
parent = record { fun = some 2; msg_code = 10 } ∷ record { fun = some 3; msg_code = 12 } ∷ []

overriding_run : find_msg_fun 10 (own ∷ parent ∷ []) ≡ some 1
unfolding find_msg_fun find_in_table
overriding_run = refl
