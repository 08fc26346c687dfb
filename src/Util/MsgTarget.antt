-- ===== src/Util/MsgTarget.antt =====
-- `CMsgTarget::FindMsgFunByMsgCode` (src/dev/util/MsgTarget.h, MsgTarget.cpp): the handler of a
-- message, by the tables of a class and of the classes above it.
mod Examples
use aods.Base.{
  Bool, List, Option, [], arith, false, if◌then◌else◌, none, refl, some, true, ℕ, ◌++◌, ◌==◌, ◌||◌,
  ◌∷◌, ◌≡◌,
}

-- MSG_FUN; the handler is `none` for NULL.
pub record MsgFun (F : Type 0) : Type 0 where
  pub fun : Option F
  pub msg_code : ℕ

module _ {F : Type 0} where
  abbrev pub is_null : Option F → Bool
  is_null none = true
  is_null (some f) = false

  -- The loop over one table, up to the entry of zeros or past its end.
  unfoldable pub find_in_table : ℕ → List (MsgFun F) → Option F
  find_in_table code [] = none
  find_in_table code (e ∷ table) =
      if (e.msg_code == 0) || is_null e.fun
      then none
      else if e.msg_code == code
      then e.fun
      else find_in_table code table

  abbrev pub or_else : Option F → Option F → Option F
  or_else none o = o
  or_else (some f) o = some f

  -- `FindMsgFunByMsgCode`, with the table of the class first and those above it behind.
  unfoldable pub find_msg_fun : ℕ → List (List (MsgFun F)) → Option F
  find_msg_fun code [] = none
  find_msg_fun code (table ∷ parents) =
      or_else (find_in_table code table) (find_msg_fun code parents)

  -- The entries of a table that count: those in front of the entry of zeros.
  unfoldable pub entries : List (MsgFun F) → List (MsgFun F)
  entries [] = []
  entries (e ∷ table) = if (e.msg_code == 0) || is_null e.fun then [] else e ∷ entries table

  unfoldable pub all_entries : List (List (MsgFun F)) → List (MsgFun F)
  all_entries [] = []
  all_entries (table ∷ parents) = entries table ++ all_entries parents

  -- The handler of the first entry for a code.
  unfoldable pub first_for : ℕ → List (MsgFun F) → Option F
  first_for code [] = none
  first_for code (e ∷ es) = if e.msg_code == code then e.fun else first_for code es

  first_for-append :
      (code : ℕ) (table : List (MsgFun F)) (es : List (MsgFun F))
      → first_for code (entries table ++ es)
        ≡ or_else (find_in_table code table) (first_for code es)
  unfolding first_for entries find_in_table
  first_for-append code [] es = refl
  first_for-append code (e ∷ table) es = ground (arith, first_for-append code table es)

  -- The handler that is found is that of the first entry for the code, in the table of the class
  -- and then in those of the classes above it, each up to its entry of zeros.
  pub find_msg_fun-first_for :
      (code : ℕ) (tables : List (List (MsgFun F)))
      → find_msg_fun code tables ≡ first_for code (all_entries tables)
  unfolding find_msg_fun all_entries first_for
  find_msg_fun-first_for code [] = refl
  find_msg_fun-first_for code (table ∷ parents) =
      rw (first_for-append code table (all_entries parents), find_msg_fun-first_for code parents)
