-- ===== src/Base/Ascending.antt =====
-- Maps whose keys are texts in ascending order, as `std::map` iterates over them: what is put behind
-- the last key stands there.
use mathlib.Core.Path.{◌≡◌, refl, ap}
use mathlib.Core.Bool.{true, false}
use mathlib.Core.List.{List, [], ◌∷◌, ◌++◌}
use mathlib.Core.Option.{none, some}
use native.Mathlib.Omega.{arith}
use aods.Base.Lists.{All}
use aods.Base.Buffers.{Bytes, bytes_eq, bytes_eq_refl, bytes_lt}
use aods.Base.Maps.{Bytes-Key, insert, lookup}

bytes_lt_eq : (a b : Bytes) → bytes_lt a b ≡ true → bytes_eq a b ≡ false
unfolding bytes_lt bytes_eq
bytes_lt_eq [] [] h = ground arith
bytes_lt_eq [] (y ∷ b) h = refl
bytes_lt_eq (x ∷ a) [] h = refl
bytes_lt_eq (x ∷ a) (y ∷ b) h = ground (arith, bytes_lt_eq a b)

bytes_lt_asym : (a b : Bytes) → bytes_lt a b ≡ true → bytes_lt b a ≡ false
unfolding bytes_lt
bytes_lt_asym [] [] h = refl
bytes_lt_asym [] (y ∷ b) h = refl
bytes_lt_asym (x ∷ a) [] h = ground arith
bytes_lt_asym (x ∷ a) (y ∷ b) h = ground (arith, bytes_lt_asym a b)

bytes_lt_self : (a : Bytes) → bytes_lt a a ≡ false
unfolding bytes_lt
bytes_lt_self [] = refl
bytes_lt_self (x ∷ a) = ground (arith, bytes_lt_self a)

module _ {V : Type 0} where
  -- All keys come before `k`.
  abbrev pub AllBefore : Bytes → List (Bytes × V) → Type 0
  AllBefore k = All (λ e. bytes_lt e.0 k ≡ true)

  abbrev pub IsAscending : List (Bytes × V) → Type 0
  IsAscending [] = Unit
  IsAscending (e ∷ m) = All (λ e'. bytes_lt e.0 e'.0 ≡ true) m × IsAscending m

  pub insert-last :
      (k : Bytes) (v : V) (m : List (Bytes × V)) → AllBefore k m → insert k v m ≡ m ++ (k, v) ∷ []
  unfolding insert Bytes-Key
  insert-last k v [] h = refl
  insert-last k v ((e, w) ∷ m) h =
      rw (bytes_lt_asym e k h.0, bytes_lt_eq e k h.0) (ap (◌∷◌ (e, w)) (insert-last k v m h.1))

  pub insert-at_last :
      (k : Bytes) (v old : V) (m : List (Bytes × V))
      → AllBefore k m
      → insert k v (m ++ (k, old) ∷ []) ≡ m ++ (k, v) ∷ []
  unfolding insert Bytes-Key
  insert-at_last k v old [] h = rw (bytes_lt_self k, bytes_eq_refl k) refl
  insert-at_last k v old ((e, w) ∷ m) h =
      rw (bytes_lt_asym e k h.0, bytes_lt_eq e k h.0)
        (ap (◌∷◌ (e, w)) (insert-at_last k v old m h.1))

  pub lookup-last :
      (k : Bytes) (v : V) (m : List (Bytes × V))
      → AllBefore k m
      → lookup k (m ++ (k, v) ∷ []) ≡ some v
  unfolding Bytes-Key
  lookup-last k v [] h = rw (bytes_eq_refl k) refl
  lookup-last k v ((e, w) ∷ m) h = rw (bytes_lt_eq e k h.0) (lookup-last k v m h.1)

  pub lookup-absent : (k : Bytes) (m : List (Bytes × V)) → AllBefore k m → lookup k m ≡ none
  unfolding Bytes-Key
  lookup-absent k [] h = refl
  lookup-absent k ((e, w) ∷ m) h = rw (bytes_lt_eq e k h.0) (lookup-absent k m h.1)

  -- What is put behind keys that come before those that follow comes before them too.
  pub AllBefore-append :
      (k j : Bytes) (v : V) (m : List (Bytes × V))
      → AllBefore j m
      → bytes_lt k j ≡ true
      → AllBefore j (m ++ (k, v) ∷ [])
  AllBefore-append k j v [] h lt = (lt, tt)
  AllBefore-append k j v (e ∷ m) h lt = (h.0, AllBefore-append k j v m h.1 lt)
