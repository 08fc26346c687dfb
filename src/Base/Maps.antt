-- ===== src/Base/Maps.antt =====
-- `std::map` as the list of its entries in the order of iteration; each key stands once.
-- A key type comes with its `==` and its order, as an instance.
use Prim.Native.Nat.{ℕ}
use mathlib.Core.Path.{◌≡◌, refl}
use mathlib.Core.Logic.{◌↔◌}
use mathlib.Core.Bool.{Bool, true}
use mathlib.Core.List.{List, [], ◌∷◌}
use mathlib.Core.Option.{Option, none, some}
use native.Mathlib.Omega.{arith}
use aods.Base.Tests.{ltb, ◌==◌, ==_iff, if◌then◌else◌}
use aods.Base.Buffers.{Bytes, bytes_eq, bytes_lt, bytes_eq_iff}

pub record Key (K : Type 0) : Type 0 where
  pub same : K → K → Bool
  pub before : K → K → Bool
  pub same_iff : (a b : K) → (same a b ≡ true) ↔ (a ≡ b)

instance unfoldable pub ℕ-Key : Key ℕ
ℕ-Key = record { same = ◌==◌; before = ltb; same_iff = ==_iff }

instance unfoldable pub Bytes-Key : Key Bytes
Bytes-Key = record { same = bytes_eq; before = bytes_lt; same_iff = bytes_eq_iff }

module _ {K : Type 0} ⦃key : Key K⦄ {V : Type 0} where
  -- `find`
  abbrev pub lookup : K → List (K × V) → Option V
  lookup j [] = none
  lookup j ((k, v) ∷ m) = if key.same k j then some v else lookup j m

  -- `m[k] = v`
  unfoldable pub insert : K → V → List (K × V) → List (K × V)
  insert k v [] = (k, v) ∷ []
  insert k v ((e, w) ∷ m) =
      if key.before k e
      then (k, v) ∷ (e, w) ∷ m
      else if key.same e k
      then (e, v) ∷ m
      else (e, w) ∷ insert k v m

  -- `erase` of the entry with a key, where there is one
  unfoldable pub erase : K → List (K × V) → List (K × V)
  erase k [] = []
  erase k ((e, w) ∷ m) = if key.same e k then erase k m else (e, w) ∷ erase k m

  pub lookup-insert :
      (j k : K) (v : V) (m : List (K × V))
      → lookup j (insert k v m) ≡ (if key.same k j then some v else lookup j m)
  unfolding insert
  lookup-insert j k v [] = refl
  lookup-insert j k v ((e, w) ∷ m) =
      ground (arith, lookup-insert j k v m, key.same_iff e k, key.same_iff e j, key.same_iff k j)

  pub lookup-erase :
      (j k : K) (m : List (K × V))
      → lookup j (erase k m) ≡ (if key.same k j then none else lookup j m)
  unfolding erase
  lookup-erase j k [] = ground arith
  lookup-erase j k ((e, w) ∷ m) =
      ground (arith, lookup-erase j k m, key.same_iff e k, key.same_iff e j, key.same_iff k j)
