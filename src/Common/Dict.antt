-- ===== src/Common/Dict.antt =====
-- A dictionary by text, as the insertion-ordered list of its entries: the `Map` and the `Record`
-- of the source. An entry that is set again keeps its place, and a new one goes to the end.
use Prim.Native.Nat.{suc}
use Prim.Native.String.{String}
use mathlib.Core.Path.{◌≡◌, refl}
use mathlib.Core.Logic.{inl, inr}
use mathlib.Core.Option
use mathlib.Core.Option.{Option, none, some}
use mathlib.Core.List.{List, [], ◌∷◌}
use native.Mathlib.Omega.{arith}
use text.Mathlib.TextEquality.{eq_iff}
use clmm_copybot.Common.Tests.{if◌then◌else◌, Bool-cases, is_some}
use clmm_copybot.Common.Texts.{str_eq}
use clmm_copybot.Common.Lists.{length}

module _ {ℓ} {V : Type ℓ} where
  unfoldable pub lookup : String → List (String × V) → Option V
  lookup k [] = none
  lookup k ((j, v) ∷ m) = if str_eq j k then some v else lookup k m

  unfoldable pub insert : String → V → List (String × V) → List (String × V)
  insert k v [] = (k, v) ∷ []
  insert k v ((j, w) ∷ m) = if str_eq j k then (k, v) ∷ m else (j, w) ∷ insert k v m

  unfoldable pub delete : String → List (String × V) → List (String × V)
  delete k [] = []
  delete k ((j, w) ∷ m) = let rest = delete k m in if str_eq j k then rest else (j, w) ∷ rest

  -- A change of one entry's value in place; nothing happens where the key is missing.
  unfoldable pub update : String → (V → V) → List (String × V) → List (String × V)
  update k f [] = []
  update k f ((j, w) ∷ m) = if str_eq j k then (j, f w) ∷ m else (j, w) ∷ update k f m

  -- No key stands twice.
  abbrev pub IsUnique : List (String × V) → Type ℓ
  IsUnique [] = Unit
  IsUnique ((k, v) ∷ m) = (lookup k m ≡ none) × IsUnique m

  pub lookup-insert :
      (j k : String) (v : V) (m : List (String × V))
      → lookup j (insert k v m) ≡ (if str_eq k j then some v else lookup j m)
  unfolding lookup insert
  lookup-insert j k v [] = refl
  lookup-insert j k v ((i, w) ∷ m) =
      ground (arith, eq_iff k j, eq_iff i k, eq_iff i j, lookup-insert j k v m)

  pub lookup-delete :
      (j k : String) (m : List (String × V))
      → lookup j (delete k m) ≡ (if str_eq k j then none else lookup j m)
  unfolding lookup delete
  lookup-delete j k [] = ground arith
  lookup-delete j k ((i, w) ∷ m) =
      ground (arith, eq_iff k j, eq_iff i k, eq_iff i j, lookup-delete j k m)

  pub lookup-update :
      (j k : String) (f : V → V) (m : List (String × V))
      → lookup j (update k f m) ≡ (if str_eq k j then Option.map f (lookup k m) else lookup j m)
  unfolding lookup update
  lookup-update j k f [] = ground arith
  lookup-update j k f ((i, w) ∷ m) =
      ground (arith, eq_iff k j, eq_iff i k, eq_iff i j, lookup-update j k f m)

  pub insert-IsUnique :
      (k : String) (v : V) (m : List (String × V)) → IsUnique m → IsUnique (insert k v m)
  unfolding insert
  insert-IsUnique k v [] h = (unfold lookup in refl, tt)
  insert-IsUnique k v ((i, w) ∷ m) h = elim (Bool-cases (str_eq i k)) [
    | inl same ↦ rw same (rw (← (eq_iff i k).0 same) h.0, h.1)
    | inr other ↦ rw other (
      rw (lookup-insert i k v m) (ground (arith, eq_iff i k, eq_iff k i)),
      insert-IsUnique k v m h.1,
    )
  ]

  pub delete-IsUnique : (k : String) (m : List (String × V)) → IsUnique m → IsUnique (delete k m)
  unfolding delete
  delete-IsUnique k [] h = tt
  delete-IsUnique k ((i, w) ∷ m) h = elim (Bool-cases (str_eq i k)) [
    | inl same ↦ rw same (delete-IsUnique k m h.1)
    | inr other ↦
        rw other (
          rw (lookup-delete i k m) (ground (arith, eq_iff i k, eq_iff k i)),
          delete-IsUnique k m h.1,
        )
  ]

  pub update-IsUnique :
      (k : String) (f : V → V) (m : List (String × V)) → IsUnique m → IsUnique (update k f m)
  unfolding update
  update-IsUnique k f [] h = tt
  update-IsUnique k f ((i, w) ∷ m) h = elim (Bool-cases (str_eq i k)) [
    | inl same ↦ rw same h
    | inr other ↦ rw other (
      rw (lookup-update i k f m) (ground (arith, eq_iff i k, eq_iff k i)),
      update-IsUnique k f m h.1,
    )
  ]

  -- The number of entries changes by the key that is set or deleted, and by no other.
  pub length-insert :
      (k : String) (v : V) (m : List (String × V))
      → length (insert k v m) ≡ (if is_some (lookup k m) then length m else suc (length m))
  unfolding insert lookup
  length-insert k v [] = refl
  length-insert k v ((i, w) ∷ m) = ground (arith, length-insert k v m)

  pub delete_fresh : (k : String) (m : List (String × V)) → lookup k m ≡ none → delete k m ≡ m
  unfolding delete lookup
  delete_fresh k [] h = refl
  delete_fresh k ((i, w) ∷ m) h = ground (arith, delete_fresh k m)

  pub length-delete :
      (k : String) (m : List (String × V))
      → IsUnique m
      → length m ≡ (if is_some (lookup k m) then suc (length (delete k m)) else length (delete k m))
  unfolding delete lookup
  length-delete k [] u = refl
  length-delete k ((i, w) ∷ m) u =
      ground (arith, eq_iff i k, length-delete k m u.1, delete_fresh k m)

-- For tests: what a run computes with.
unfoldable pub dict : Unit {0}
unfolding lookup insert delete update
dict = tt

-- The values of a dictionary changed, key by key.
abbrev pub map_values {ℓ κ} :
    {V : Type ℓ} {W : Type κ} → (V → W) → List (String × V) → List (String × W)
map_values f [] = []
map_values f ((k, v) ∷ m) = (k, f v) ∷ map_values f m

pub lookup-map_values {ℓ κ} :
    {V : Type ℓ} {W : Type κ} (f : V → W) (k : String) (m : List (String × V))
    → lookup k (map_values f m) ≡ Option.map f (lookup k m)
unfolding lookup
lookup-map_values f k [] = refl
lookup-map_values f k ((j, v) ∷ m) = elim (Bool-cases (str_eq j k)) [
  | inl same ↦ rw same
  | inr other ↦ rw other (lookup-map_values f k m)
]
