-- ===== src/Base/Dict.antt =====
-- A Go map with text keys: an association list, in the order in which `range` visits it.
use dr.Base.Tests.{if◌then◌else◌}
use native.Mathlib.Omega.{arith}
use text.Mathlib.TextEquality.{eq_iff}
use text.Mathlib.Text.{◌==◌}
use Prim.Native.String.{String}
use mathlib.Core.List.{[], List, ◌∷◌}
use mathlib.Core.Bool.{false}
use mathlib.Core.Option.{none, some, Option}
use mathlib.Core.Path.{refl, ◌≡◌}

abbrev pub Dict {ℓ} : Type ℓ → Type ℓ
Dict V = List (String × V)

module _ {ℓ} {V : Type ℓ} where
  -- `m[key] = value`: an entry that is there keeps its place.
  unfoldable pub insert : (key : String) (value : V) → Dict V → Dict V
  insert key value [] = (key, value) ∷ []
  insert key value ((k, old) ∷ entries) =
      if k == key then (key, value) ∷ entries else (k, old) ∷ insert key value entries

  -- `delete(m, key)`
  unfoldable pub erase : (key : String) → Dict V → Dict V
  erase key [] = []
  erase key ((k, old) ∷ entries) =
      let kept = erase key entries in if k == key then kept else (k, old) ∷ kept

  -- `value, exists := m[key]`
  unfoldable pub lookup : (key : String) → Dict V → Option V
  lookup key [] = none
  lookup key ((k, value) ∷ entries) = if k == key then some value else lookup key entries

  pub lookup-insert :
      (key asked : String) (value : V) (entries : Dict V)
      → lookup asked (insert key value entries)
        ≡ (if key == asked then some value else lookup asked entries)
  unfolding lookup insert
  lookup-insert key asked value [] = refl
  lookup-insert key asked value ((k, old) ∷ entries) =
      ground (
        arith,
        eq_iff key asked,
        eq_iff k key,
        eq_iff k asked,
        lookup-insert key asked value entries,
      )

  pub lookup-erase :
      (key asked : String) (entries : Dict V)
      → lookup asked (erase key entries) ≡ (if key == asked then none else lookup asked entries)
  unfolding lookup erase
  lookup-erase key asked [] = ground arith
  lookup-erase key asked ((k, old) ∷ entries) =
      ground (arith, eq_iff key asked, eq_iff k key, eq_iff k asked, lookup-erase key asked entries)

  abbrev pub IsFresh : String → Dict V → Type 0
  IsFresh k [] = Unit
  IsFresh k ((j, v) ∷ m) = ((j == k) ≡ false) × IsFresh k m

  -- No key stands twice, as in every Go map.
  abbrev pub NodupKeys : Dict V → Type 0
  NodupKeys [] = Unit
  NodupKeys ((j, v) ∷ m) = IsFresh j m × NodupKeys m

  insert-IsFresh :
      (k j : String) (v : V) (m : Dict V)
      → (k == j) ≡ false
      → IsFresh j m
      → IsFresh j (insert k v m)
  unfolding insert
  insert-IsFresh k j v [] e _ = (e, tt)
  insert-IsFresh k j v ((i, w) ∷ m) e (n, f) = ground (arith, insert-IsFresh k j v m e f)

  pub insert-NodupKeys : (k : String) (v : V) (m : Dict V) → NodupKeys m → NodupKeys (insert k v m)
  unfolding insert
  insert-NodupKeys k v [] _ = (tt, tt)
  insert-NodupKeys k v ((i, w) ∷ m) (f, u) =
      ground (arith, eq_iff i k, eq_iff k i, insert-NodupKeys k v m u, insert-IsFresh k i v m)

  pub lookup_of_IsFresh : (k : String) (m : Dict V) → IsFresh k m → lookup k m ≡ none
  unfolding lookup
  lookup_of_IsFresh k [] _ = refl
  lookup_of_IsFresh k ((i, w) ∷ m) (n, f) = rw n (lookup_of_IsFresh k m f)
