-- ===== src/Prelude/Table.antt =====
-- A map from ids to addresses as an association list, and a store from addresses to objects.
use Prim.Native.Nat.{ℕ, suc}
use mathlib.Core.Path.{◌≡◌, refl}
use mathlib.Core.List.{List, [], ◌∷◌}
use mathlib.Core.Option.{Option, none, some}
use native.Mathlib.Omega.{arith}
use os_ex.Prelude.Tests.{◌==◌, if◌then◌else◌}
use os_ex.Prelude.Lists.{length}

-- `find`: `none` is `end()`.
unfoldable pub lookup : ℕ → List (ℕ × ℕ) → Option ℕ
lookup k [] = none
lookup k ((j, v) ∷ m) = if j == k then some v else lookup k m

-- `m[k] = v`.
unfoldable pub assign : ℕ → ℕ → List (ℕ × ℕ) → List (ℕ × ℕ)
assign k v [] = (k, v) ∷ []
assign k v ((j, w) ∷ m) = if j == k then (k, v) ∷ m else (j, w) ∷ assign k v m

-- `erase(k)`: a map has at most one entry for a key.
unfoldable pub remove : ℕ → List (ℕ × ℕ) → List (ℕ × ℕ)
remove k [] = []
remove k ((j, w) ∷ m) = if j == k then m else (j, w) ∷ remove k m

abbrev pub is_some {ℓ} : {A : Type ℓ} → Option A → ℕ
is_some none = 0
is_some (some a) = 1

-- No key has two entries.
abbrev pub HasUniqueKeys : List (ℕ × ℕ) → Type 0
HasUniqueKeys [] = Unit {0}
HasUniqueKeys ((j, v) ∷ m) = (lookup j m ≡ none) × HasUniqueKeys m

pub lookup-assign :
    (k j v : ℕ) (m : List (ℕ × ℕ))
    → lookup j (assign k v m) ≡ (if k == j then some v else lookup j m)
unfolding lookup assign
lookup-assign k j v [] = refl
lookup-assign k j v ((i, w) ∷ m) = ground (arith, lookup-assign k j v m)

pub lookup-remove :
    (k j : ℕ) (m : List (ℕ × ℕ))
    → HasUniqueKeys m
    → lookup j (remove k m) ≡ (if k == j then none else lookup j m)
unfolding lookup remove
lookup-remove k j [] u = ground arith
lookup-remove k j ((i, w) ∷ m) u = ground (arith, lookup-remove k j m)

pub assign-HasUniqueKeys :
    (k v : ℕ) (m : List (ℕ × ℕ)) → HasUniqueKeys m → HasUniqueKeys (assign k v m)
unfolding lookup assign
assign-HasUniqueKeys k v [] u = (refl, tt)
assign-HasUniqueKeys k v ((i, w) ∷ m) u =
    ground (arith, assign-HasUniqueKeys k v m, lookup-assign k i v m)

pub remove-HasUniqueKeys : (k : ℕ) (m : List (ℕ × ℕ)) → HasUniqueKeys m → HasUniqueKeys (remove k m)
unfolding lookup remove
remove-HasUniqueKeys k [] u = tt
remove-HasUniqueKeys k ((i, w) ∷ m) u =
    ground (arith, remove-HasUniqueKeys k m, lookup-remove k i m)

pub length-assign :
    (k v : ℕ) (m : List (ℕ × ℕ)) → lookup k m ≡ none → length (assign k v m) ≡ suc (length m)
unfolding lookup assign
length-assign k v [] h = refl
length-assign k v ((i, w) ∷ m) h = ground (arith, length-assign k v m)

pub length-remove :
    (k v : ℕ) (m : List (ℕ × ℕ)) → lookup k m ≡ some v → suc (length (remove k m)) ≡ length m
unfolding lookup remove
length-remove k v [] h = ground arith
length-remove k v ((i, w) ∷ m) h = ground (arith, length-remove k v m)

-- The store with the cell at `p` given anew.
abbrev pub update {ℓ} : {A : Type ℓ} → (ℕ → Option A) → ℕ → Option A → ℕ → Option A
update f p v q = if p == q then v else f q
