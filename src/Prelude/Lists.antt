-- ===== src/Prelude/Lists.antt =====
-- Lists of addresses and ids: length, positions and the number of occurrences, over the native
-- numbers, and the list operations of the containers that the scheduler uses.
use Prim.Native.Nat.{ℕ, zero, suc, ◌+◌, ◌-◌, ◌≤◌, ◌<◌}
use mathlib.Core.Path.{◌≡◌, refl}
use mathlib.Core.Logic.{◌≢◌}
use mathlib.Core.Bool.{Bool, true, false}
use mathlib.Core.List.{List, [], ◌∷◌, ◌++◌}
use mathlib.Core.Option.{Option, none, some}
use native.Mathlib.Omega.{arith}
use os_ex.Prelude.Tests.{◌==◌, leb, if◌then◌else◌}

module _ {ℓ} {A : Type ℓ} where
  abbrev pub length : List A → ℕ
  length [] = 0
  length (x ∷ xs) = suc (length xs)

  abbrev pub get_elem? : List A → ℕ → Option A
  get_elem? [] i = none
  get_elem? (x ∷ xs) zero = some x
  get_elem? (x ∷ xs) (suc i) = get_elem? xs i

  pub length-append : (xs ys : List A) → length (xs ++ ys) ≡ length xs + length ys
  length-append [] ys = omega arith
  length-append (x ∷ xs) ys = omega (arith, length-append xs ys)

  pub get_elem?-append :
      (xs ys : List A) (i : ℕ) → i < length xs → get_elem? (xs ++ ys) i ≡ get_elem? xs i
  get_elem?-append [] ys i h = elim h [ ]
  get_elem?-append (x ∷ xs) ys zero h = refl
  get_elem?-append (x ∷ xs) ys (suc i) h = get_elem?-append xs ys i (omega arith)

-- 1 where the test holds, 0 where it fails.
abbrev pub of_bool : Bool → ℕ
of_bool true = 1
of_bool false = 0

-- The number of occurrences.
unfoldable pub count : ℕ → List ℕ → ℕ
count a [] = 0
count a (x ∷ xs) = of_bool (x == a) + count a xs

pub count-nil : (a : ℕ) → count a [] ≡ 0
unfolding count
count-nil a = refl

pub count-cons : (a x : ℕ) (xs : List ℕ) → count a (x ∷ xs) ≡ of_bool (x == a) + count a xs
unfolding count
count-cons a x xs = refl

pub count-cons_self : (a : ℕ) (xs : List ℕ) → count a (a ∷ xs) ≡ suc (count a xs)
unfolding count
count-cons_self a xs = ground arith

pub count-cons_ne : (a x : ℕ) (xs : List ℕ) → x ≢ a → count a (x ∷ xs) ≡ count a xs
unfolding count
count-cons_ne a x xs h = ground arith

pub count-append : (a : ℕ) (xs ys : List ℕ) → count a (xs ++ ys) ≡ count a xs + count a ys
unfolding count
count-append a [] ys = omega arith
count-append a (x ∷ xs) ys = omega (arith, count-append a xs ys)

pub count-snoc :
    (a : ℕ) (xs : List ℕ) (y : ℕ) → count a (xs ++ y ∷ []) ≡ count a xs + of_bool (y == a)
unfolding count
count-snoc a xs y = omega (arith, count-append a xs (y ∷ []))

-- Erase the first occurrence.
unfoldable pub erase : ℕ → List ℕ → List ℕ
erase a [] = []
erase a (x ∷ xs) = if x == a then xs else x ∷ erase a xs

pub count-erase : (a b : ℕ) (xs : List ℕ) → count a (erase b xs) ≡ count a xs - of_bool (b == a)
unfolding count erase
count-erase a b [] = ground arith
count-erase a b (x ∷ xs) = ground (arith, count-erase a b xs)

pub erase-absent : (a : ℕ) (xs : List ℕ) → count a xs ≡ 0 → erase a xs ≡ xs
unfolding count erase
erase-absent a [] h = refl
erase-absent a (x ∷ xs) h = ground (arith, erase-absent a xs)

-- A min-heap of ids as the sorted list of its members: `push` inserts in order, the top is the head.
unfoldable pub insert : ℕ → List ℕ → List ℕ
insert a [] = a ∷ []
insert a (x ∷ xs) = if leb a x then a ∷ x ∷ xs else x ∷ insert a xs

pub count-insert : (a b : ℕ) (xs : List ℕ) → count a (insert b xs) ≡ of_bool (b == a) + count a xs
unfolding count insert
count-insert a b [] = omega arith
count-insert a b (x ∷ xs) = ground (arith, count-insert a b xs)

pub length-insert : (b : ℕ) (xs : List ℕ) → length (insert b xs) ≡ suc (length xs)
unfolding insert
length-insert b [] = refl
length-insert b (x ∷ xs) = ground (arith, length-insert b xs)

-- Every member is at least `a`, and the list rises.
abbrev pub RisesFrom : ℕ → List ℕ → Type 0
RisesFrom a [] = Unit {0}
RisesFrom a (x ∷ xs) = (a ≤ x) × RisesFrom x xs

abbrev pub IsSorted : List ℕ → Type 0
IsSorted [] = Unit {0}
IsSorted (x ∷ xs) = RisesFrom x xs

pub insert-RisesFrom : (a b : ℕ) (xs : List ℕ) → a ≤ b → RisesFrom a xs → RisesFrom a (insert b xs)
unfolding insert
insert-RisesFrom a b [] h r = (h, tt)
insert-RisesFrom a b (x ∷ xs) h r = ground (arith, insert-RisesFrom x b xs)

pub insert-IsSorted : (b : ℕ) (xs : List ℕ) → IsSorted xs → IsSorted (insert b xs)
unfolding insert
insert-IsSorted b [] r = tt
insert-IsSorted b (x ∷ xs) r = ground (arith, insert-RisesFrom x b xs)

pub IsSorted-tail : (x : ℕ) (xs : List ℕ) → IsSorted (x ∷ xs) → IsSorted xs
IsSorted-tail x [] r = tt
IsSorted-tail x (y ∷ xs) r = r.1

-- Nothing below a lower bound occurs in a rising list.
pub count-RisesFrom : (a b : ℕ) (xs : List ℕ) → RisesFrom a xs → b < a → count b xs ≡ 0
unfolding count
count-RisesFrom a b [] r h = refl
count-RisesFrom a b (x ∷ xs) r h = ground (arith, count-RisesFrom x b xs)

pub ruleset counts =
    (arith, count-nil, count-cons, count-append, count-snoc, count-erase, count-insert)
