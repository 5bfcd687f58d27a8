-- ===== src/Prelude/Map.antt =====
-- `HashMap<u64, V>` as an association list with one entry for a key, and `HashSet<u64>` as a list.
use Prim.Native.Nat.{ℕ, ◌+◌}
use mathlib.Core.Path.{◌≡◌, refl, subst, ap}
use mathlib.Core.Bool.{Bool, true, false, not, ◌&&◌, ◌||◌}
use mathlib.Core.List.{List, [], ◌∷◌}
use mathlib.Core.Option.{Option, none, some}
use mathlib.Core.Logic.{inl, inr}
use native.Mathlib.Omega.{arith}
use Prim.Native.Nat.{◌+◌}
use uring.Prelude.Tests.{◌==◌, if◌then◌else◌, Bool-cases}
use uring.Prelude.Lists.{length, All}

abbrev pub contains : ℕ → List ℕ → Bool
contains j [] = false
contains j (i ∷ is) = if i == j then true else contains j is

-- `HashSet::remove`.
abbrev pub erase : ℕ → List ℕ → List ℕ
erase j [] = []
erase j (i ∷ is) = if i == j then erase j is else i ∷ erase j is

-- No element twice.
abbrev pub IsUnique : List ℕ → Type 0
IsUnique [] = Unit {0}
IsUnique (i ∷ is) = (contains i is ≡ false) × IsUnique is

module _ {ℓ} {V : Type ℓ} where
  abbrev pub lookup : ℕ → List (ℕ × V) → Option V
  lookup j [] = none
  lookup j ((i, v) ∷ m) = if i == j then some v else lookup j m

  abbrev pub insert : ℕ → V → List (ℕ × V) → List (ℕ × V)
  insert j v [] = (j, v) ∷ []
  insert j v ((i, w) ∷ m) = if i == j then (j, v) ∷ m else (i, w) ∷ insert j v m

  abbrev pub remove : ℕ → List (ℕ × V) → List (ℕ × V)
  remove j [] = []
  remove j ((i, w) ∷ m) = if i == j then m else (i, w) ∷ remove j m

  abbrev pub keys : List (ℕ × V) → List ℕ
  keys [] = []
  keys ((i, v) ∷ m) = i ∷ keys m

contains_cons : (i j : ℕ) (is : List ℕ) → contains j (i ∷ is) ≡ (i == j) || contains j is
contains_cons i j is = ground arith

contains_later : (j i : ℕ) (is : List ℕ) → contains j is ≡ true → contains j (i ∷ is) ≡ true
contains_later j i is h = ground arith

contains_first : (i : ℕ) (is : List ℕ) → contains i (i ∷ is) ≡ true
contains_first i is = ground arith

-- What holds of every member holds of all.
pub All-contains {κ} :
    (P : ℕ → Type κ) (ids : List ℕ) → ((j : ℕ) → contains j ids ≡ true → P j) → All P ids
All-contains P [] h = tt
All-contains P (i ∷ is) h =
    (h i (contains_first i is), All-contains P is (λ j c. h j (contains_later j i is c)))

-- Membership after an insertion or a removal, for the keys of a map without doubles.
module _ {ℓ} {V : Type ℓ} where
  pub contains-insert :
      (j k : ℕ) (v : V) (m : List (ℕ × V))
      → contains j (keys (insert k v m)) ≡ (k == j) || contains j (keys m)
  contains-insert j k v [] = ground arith
  contains-insert j k v ((i, w) ∷ m) = ground (arith, contains-insert j k v m)

  pub insert-IsUnique :
      (k : ℕ) (v : V) (m : List (ℕ × V)) → IsUnique (keys m) → IsUnique (keys (insert k v m))
  insert-IsUnique k v [] u = (refl, tt)
  insert-IsUnique k v ((i, w) ∷ m) u =
      ground (arith, insert-IsUnique k v m u.1, contains-insert i k v m)

  pub contains-remove :
      (j k : ℕ) (m : List (ℕ × V))
      → IsUnique (keys m)
      → contains j (keys (remove k m)) ≡ not (k == j) && contains j (keys m)
  contains-remove j k [] u = ground arith
  contains-remove j k ((i, w) ∷ m) u = ground (arith, contains-remove j k m u.1)

  pub remove-IsUnique :
      (k : ℕ) (m : List (ℕ × V)) → IsUnique (keys m) → IsUnique (keys (remove k m))
  remove-IsUnique k [] u = tt
  remove-IsUnique k ((i, w) ∷ m) u =
      ground (arith, remove-IsUnique k m u.1, contains-remove i k m u.1)

  pub length-insert_new :
      (k : ℕ) (v : V) (m : List (ℕ × V))
      → contains k (keys m) ≡ false
      → length (insert k v m) ≡ length m + 1
  length-insert_new k v [] h = omega arith
  length-insert_new k v ((i, w) ∷ m) h = ground (arith, length-insert_new k v m)

  -- An update of an entry that is there.
  pub keys-insert_old :
      (k : ℕ) (v : V) (m : List (ℕ × V)) → contains k (keys m) ≡ true → keys (insert k v m) ≡ keys m
  keys-insert_old k v [] h = cc
  keys-insert_old k v ((i, w) ∷ m) h = ground (arith, keys-insert_old k v m)

  pub length-insert_old :
      (k : ℕ) (v : V) (m : List (ℕ × V))
      → contains k (keys m) ≡ true
      → length (insert k v m) ≡ length m
  length-insert_old k v [] h = cc
  length-insert_old k v ((i, w) ∷ m) h = ground (arith, length-insert_old k v m)

  pub length-remove :
      (k : ℕ) (m : List (ℕ × V)) → contains k (keys m) ≡ true → length m ≡ length (remove k m) + 1
  length-remove k [] h = cc
  length-remove k ((i, w) ∷ m) h = ground (arith, length-remove k m)

  pub lookup-contains :
      (k : ℕ) (m : List (ℕ × V)) (v : V) → lookup k m ≡ some v → contains k (keys m) ≡ true
  lookup-contains k [] v h = cc
  lookup-contains k ((i, w) ∷ m) v h = ground (arith, lookup-contains k m v)

  pub All-lookup {κ} :
      (P : V → Type κ) (k : ℕ) (m : List (ℕ × V)) (v : V)
      → All (λ (e : ℕ × V). P e.1) m
      → lookup k m ≡ some v
      → P v
  All-lookup P k [] v a h = cc
  All-lookup P k ((i, w) ∷ m) v a h = elim (Bool-cases (i == k)) [
    | inl hit ↦ subst P (ground (arith, hit)) a.0
    | inr miss ↦ All-lookup P k m v a.1 (ground (arith, miss))
  ]

  pub insert-All {κ} :
      (P : V → Type κ) (k : ℕ) (m : List (ℕ × V)) (v : V)
      → All (λ (e : ℕ × V). P e.1) m
      → P v
      → All (λ (e : ℕ × V). P e.1) (insert k v m)
  insert-All P k [] v a h = (h, tt)
  insert-All P k ((i, w) ∷ m) v a h = elim (Bool-cases (i == k)) [
    | inl hit ↦ rw hit (h, a.1)
    | inr miss ↦ rw miss (a.0, insert-All P k m v a.1 h)
  ]

  pub remove-All {κ} :
      (P : V → Type κ) (k : ℕ) (m : List (ℕ × V))
      → All (λ (e : ℕ × V). P e.1) m
      → All (λ (e : ℕ × V). P e.1) (remove k m)
  remove-All P k [] a = tt
  remove-All P k ((i, w) ∷ m) a = elim (Bool-cases (i == k)) [
    | inl hit ↦ rw hit a.1
    | inr miss ↦ rw miss (a.0, remove-All P k m a.1)
  ]

-- The sum of a weight over the values, through the same changes.
module _ {ℓ} {V : Type ℓ} (g : V → ℕ) where
  unfoldable pub total : List (ℕ × V) → ℕ
  total [] = 0
  total ((i, v) ∷ m) = g v + total m

  pub total-insert_new :
      (k : ℕ) (v : V) (m : List (ℕ × V))
      → contains k (keys m) ≡ false
      → total (insert k v m) ≡ total m + g v
  unfolding total
  total-insert_new k v [] h = omega arith
  total-insert_new k v ((i, w) ∷ m) h = ground (arith, total-insert_new k v m)

  pub total-insert_old :
      (k : ℕ) (v u : V) (m : List (ℕ × V))
      → lookup k m ≡ some u
      → total (insert k v m) + g u ≡ total m + g v
  unfolding total
  total-insert_old k v u [] h = cc
  total-insert_old k v u ((i, w) ∷ m) h = elim (Bool-cases (i == k)) [
    | inl hit ↦ let same : w ≡ u = ground (arith, hit) in rw hit (omega (arith, ap g same))
    | inr miss ↦ rw miss (omega (arith, total-insert_old k v u m (ground (arith, miss))))
  ]

  pub total-remove :
      (k : ℕ) (u : V) (m : List (ℕ × V)) → lookup k m ≡ some u → total m ≡ total (remove k m) + g u
  unfolding total
  total-remove k u [] h = cc
  total-remove k u ((i, w) ∷ m) h = elim (Bool-cases (i == k)) [
    | inl hit ↦ let same : w ≡ u = ground (arith, hit) in rw hit (omega (arith, ap g same))
    | inr miss ↦ rw miss (omega (arith, total-remove k u m (ground (arith, miss))))
  ]

pub contains-erase :
    (j k : ℕ) (is : List ℕ) → contains j (erase k is) ≡ not (k == j) && contains j is
contains-erase j k [] = ground arith
contains-erase j k (i ∷ is) = ground (arith, contains-erase j k is)

pub erase-IsUnique : (k : ℕ) (is : List ℕ) → IsUnique is → IsUnique (erase k is)
erase-IsUnique k [] u = tt
erase-IsUnique k (i ∷ is) u = ground (arith, erase-IsUnique k is u.1, contains-erase i k is)
