-- ===== src/Base/Dict.antt =====
-- `std::map<std::string, V>` as an association list in the order of the keys.
use Prim.Native.Nat.{Ordering}
use Prim.Native.String.{String, compare}
use mathlib.Core.Path.{◌≡◌, refl, subst}
use mathlib.Core.Logic.{inl, inr}
use mathlib.Core.Option.{Option, none, some}
use mathlib.Core.Option
use mathlib.Core.List.{List, [], ◌∷◌}
use native.Mathlib.Omega.{arith}
use text.Mathlib.Text.{◌==◌}
use text.Mathlib.TextEquality.{eq_iff}
use mesos_framework.Base.Tests.{All, Option-cases, Bool-cases, if◌then◌else◌}

abbrev pub Dict {ℓ} : Type ℓ → Type ℓ
Dict V = List (String × V)

module _ {ℓ} {V : Type ℓ} where
  -- `m.find(k)`
  unfoldable pub find : String → Dict V → Option V
  find k [] = none
  find k ((j, v) ∷ m) = if j == k then some v else find k m

  -- A new key goes before the first greater one.
  place : String → V → Dict V → Dict V
  place k v [] = (k, v) ∷ []
  place k v ((j, w) ∷ m) = elim (compare k j) [
    | Ordering.lt ↦ (k, v) ∷ (j, w) ∷ m
    | _ ↦ (j, w) ∷ place k v m
  ]

  abbrev unless_found : Option V → Dict V → Dict V → Dict V
  unless_found none placed m = placed
  unless_found (some v) placed m = m

  -- `m.insert({k, v})`: a key that is there keeps its value.
  unfoldable pub insert : String → V → Dict V → Dict V
  unfolding place find
  insert k v m = unless_found (find k m) (place k v m) m

  -- A change through the iterator that `m.find(k)` returns.
  unfoldable pub modify : String → (V → V) → Dict V → Dict V
  modify k f [] = []
  modify k f ((j, v) ∷ m) = if j == k then (j, f v) ∷ m else (j, v) ∷ modify k f m

  abbrev pub or_else : Option V → Option V → Option V
  or_else (some v) o = some v
  or_else none o = o

  find-place :
      (k j : String) (v : V) (m : Dict V)
      → find k m ≡ none
      → find j (place k v m) ≡ (if k == j then some v else find j m)
  unfolding find place
  find-place k j v [] h = refl
  find-place k j v ((i, w) ∷ m) h =
      ground (arith, eq_iff k j, eq_iff i k, eq_iff i j, find-place k j v m)

  -- An insertion shows at its own key, and there only where the key was absent.
  pub find-insert :
      (k j : String) (v : V) (m : Dict V)
      → find j (insert k v m) ≡ or_else (find j m) (if k == j then some v else none)
  unfolding insert
  find-insert k j v m = elim (Option-cases (find k m)) [
    | inl e ↦ rw (e) (ground (arith, find-place k j v m e, eq_iff k j))
    | inr (w, e) ↦ rw (e) (ground (arith, eq_iff k j))
  ]

  pub find-modify :
      (k j : String) (f : V → V) (m : Dict V)
      → find j (modify k f m) ≡ (if k == j then Option.map f (find j m) else find j m)
  unfolding find modify
  find-modify k j f [] = ground arith
  find-modify k j f ((i, w) ∷ m) =
      ground (arith, eq_iff k j, eq_iff i k, eq_iff i j, find-modify k j f m)

  -- A property of each value.
  abbrev pub AllValues {κ} : (V → Type κ) → Dict V → Type κ
  AllValues P m = All (λ e. P e.1) m

  pub find-AllValues {κ} :
      (P : V → Type κ) (k : String) (v : V) (m : Dict V) → AllValues P m → find k m ≡ some v → P v
  unfolding find
  find-AllValues P k v [] h e = cc
  find-AllValues P k v ((j, w) ∷ m) (p, h) e = elim (Bool-cases (j == k)) [
    | inl here ↦ let same : w ≡ v = ground arith in subst P same p
    | inr there ↦ find-AllValues P k v m h (rw there at e)
  ]

  place-AllValues {κ} :
      (P : V → Type κ) (k : String) (v : V) (m : Dict V)
      → P v
      → AllValues P m
      → AllValues P (place k v m)
  unfolding place
  place-AllValues P k v [] p h = (p, tt)
  place-AllValues P k v ((j, w) ∷ m) p (q, h) = go (place-AllValues P k v m p h) (compare k j)
    where
      go :
          AllValues P (place k v m)
          → (o : Ordering)
          → AllValues P (elim o [ Ordering.lt ↦ (k, v) ∷ (j, w) ∷ m | _ ↦ (j, w) ∷ place k v m ])
      go rest Ordering.lt = (p, (q, h))
      go rest _ = (q, rest)

  pub insert-AllValues {κ} :
      (P : V → Type κ) (k : String) (v : V) (m : Dict V)
      → P v
      → AllValues P m
      → AllValues P (insert k v m)
  unfolding insert
  insert-AllValues P k v m p h = elim (Option-cases (find k m)) [
    | inl absent ↦ rw absent (place-AllValues P k v m p h)
    | inr (w, present) ↦ rw present h
  ]

  pub modify-AllValues {κ} :
      (P : V → Type κ) (k : String) (f : V → V) (m : Dict V)
      → ((v : V) → P v → P (f v))
      → AllValues P m
      → AllValues P (modify k f m)
  unfolding modify
  modify-AllValues P k f [] keeps h = tt
  modify-AllValues P k f ((j, w) ∷ m) keeps (p, h) = elim (Bool-cases (j == k)) [
    | inl here ↦ rw here (keeps w p, h)
    | inr there ↦ rw there (p, modify-AllValues P k f m keeps h)
  ]
