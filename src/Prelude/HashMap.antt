-- ===== src/Prelude/HashMap.antt =====
-- `HashMap` of the standard library, as a list of its entries in the order in which it yields them.
-- The keys are numbers. Nothing that the code promises depends on the order.
use Prim.Native.Nat.{ℕ}
use mathlib.Core.Path.{◌≡◌}
use mathlib.Core.Bool.{Bool, true, false}
use mathlib.Core.List.{List, [], ◌∷◌}
use mathlib.Core.Option.{Option, none, some}
use native.Mathlib.Omega.{arith}
use meshconf.Prelude.Tests.{◌==◌, if◌then◌else◌}

module _ {V : Type 0} where
  abbrev pub get : ℕ → List (ℕ × V) → Option V
  get k [] = none
  get k ((k', v) ∷ m) = if k == k' then some v else get k m

  abbrev pub contains : ℕ → List (ℕ × V) → Bool
  contains k [] = false
  contains k ((k', v) ∷ m) = if k == k' then true else contains k m

  -- The old value of a key is replaced.
  abbrev pub put : ℕ → V → List (ℕ × V) → List (ℕ × V)
  put k v [] = (k, v) ∷ []
  put k v ((k', v') ∷ m) = if k == k' then (k, v) ∷ m else (k', v') ∷ put k v m

  abbrev pub remove : ℕ → List (ℕ × V) → List (ℕ × V)
  remove k [] = []
  remove k ((k', v) ∷ m) = if k == k' then remove k m else (k', v) ∷ remove k m

  -- Each key has one entry.
  abbrev pub IsMap : List (ℕ × V) → Type 0
  IsMap [] = Unit
  IsMap ((k, v) ∷ m) = (contains k m ≡ false) × IsMap m

  pub get-put :
      (k : ℕ) (v : V) (i : ℕ) (m : List (ℕ × V))
      → get i (put k v m) ≡ (if i == k then some v else get i m)
  get-put k v i [] = ground arith
  get-put k v i ((k', v') ∷ m) = ground (arith, get-put k v i m)

  pub contains-put :
      (k : ℕ) (v : V) (i : ℕ) (m : List (ℕ × V))
      → contains i (put k v m) ≡ (if i == k then true else contains i m)
  contains-put k v i [] = ground arith
  contains-put k v i ((k', v') ∷ m) = ground (arith, contains-put k v i m)

  pub contains-remove :
      (k i : ℕ) (m : List (ℕ × V))
      → contains i (remove k m) ≡ (if i == k then false else contains i m)
  contains-remove k i [] = ground arith
  contains-remove k i ((k', v') ∷ m) = ground (arith, contains-remove k i m)

  pub get-remove :
      (k i : ℕ) (m : List (ℕ × V)) → get i (remove k m) ≡ (if i == k then none else get i m)
  get-remove k i [] = ground arith
  get-remove k i ((k', v') ∷ m) = ground (arith, get-remove k i m)

  pub put-IsMap : (k : ℕ) (v : V) (m : List (ℕ × V)) → IsMap m → IsMap (put k v m)
  put-IsMap k v [] h = ground arith
  put-IsMap k v ((k', v') ∷ m) h = ground (arith, put-IsMap k v m, contains-put k v k' m)

  pub remove-IsMap : (k : ℕ) (m : List (ℕ × V)) → IsMap m → IsMap (remove k m)
  remove-IsMap k [] h = h
  remove-IsMap k ((k', v') ∷ m) h = ground (arith, remove-IsMap k m, contains-remove k k' m)
