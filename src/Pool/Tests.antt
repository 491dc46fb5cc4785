-- ===== src/Pool/Tests.antt =====
-- Runs of the pools of src/pool.rs.
use meshconf.Prelude.{ℕ, ◌+◌, ◌≡◌, refl, some, List, [], ◌∷◌}
use meshconf.Pool.{
  push_slice, Heap, checkout, share, drop_shared, Call, checks_out, pushes, shares, drops_shared,
  apply, run, empty_heap,
}
use meshconf.Pool.Return.{held, made, held-apply}

-- A vector that grows to what it needs.
abbrev exact : ℕ → ℕ → ℕ
exact capacity needed = needed

abbrev history : List (Call ℕ)
history = checks_out 7 2 ∷ pushes 0 (5 ∷ []) ∷ shares 0 ∷ drops_shared 1 ∷ []

run_returns : (run exact 0 history empty_heap).free ≡ (7, record { items = []; capacity = 3 }) ∷ []
unfolding run push_slice checkout share drop_shared
run_returns = refl

abbrev one_owned : Heap ℕ
one_owned = record {
  free = [];
  owned = (0, record { inner = record { items = 8 ∷ 9 ∷ []; capacity = 4 }; pool = 7 }) ∷ [];
  shared = [];
  next = 1;
}

abbrev one_shared : Heap ℕ
one_shared = record {
  free = [];
  owned = [];
  shared =
      (1, record { content = record { items = 8 ∷ 9 ∷ []; capacity = 4 }; pool = some 7; refs = 1 })
      ∷ [];
  next = 2;
}

held-apply_example :
    held 7 (apply exact 0 (shares 0) one_owned) ≡ held 7 one_owned + made 7 (shares 0) one_owned
held-apply_example = held-apply exact 0 (shares 0) 7 one_owned

share_one : share 0 one_owned ≡ some (1, one_shared)
unfolding share
share_one = refl
