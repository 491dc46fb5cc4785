-- ===== src/Pool/Return.antt =====
-- No buffer of src/pool.rs is lost or returned twice, and a returned one is used again.
use meshconf.Prelude.{
  refl, inr, inl, Option-cases, Bool-cases, ℕ, ◌+◌, ◌-◌, ◌≡◌, Bool, true, false, List, [], ◌∷◌,
  none, some, arith, ◌==◌,
}
use meshconf.Pool.{
  give_back, Option, extend, Bool, Vec, PoolBuf, SharedInner, Heap, Call, checks_out_empty,
  checks_out, pushes, shares, truncates, adopts_vec, drops, clones, drops_shared, lookup, remove,
  replace, pop_free, pop_or_new, checkout_empty, checkout, push_slice, share, truncate_and_share,
  from_vec, drop_owned, clone_shared, drop_shared, apply,
}

abbrev one_if : Bool → ℕ
one_if true = 1
one_if false = 0

abbrev is_pool : ℕ → Option ℕ → Bool
is_pool p none = false
is_pool p (some q) = q == p

-- The handles whose buffer is of the pool `p`.
module _ {B : Type 0} (is_of : ℕ → B → Bool) where
  of_pool : ℕ → List (ℕ × B) → ℕ
  of_pool p [] = 0
  of_pool p ((i, b) ∷ m) = one_if (is_of p b) + of_pool p m

  of_pool-remove :
      (p i : ℕ) (m : List (ℕ × B)) (b : B)
      → lookup i m ≡ some b
      → of_pool p m ≡ of_pool p (remove i m) + one_if (is_of p b)
  unfolding of_pool
  of_pool-remove p i [] b e = cc
  of_pool-remove p i ((j, c) ∷ m) b e = elim (Bool-cases (j == i)) [
    | inl hit ↦ rw hit (ground (arith, hit))
    | inr miss ↦ rw miss (ground (arith, of_pool-remove p i m b, miss))
  ]

  of_pool-replace :
      (p i : ℕ) (c : B) (m : List (ℕ × B)) (b : B)
      → lookup i m ≡ some b
      → is_of p c ≡ is_of p b
      → of_pool p (replace i c m) ≡ of_pool p m
  unfolding of_pool
  of_pool-replace p i c [] b e h = cc
  of_pool-replace p i c ((j, d) ∷ m) b e h = elim (Bool-cases (j == i)) [
    | inl hit ↦ rw hit (ground (arith, hit))
    | inr miss ↦ rw miss (ground (arith, of_pool-replace p i c m b, miss))
  ]

module _ {A : Type 0} where
  abbrev owned_by : ℕ → PoolBuf A → Bool
  owned_by p b = b.pool == p

  abbrev shared_by : ℕ → SharedInner A → Bool
  shared_by p s = is_pool p s.pool

  free_of : ℕ → List (ℕ × Vec A) → ℕ
  free_of p [] = 0
  free_of p ((q, v) ∷ m) = one_if (q == p) + free_of p m

  -- The buffers of the pool `p`, free and in use.
  pub held : ℕ → Heap A → ℕ
  held p h = free_of p h.free + of_pool owned_by p h.owned + of_pool shared_by p h.shared

  -- The buffers of the pool `p` that a checkout from the pool `q` allocates.
  abbrev pub allocated : ℕ → ℕ → Heap A → ℕ
  allocated p q h = elim (pop_free q h.free) [ none ↦ one_if (q == p) | some r ↦ 0 ]

  -- The buffers of the pool `p` that a call makes.
  abbrev pub made : ℕ → Call A → Heap A → ℕ
  made p (checks_out_empty q) h = allocated p q h
  made p (checks_out q len) h = allocated p q h
  made p other h = 0

  pop_free-of :
      (p q : ℕ) (m : List (ℕ × Vec A))
      → free_of p m + elim (pop_free q m) [ none ↦ one_if (q == p) | some r ↦ 0 ]
        ≡ free_of p (pop_or_new q m).1 + one_if (q == p)
  unfolding free_of
  pop_free-of p q [] = ground arith
  pop_free-of p q ((r, v) ∷ m) = ground (arith, pop_free-of p q m)

  free_of-give_back :
      (p : ℕ) (pool : Option ℕ) (v : Vec A) (m : List (ℕ × Vec A))
      → free_of p (give_back pool v m) ≡ one_if (is_pool p pool) + free_of p m
  unfolding free_of
  free_of-give_back p none v m = omega arith
  free_of-give_back p (some q) v m = refl

  -- A call neither loses a buffer of a pool nor makes one up: but for what a checkout allocates
  -- from an empty pool, the number of buffers of each pool stays.
  pub held-apply :
      (grow : ℕ → ℕ → ℕ) (d : A) (c : Call A) (p : ℕ) (h : Heap A)
      → held p (apply grow d c h) ≡ held p h + made p c h
  unfolding held of_pool free_of apply checkout_empty checkout push_slice share truncate_and_share
      from_vec drop_owned clone_shared drop_shared
  held-apply grow d (checks_out_empty q) p h = ground (arith, pop_free-of p q h.free)
  held-apply grow d (checks_out q len) p h = ground (arith, pop_free-of p q h.free)
  held-apply grow d (pushes i xs) p h = elim (Option-cases (lookup i h.owned)) [
    | inl e ↦ ground arith
    | inr (b, e) ↦ ground (
      arith,
      of_pool-replace owned_by p i (record b { inner = extend grow xs b.inner }) h.owned b e,
    )
  ]
  held-apply grow d (shares i) p h = elim (Option-cases (lookup i h.owned)) [
    | inl e ↦ ground arith
    | inr (b, e) ↦ ground (arith, of_pool-remove owned_by p i h.owned b e)
  ]
  held-apply grow d (truncates i n) p h = elim (Option-cases (lookup i h.owned)) [
    | inl e ↦ ground arith
    | inr (b, e) ↦ ground (arith, of_pool-remove owned_by p i h.owned b e)
  ]
  held-apply grow d (adopts_vec xs) p h = omega arith
  held-apply grow d (drops i) p h = elim (Option-cases (lookup i h.owned)) [
    | inl e ↦ ground arith
    | inr (b, e) ↦ ground (arith, of_pool-remove owned_by p i h.owned b e)
  ]
  held-apply grow d (clones i) p h = elim (Option-cases (lookup i h.shared)) [
    | inl e ↦ ground arith
    | inr (s, e) ↦
        ground (arith, of_pool-replace shared_by p i (record s { refs = s.refs + 1 }) h.shared s e)
  ]
  held-apply grow d (drops_shared i) p h = elim (Option-cases (lookup i h.shared)) [
    | inl e ↦ ground arith
    | inr (s, e) ↦ ground (
      arith,
      of_pool-remove shared_by p i h.shared s e,
      free_of-give_back p s.pool s.content h.free,
      of_pool-replace shared_by p i (record s { refs = s.refs - 1 }) h.shared s e,
    )
  ]
