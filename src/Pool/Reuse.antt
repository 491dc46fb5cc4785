-- ===== src/Pool/Reuse.antt =====
-- What the last reference of a shared buffer (src/pool.rs) does, and what earlier ones do not.
use meshconf.Prelude.{
  ◌∙◌, ℕ, zero, suc, ◌+◌, ◌-◌, ◌<◌, ◌≤◌, ◌≡◌, refl, ap, List, [], ◌∷◌, replicate, some, arith, ◌==◌,
  Bool-cases, inl, inr,
}
use meshconf.Pool.{
  pop_or_new, Vec, PoolBuf, SharedInner, Heap, lookup, replace, checkout, resize, share,
  clone_shared, drop_shared, clear,
}

module _ {B : Type 0} where
  lookup-replace :
      (i : ℕ) (c : B) (m : List (ℕ × B)) (b : B)
      → lookup i m ≡ some b
      → lookup i (replace i c m) ≡ some c
  lookup-replace i c [] b e = cc
  lookup-replace i c ((j, d) ∷ m) b e = elim (Bool-cases (j == i)) [
    | inl hit ↦ rw hit (ground arith)
    | inr miss ↦ rw miss (ground (arith, lookup-replace i c m b))
  ]

  replace_back :
      (i : ℕ) (c b : B) (m : List (ℕ × B)) → lookup i m ≡ some b → replace i b (replace i c m) ≡ m
  replace_back i c b [] e = refl
  replace_back i c b ((j, d) ∷ m) e = elim (Bool-cases (j == i)) [
    | inl hit ↦ rw hit (ground arith)
    | inr miss ↦ rw miss (ground (arith, replace_back i c b m))
  ]

-- A clone that is dropped again leaves the heap as it was.
pub drop-clone_shared :
    {A : Type 0} (i : ℕ) (s : SharedInner A) (h : Heap A)
    → lookup i h.shared ≡ some s
    → 0 < s.refs
    → drop_shared i (clone_shared i h) ≡ h
unfolding drop_shared clone_shared
drop-clone_shared i s h e pos = ground (
  arith,
  lookup-replace i (record s { refs = s.refs + 1 }) h.shared s e,
  replace_back i (record s { refs = s.refs + 1 }) s h.shared e,
)

-- The last drop puts the buffer, cleared, on top of its pool.
free-drop_shared :
    {A : Type 0} (i s : ℕ) (b : PoolBuf A) (h h' : Heap A)
    → lookup i h.owned ≡ some b
    → share i h ≡ some (s, h')
    → (drop_shared s h').free ≡ (b.pool, clear b.inner) ∷ h.free
unfolding share drop_shared
free-drop_shared i s b h h' e shared = ground arith

resize_fits :
    {A : Type 0} (grow : ℕ → ℕ → ℕ) (d : A) (len capacity : ℕ)
    → len ≤ capacity
    → resize grow d len (record { items = []; capacity = capacity })
      ≡ record { items = replicate len d; capacity = capacity }
resize_fits grow d zero capacity h = refl
resize_fits {A} grow d (suc n) capacity h =
    let whole : suc n - 0 ≡ suc n = omega arith in
    ground (arith, ap (λ (k : ℕ). replicate {A = A} k d) whole)

checkout_top :
    {A : Type 0} (grow : ℕ → ℕ → ℕ) (d : A) (p len : ℕ) (v : Vec A) (m : List (ℕ × Vec A))
    (h : Heap A)
    → h.free ≡ (p, v) ∷ m
    → lookup (checkout grow d p len h).0 (checkout grow d p len h).1.owned
      ≡ some (record { inner = resize grow d len v; pool = p })
unfolding checkout
checkout_top grow d p len v m h e = ground (arith, ap (pop_or_new p) e)

-- A `PoolBuf` that is shared, with its one reference dropped, is the next that its pool hands out: a checkout that fits
-- its capacity gets the same allocation back, cleared to defaults.
pub checkout_reuses :
    {A : Type 0} (grow : ℕ → ℕ → ℕ) (d : A) (i len s : ℕ) (b : PoolBuf A) (h h' : Heap A)
    → lookup i h.owned ≡ some b
    → share i h ≡ some (s, h')
    → len ≤ b.inner.capacity
    → let (k, h'') = checkout grow d b.pool len (drop_shared s h') in
      lookup k h''.owned
      ≡ some (record {
        inner = record { items = replicate len d; capacity = b.inner.capacity };
        pool = b.pool;
      })
checkout_reuses grow d i len s b h h' e shared fits =
    checkout_top grow d b.pool len (clear b.inner) h.free (drop_shared s h')
      (free-drop_shared i s b h h' e shared)
    ∙ ap (λ v. some (record { inner = v; pool = b.pool }))
        (resize_fits grow d len b.inner.capacity fits)
