-- ===== src/Pool.antt =====
-- src/pool.rs: pools of reusable buffers, and the two kinds of handle. The heap holds every buffer
-- that was allocated: free in its pool, in a `PoolBuf`, or in a `SharedInner` with a count of
-- references. A pool is a number, a handle a number too. Rust's ownership rules out a handle that
-- was given up; here such a handle is not found, and the operation does nothing.
pub mod Clean
pub mod Return
pub mod Reuse
pub mod Tests
use meshconf.Prelude.{
  ℕ, suc, zero, ◌+◌, ◌-◌, Bool, Option, none, some, List, [], ◌∷◌, ◌++◌, length, take, replicate,
  leb, ◌==◌, if◌then◌else◌,
}

-- A `Vec<T>`: its elements, and the elements that its allocation has room for.
pub record Vec {ℓ} (A : Type ℓ) : Type ℓ where
  pub items : List A
  pub capacity : ℕ

pub record PoolBuf {ℓ} (A : Type ℓ) : Type ℓ where
  pub inner : Vec A
  pub pool : ℕ

-- `none` is the empty pool that `SharedBuf::from_vec` makes for its one buffer.
pub record SharedInner {ℓ} (A : Type ℓ) : Type ℓ where
  pub content : Vec A
  pub pool : Option ℕ
  pub refs : ℕ

-- The free buffers of all pools, each with its pool, the last pushed first; and the live handles.
pub record Heap {ℓ} (A : Type ℓ) : Type ℓ where
  pub free : List (ℕ × Vec A)
  pub owned : List (ℕ × PoolBuf A)
  pub shared : List (ℕ × SharedInner A)
  pub next : ℕ

module _ {ℓ} {A : Type ℓ} where
  -- `Vec::new()`, which allocates nothing yet, and `clear`, which keeps the allocation.
  abbrev pub vec_new : Vec A
  vec_new = record { items = []; capacity = 0 }

  abbrev pub clear : Vec A → Vec A
  clear v = record v { items = [] }

module _ {ℓ} {B : Type ℓ} where
  abbrev pub lookup : ℕ → List (ℕ × B) → Option B
  lookup k [] = none
  lookup k ((j, b) ∷ m) = if j == k then some b else lookup k m

  abbrev pub remove : ℕ → List (ℕ × B) → List (ℕ × B)
  remove k [] = []
  remove k ((j, b) ∷ m) = if j == k then m else (j, b) ∷ remove k m

  abbrev pub replace : ℕ → B → List (ℕ × B) → List (ℕ × B)
  replace k b [] = []
  replace k b ((j, c) ∷ m) = if j == k then (j, b) ∷ m else (j, c) ∷ replace k b m

-- How a `Vec` of some capacity grows to hold a number of elements: the library's choice.
module _ {ℓ} {A : Type ℓ} (grow : ℕ → ℕ → ℕ) where
  abbrev pub reserve : ℕ → Vec A → Vec A
  reserve n v = record v { capacity = if leb n v.capacity then v.capacity else grow v.capacity n }

  -- `resize_with(len, T::default)`, with the default `d`.
  abbrev pub resize : A → ℕ → Vec A → Vec A
  resize d len v =
      if leb len (length v.items)
      then record v { items = take len v.items }
      else record (reserve len v) { items = v.items ++ replicate (len - length v.items) d }

  -- `push` is `extend_from_slice` of one element.
  abbrev pub extend : List A → Vec A → Vec A
  extend xs v = record (reserve (length v.items + length xs) v) { items = v.items ++ xs }

module _ {ℓ} {A : Type ℓ} where
  -- `inner.lock().unwrap().pop()` on the pool `p`.
  abbrev pub pop_free : ℕ → List (ℕ × Vec A) → Option (Vec A × List (ℕ × Vec A))
  pop_free p [] = none
  pop_free p ((q, v) ∷ m) =
      let later = pop_free p m in
      if q == p
      then some (v, m)
      else elim later [ none ↦ none | some (w, m') ↦ some (w, (q, v) ∷ m') ]

  -- `.pop().unwrap_or_default()`, and the free buffers that are left.
  abbrev pub pop_or_new : ℕ → List (ℕ × Vec A) → Vec A × List (ℕ × Vec A)
  pop_or_new p free = elim (pop_free p free) [ none ↦ (vec_new, free) | some (v, m) ↦ (v, m) ]

  -- A new `PoolBuf`, with its handle.
  abbrev pub own : ℕ → Vec A → List (ℕ × Vec A) → Heap A → ℕ × Heap A
  own p v free h = (
    h.next,
    record h {
      free = free;
      owned = (h.next, record { inner = v; pool = p }) ∷ h.owned;
      next = h.next + 1;
    },
  )

  unfoldable pub checkout_empty : ℕ → Heap A → ℕ × Heap A
  checkout_empty p h = let (v, free) = pop_or_new p h.free in own p (clear v) free h

  unfoldable pub checkout : (ℕ → ℕ → ℕ) → A → ℕ → ℕ → Heap A → ℕ × Heap A
  checkout grow d p len h =
      let (v, free) = pop_or_new p h.free in own p (resize grow d len v) free h

  -- `push_slice`, and `push` of one value.
  unfoldable pub push_slice : (ℕ → ℕ → ℕ) → List A → ℕ → Heap A → Heap A
  push_slice grow values i h = elim (lookup i h.owned) [
    | none ↦ h
    | some b ↦ record h {
      owned = replace i (record b { inner = extend grow values b.inner }) h.owned;
    }
  ]

  unfoldable pub push : (ℕ → ℕ → ℕ) → A → ℕ → Heap A → Heap A
  unfolding push_slice
  push grow value i h = push_slice grow (value ∷ []) i h

  -- A new `SharedBuf` with one reference, with its handle.
  abbrev pub adopt : Option ℕ → Vec A → List (ℕ × PoolBuf A) → Heap A → ℕ × Heap A
  adopt p v owned h = (
    h.next,
    record h {
      owned = owned;
      shared = (h.next, record { content = v; pool = p; refs = 1 }) ∷ h.shared;
      next = h.next + 1;
    },
  )

  -- `truncate_and_share(len)`: the `PoolBuf` is consumed, and its `drop` finds nothing to return.
  unfoldable pub truncate_and_share : ℕ → ℕ → Heap A → Option (ℕ × Heap A)
  truncate_and_share len i h = elim (lookup i h.owned) [
    | none ↦ none
    | some b ↦
        let v : Vec A = record b.inner { items = take len b.inner.items } in
        some (adopt (some b.pool) v (remove i h.owned) h)
  ]

  unfoldable pub share : ℕ → Heap A → Option (ℕ × Heap A)
  share i h = elim (lookup i h.owned) [
    | none ↦ none
    | some b ↦ some (adopt (some b.pool) b.inner (remove i h.owned) h)
  ]

  -- `SharedBuf::from_vec(v)`: its pool is a new one, which nobody else has.
  unfoldable pub from_vec : List A → Heap A → ℕ × Heap A
  from_vec items h = adopt none (record { items = items; capacity = length items }) h.owned h

  -- `Drop for PoolBuf`, of one that still has its buffer.
  unfoldable pub drop_owned : ℕ → Heap A → Heap A
  drop_owned i h = elim (lookup i h.owned) [
    | none ↦ h
    | some b ↦ record h { free = (b.pool, clear b.inner) ∷ h.free; owned = remove i h.owned }
  ]

  -- `SharedBuf::clone`.
  unfoldable pub clone_shared : ℕ → Heap A → Heap A
  clone_shared i h = elim (lookup i h.shared) [
    | none ↦ h
    | some s ↦ record h { shared = replace i (record s { refs = s.refs + 1 }) h.shared }
  ]

  -- A buffer is pushed to its pool. The pool of `from_vec` goes with its buffer.
  abbrev pub give_back : Option ℕ → Vec A → List (ℕ × Vec A) → List (ℕ × Vec A)
  give_back none v free = free
  give_back (some p) v free = (p, clear v) ∷ free

  -- A clone is dropped. The last one runs `Drop for SharedInner`.
  unfoldable pub drop_shared : ℕ → Heap A → Heap A
  drop_shared i h = elim (lookup i h.shared) [
    | none ↦ h
    | some s ↦
        if leb s.refs 1
        then record h { free = give_back s.pool s.content h.free; shared = remove i h.shared }
        else record h { shared = replace i (record s { refs = s.refs - 1 }) h.shared }
  ]

  -- What a handle dereferences to.
  unfoldable pub deref_owned : ℕ → Heap A → Option (List A)
  deref_owned i h = elim (lookup i h.owned) [ none ↦ none | some b ↦ some b.inner.items ]

  unfoldable pub deref_shared : ℕ → Heap A → Option (List A)
  deref_shared i h = elim (lookup i h.shared) [ none ↦ none | some s ↦ some s.content.items ]

-- The calls that clients make.
pub data Call {ℓ} (A : Type ℓ) : Type ℓ where
  checks_out_empty : ℕ → Call A
  checks_out : ℕ → ℕ → Call A
  pushes : ℕ → List A → Call A
  shares : ℕ → Call A
  truncates : ℕ → ℕ → Call A
  adopts_vec : List A → Call A
  drops : ℕ → Call A
  clones : ℕ → Call A
  drops_shared : ℕ → Call A

abbrev pub or_same {ℓ} : {A : Type ℓ} → Heap A → Option (ℕ × Heap A) → Heap A
or_same h none = h
or_same h (some (i, h')) = h'

module _ {ℓ} {A : Type ℓ} (grow : ℕ → ℕ → ℕ) (d : A) where
  unfoldable pub apply : Call A → Heap A → Heap A
  apply (checks_out_empty p) h = (checkout_empty p h).1
  apply (checks_out p len) h = (checkout grow d p len h).1
  apply (pushes i xs) h = push_slice grow xs i h
  apply (shares i) h = or_same h (share i h)
  apply (truncates i n) h = or_same h (truncate_and_share n i h)
  apply (adopts_vec xs) h = (from_vec xs h).1
  apply (drops i) h = drop_owned i h
  apply (clones i) h = clone_shared i h
  apply (drops_shared i) h = drop_shared i h

  unfoldable pub run : List (Call A) → Heap A → Heap A
  unfolding apply
  run [] h = h
  run (c ∷ cs) h = run cs (apply c h)

abbrev pub empty_heap {ℓ} : {A : Type ℓ} → Heap A
empty_heap = record { free = []; owned = []; shared = []; next = 0 }
