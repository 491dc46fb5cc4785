-- ===== src/Pool/Clean.antt =====
-- The buffers in the pools of src/pool.rs are empty, so that a checkout hands out defaults only,
-- which src/audio_mixer.rs relies on.
use meshconf.Prelude.{
  ap, ℕ, zero, suc, ap, ◌≡◌, refl, List, [], ◌∷◌, ◌++◌, replicate, some, arith, length, ◌-◌,
}
use meshconf.Pool.{
  suc, Vec, Heap, Call, checks_out_empty, checks_out, pushes, shares, truncates, adopts_vec, drops,
  clones, drops_shared, pop_or_new, resize, checkout_empty, checkout, push_slice, share,
  truncate_and_share, from_vec, drop_owned, clone_shared, drop_shared, deref_owned, apply, run,
  empty_heap,
}

module _ {ℓ} {A : Type ℓ} where
  abbrev pub AllEmpty : List (ℕ × Vec A) → Type ℓ
  AllEmpty [] = Unit {ℓ}
  AllEmpty ((p, v) ∷ m) = (v.items ≡ []) × AllEmpty m

  abbrev pub IsClean : Heap A → Type ℓ
  IsClean h = AllEmpty h.free

module _ {ℓ} {A : Type ℓ} where
  pop_or_new-AllEmpty :
      (p : ℕ) (m : List (ℕ × Vec A))
      → AllEmpty m
      → ((pop_or_new p m).0.items ≡ []) × AllEmpty (pop_or_new p m).1
  pop_or_new-AllEmpty p [] h = (refl, tt)
  pop_or_new-AllEmpty p ((q, v) ∷ m) h = ground (arith, pop_or_new-AllEmpty p m)

  apply-IsClean :
      (grow : ℕ → ℕ → ℕ) (d : A) (c : Call A) (h : Heap A) → IsClean h → IsClean (apply grow d c h)
  unfolding apply checkout_empty checkout push_slice share truncate_and_share from_vec drop_owned
      clone_shared drop_shared
  apply-IsClean grow d (checks_out_empty p) h e = (pop_or_new-AllEmpty p h.free e).1
  apply-IsClean grow d (checks_out p len) h e = (pop_or_new-AllEmpty p h.free e).1
  apply-IsClean grow d (pushes i xs) h e = ground arith
  apply-IsClean grow d (shares i) h e = ground arith
  apply-IsClean grow d (truncates i n) h e = ground arith
  apply-IsClean grow d (adopts_vec xs) h e = e
  apply-IsClean grow d (drops i) h e = ground arith
  apply-IsClean grow d (clones i) h e = ground arith
  apply-IsClean grow d (drops_shared i) h e = ground arith

  run-IsClean :
      (grow : ℕ → ℕ → ℕ) (d : A) (cs : List (Call A)) (h : Heap A)
      → IsClean h
      → IsClean (run grow d cs h)
  unfolding run
  run-IsClean grow d [] h e = e
  run-IsClean grow d (c ∷ cs) h e =
      run-IsClean grow d cs (apply grow d c h) (apply-IsClean grow d c h e)

  resize_empty :
      (grow : ℕ → ℕ → ℕ) (d : A) (len : ℕ) (v : Vec A)
      → v.items ≡ []
      → (resize grow d len v).items ≡ replicate len d
  resize_empty grow d zero v e = ground (arith, ap length e)
  resize_empty grow d (suc n) v e =
      let whole : suc n - length v.items ≡ suc n = omega (arith, ap length e) in
      ground (
        arith,
        ap length e,
        ap (λ (k : ℕ). v.items ++ replicate k d) whole,
        ap (λ (xs : List A). xs ++ replicate (suc n) d) e,
      )

-- After any history, a checkout of `len` elements reads as `len` defaults, and an empty checkout
-- as nothing, whatever the buffers held before.
pub checkout-defaults {ℓ} :
    {A : Type ℓ} (grow : ℕ → ℕ → ℕ) (d : A) (cs : List (Call A)) (p len : ℕ)
    → let h = run grow d cs empty_heap in
      let c = checkout grow d p len h in
      let e = checkout_empty p h in
      (deref_owned c.0 c.1 ≡ some (replicate len d)) × (deref_owned e.0 e.1 ≡ some [])
unfolding checkout checkout_empty deref_owned
checkout-defaults grow d cs p len =
    let h = run grow d cs empty_heap in
    let clean = pop_or_new-AllEmpty p h.free (run-IsClean grow d cs empty_heap tt) in
    ground (arith, resize_empty grow d len (pop_or_new p h.free).0 clean.0)
