-- ===== src/Compositor/Entries.antt =====
-- src/video_compositor.rs: the entries of the map of frames, sorted.
use meshconf.Prelude.{inr, inl, Bool-cases, ◌==◌, ℕ, ◌≡◌, refl, false, List, [], ◌∷◌, All, arith}
use meshconf.Prelude.HashMap.{contains, IsMap}
use meshconf.Decoder.{RgbFrame}
use meshconf.Compositor.{some, none, get, insert_peer, sort_peers}

-- The entries of a map, which looking up their keys finds.
abbrev pub IsEntry : List (ℕ × RgbFrame) → ℕ × RgbFrame → Type 0
IsEntry m p = get p.0 m ≡ some p.1

get-absent : (k : ℕ) (m : List (ℕ × RgbFrame)) → contains k m ≡ false → get k m ≡ none
get-absent k [] h = refl
get-absent k (p ∷ m) h = ground (arith, get-absent k m)

All-IsEntry-cons :
    (p : ℕ × RgbFrame) (m qs : List (ℕ × RgbFrame))
    → contains p.0 m ≡ false
    → All (IsEntry m) qs
    → All (IsEntry (p ∷ m)) qs
All-IsEntry-cons p m [] h a = tt
All-IsEntry-cons p m (q ∷ qs) h a = (
  elim (Bool-cases (q.0 == p.0)) [
    | inl e ↦ absurd (ground (arith, get-absent p.0 m h))
    | inr e ↦ rw e a.0
  ],
  All-IsEntry-cons p m qs h a.1,
)

pub entries-IsEntry : (m : List (ℕ × RgbFrame)) → IsMap m → All (IsEntry m) m
entries-IsEntry [] h = tt
entries-IsEntry (p ∷ m) h = (ground arith, All-IsEntry-cons p m m h.0 (entries-IsEntry m h.1))

All-insert_peer :
    (P : ℕ × RgbFrame → Type 0) (p : ℕ × RgbFrame) (ps : List (ℕ × RgbFrame))
    → P p
    → All P ps
    → All P (insert_peer p ps)
unfolding insert_peer
All-insert_peer P p [] h a = (h, tt)
All-insert_peer P p (q ∷ qs) h a = ground (arith, All-insert_peer P p qs)

pub All-sort_peers :
    (P : ℕ × RgbFrame → Type 0) (ps : List (ℕ × RgbFrame)) → All P ps → All P (sort_peers ps)
unfolding sort_peers
All-sort_peers P [] a = tt
All-sort_peers P (p ∷ ps) a = All-insert_peer P p (sort_peers ps) a.0 (All-sort_peers P ps a.1)
