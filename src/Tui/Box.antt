-- ===== src/Tui/Box.antt =====
-- src/tui.rs: the shape of a box.
use meshconf.Prelude.{
  ℕ, ◌+◌, ◌≤◌, ◌≡◌, Bool, true, false, Option, none, some, List, [], ◌∷◌, length, All,
}
use meshconf.Tui.{Placed, border, title_row}

abbrev pub HasWidth : ℕ → List ℕ → Type 0
HasWidth w row = length row ≡ w

-- The rows above the lines.
abbrev frame : ℕ → List ℕ → List (List ℕ)
frame w title = border 0x256d 0x256e w ∷ title_row (w + 4) title ∷ border 0x251c 0x2524 w ∷ []

-- The rows of a box are all equally wide, and not wider than the terminal less a margin.
abbrev pub IsAligned : ℕ → Option (List Placed) → Type 0
IsAligned term_w none = ⊥
IsAligned term_w (some ps) = (w : ℕ) × (w + 4 ≤ term_w) × All (λ (p : Placed). length p.text ≡ w) ps

-- What is drawn, where the title fits and where it does not.
abbrev pub IsDrawn : Bool → ℕ → Option (List Placed) → Type 0
IsDrawn true term_w r = IsAligned term_w r
IsDrawn false term_w r = r ≡ none
