-- ===== src/Tui/Tests.antt =====
-- Runs of src/tui.rs.
use meshconf.Prelude.{ℕ, List, [], ◌∷◌, arith}
use meshconf.Kitty.{codes}
use meshconf.Tui.Banner.{banner_lines}
use meshconf.Tui.Words.{Holds, banner_lines-Holds}
use meshconf.Tui.Break.{IsFound, banner_lines-IsFound}

abbrev greeting : List ℕ
greeting = codes "Hello"

banner_lines-Holds_example :
    Holds 16 (greeting ∷ greeting ∷ []) (banner_lines 0 20 (greeting ∷ greeting ∷ []))
banner_lines-Holds_example = banner_lines-Holds 0 20 greeting (greeting ∷ []) (ground arith)

banner_lines-IsFound_example : IsFound (banner_lines 11 9 (codes "No" ∷ codes "connection" ∷ []))
banner_lines-IsFound_example =
    banner_lines-IsFound 11 9 (codes "No" ∷ codes "connection" ∷ []) (omega arith) (ground arith)
