-- ===== src/Data/Synchronized/Tests.antt =====
-- Two inputs in memory, and a callback that keeps what it is called with.
use skyhookml.Prelude.{nat_eq, text_eq, pair_eq, ℕ, none, some, List, [], ◌∷◌, ◌++◌}
use skyhookml.Data.Slices.{SliceReader}
use skyhookml.Data.Synchronized.{Outcome}

abbrev Calls : Type 0
Calls = List (ℕ × List (List ℕ))

abbrev keep : Calls → ℕ → List (List ℕ) → Outcome Calls
keep calls pos cur = some (none, calls ++ (pos, cur) ∷ [])

abbrev ages : List ℕ
ages = 3 ∷ 5 ∷ []

abbrev sizes : List ℕ
sizes = 7 ∷ 9 ∷ []

abbrev inputs : List (SliceReader ℕ)
inputs = record { values = ages; pos = 0 } ∷ record { values = sizes; pos = 0 } ∷ []
