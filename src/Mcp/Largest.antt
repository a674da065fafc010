-- ===== src/Mcp/Largest.antt =====
-- mcp.py: the binary search for the largest preview that fits, which `_largest_string_capped_value`,
-- `_bounded_tool_response`, `_bounded_tool_error` and `_encode_response_line` share. `top` is
-- `high + 1`, since `high` ends at -1 where not even the empty text fits. The test of a length may
-- raise, as `encode` does on a text that has no UTF-8.
use notebook_launcher.Prelude.{
  ℕ, zero, suc, ◌+◌, ◌-◌, Bool, true, false, Option, none, some, ltb, if◌then◌else◌,
}
use Prim.Native.Nat.{◌/◌}
use notebook_launcher.Action.{Result, ok, err}

-- The variables of the loop; the candidate of a length is kept by its length.
pub record Search : Type 0 where
  pub low : ℕ
  pub top : ℕ
  pub best : Option ℕ

-- `(low + high) // 2`
abbrev pub middle : Search → ℕ
middle s = (s.low + (s.top - 1)) / 2

-- The end of a round, by whether the middle fits.
abbrev pub narrow : Bool → Search → Search
narrow true s = record s { low = suc (middle s); best = some (middle s) }
narrow false s = record s { top = middle s }

-- `while low <= high: …`, on fuel
unfoldable pub search_from : ℕ → (ℕ → Result Bool) → Search → Result Search
search_from zero fits s = ok s
search_from (suc fuel) fits s =
    if ltb s.low s.top
    then elim (fits (middle s)) [ ok b ↦ search_from fuel fits (narrow b s) | err e ↦ err e ]
    else ok s

abbrev pub start : ℕ → ℕ → Search
start low high = record { low = low; top = suc high; best = none }

abbrev pub best_of : Result Search → Result (Option ℕ)
best_of (ok s) = ok s.best
best_of (err e) = err e

-- The search between `low` and `high`; each round makes the range smaller.
abbrev pub largest_fitting : (ℕ → Result Bool) → ℕ → ℕ → Result (Option ℕ)
largest_fitting fits low high = best_of (search_from (suc high - low) fits (start low high))
