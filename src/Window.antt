-- ===== src/Window.antt =====
-- The sliding windows that internal/httpapi keeps as slices of times, oldest first: the loop that
-- drops what left the window (`trimWindow` of loginguard.go, `window` of keylimit.go).
-- A time is a number of nanoseconds. `!t.After(now.Add(-win))` is `t + win ≤ now` here, which is
-- the same comparison with no subtraction.
pub mod Laws
pub mod Tracks
pub mod Maps
use intact.Prelude.Dict.{Dict, lookup, or_nil}
use intact.Prelude.{ℕ, ◌+◌, ◌*◌, List, [], ◌∷◌, Bool, String, ltb, leb, if◌then◌else◌}

abbrev pub second : ℕ
second = 1000000000

abbrev pub minute : ℕ
minute = 60 * second

-- An attempt at `t` still counts at `now`.
abbrev pub live : ℕ → ℕ → ℕ → Bool
live win now t = ltb now (t + win)

-- The loop stops at the first time inside the window.
unfoldable pub trim_window : List ℕ → ℕ → ℕ → List ℕ
trim_window [] now win = []
trim_window (t ∷ ts) now win = if leb (t + win) now then trim_window ts now win else t ∷ ts

-- m[key] of a map of windows: a missing key reads as the nil slice.
abbrev pub times_of : Dict (List ℕ) → String → List ℕ
times_of m key = or_nil (lookup key m)
