-- ===== src/KeyLimit.antt =====
-- internal/httpapi/keylimit.go: the requests of each API key in the last 60 seconds. A method runs
-- under the limiter's lock, so it is one step from a map to a map.
pub mod Spec
pub mod Refines
pub mod Waits
mod Tests
use intact.Prelude.{
  ℕ, ◌+◌, ◌-◌, List, [], ◌∷◌, ◌++◌, String, Bool, true, false, Option, none, some, leb, length,
  get_elem?, if◌then◌else◌,
}
use intact.Prelude.Dict.{Dict, insert, delete}
use intact.Window.{minute, trim_window, times_of}

-- the field `seen`
abbrev pub Limiter : Type 0
Limiter = Dict (List ℕ)

-- The map keeps no key whose window is empty.
pub store_window : Limiter → String → List ℕ → Limiter × List ℕ
store_window l key [] = (delete key l, [])
store_window l key (t ∷ ts) = (insert key (t ∷ ts) l, t ∷ ts)

unfoldable pub window : Limiter → String → ℕ → Limiter × List ℕ
unfolding store_window
window l key now = store_window l key (trim_window (times_of l key) now minute)

pub data Answer : Type 0 where
  allowed : Answer
  -- the wait until the oldest of the last `rpm` requests leaves the window
  refused : ℕ → Answer

-- `none` is the panic of an index out of range.
refuse_after : Option ℕ → ℕ → Option Answer
refuse_after none now = none
refuse_after (some t) now = some (refused (t + minute - now))

decide : Limiter → List ℕ → String → ℕ → ℕ → Limiter × Option Answer
unfolding refuse_after
decide l ts key rpm now =
    if leb rpm (length ts)
    then (l, refuse_after (get_elem? ts (length ts - rpm)) now)
    else (insert key (ts ++ now ∷ []) l, some allowed)

unfoldable pub allow : Limiter → String → ℕ → ℕ → Limiter × Option Answer
unfolding window decide
allow l key rpm now = let (l', ts) = window l key now in decide l' ts key rpm now

unfoldable pub count : Limiter → String → ℕ → Limiter × ℕ
unfolding window
count l key now = let (l', ts) = window l key now in (l', length ts)
