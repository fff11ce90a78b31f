-- ===== src/Affinity/Trace.antt =====
-- The calls of `get` and `set` by any number of handlers, in the order in which they took the lock.
use intact.Prelude.{ℕ, ◌≤◌, List, [], ◌∷◌, String, Option, some, str_eq, if◌then◌else◌}
use intact.Affinity.{Affinity, AffinityEntry, get, set}

pub data Op : Type 0 where
  -- key, now
  asks : String → ℕ → Op
  -- key, account, now
  answers : String → String → ℕ → Op

abbrev pub time_of : Op → ℕ
time_of (asks key now) = now
time_of (answers key conn now) = now

unfoldable pub apply : Affinity → Op → Affinity
apply m (asks key now) = (get m key now).0
apply m (answers key conn now) = set m key conn now

unfoldable pub run : Affinity → List Op → Affinity
run m [] = m
run m (op ∷ ops) = run (apply m op) ops

-- The clock does not run backwards from `last`.
abbrev pub InOrder : ℕ → List Op → Type 0
InOrder last [] = Unit
InOrder last (op ∷ ops) = (last ≤ time_of op) × InOrder (time_of op) ops

-- The account that answered the session last, and when.
abbrev pub noted : String → Option AffinityEntry → Op → Option AffinityEntry
noted key last (asks k now) = last
noted key last (answers k conn now) =
    if str_eq k key then some (record { conn = conn; seen = now }) else last

unfoldable pub last_answer : String → Option AffinityEntry → List Op → Option AffinityEntry
last_answer key last [] = last
last_answer key last (op ∷ ops) = last_answer key (noted key last op) ops
