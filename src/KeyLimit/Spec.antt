-- ===== src/KeyLimit/Spec.antt =====
-- What keylimit.go promises, with no map and no window kept: the limiter remembers every request
-- that it admitted, and looks at those of the key in the last minute.
use intact.Prelude.{
  ℕ, ◌+◌, ◌-◌, ◌≤◌, List, [], ◌∷◌, ◌++◌, String, Option, none, some, leb, length, get_elem?, keep,
  str_eq, if◌then◌else◌,
}
use intact.Window.{minute, live}
use intact.KeyLimit.{Answer, allowed, refused, Limiter, allow, count}

pub data Call : Type 0 where
  -- key, rpm, now
  ask : String → ℕ → ℕ → Call
  tally : String → ℕ → Call

pub data Reply : Type 0 where
  answered : Option Answer → Reply
  counted : ℕ → Reply

abbrev pub time_of : Call → ℕ
time_of (ask key rpm now) = now
time_of (tally key now) = now

-- The calls of any number of handlers, in the order in which they took the lock.
unfoldable pub serve : Limiter → Call → Limiter × Reply
serve l (ask key rpm now) = let (l', a) = allow l key rpm now in (l', answered a)
serve l (tally key now) = let (l', n) = count l key now in (l', counted n)

unfoldable pub run : Limiter → List Call → List Reply
unfolding serve
run l [] = []
run l (c ∷ cs) = let (l', r) = serve l c in r ∷ run l' cs

abbrev pub History : Type 0
History = List (String × ℕ)

unfoldable pub made : String → History → List ℕ
made key [] = []
made key ((k, t) ∷ h) = if str_eq k key then t ∷ made key h else made key h

abbrev pub recent : String → ℕ → History → List ℕ
recent key now h = keep (live minute now) (made key h)

unfoldable pub wait_of : Option ℕ → ℕ → Option Answer
wait_of none now = none
wait_of (some t) now = some (refused (t + minute - now))

unfoldable pub ideal : History → Call → History × Reply
unfolding wait_of
ideal h (ask key rpm now) =
    let ts = recent key now h in
    if leb rpm (length ts)
    then (h, answered (wait_of (get_elem? ts (length ts - rpm)) now))
    else (h ++ (key, now) ∷ [], answered (some allowed))
ideal h (tally key now) = (h, counted (length (recent key now h)))

unfoldable pub ideal_run : History → List Call → List Reply
ideal_run h [] = []
ideal_run h (c ∷ cs) = let (h', r) = ideal h c in r ∷ ideal_run h' cs

-- The clock does not run backwards from `last`.
abbrev pub InOrder : ℕ → List Call → Type 0
InOrder last [] = Unit
InOrder last (c ∷ cs) = (last ≤ time_of c) × InOrder (time_of c) cs
