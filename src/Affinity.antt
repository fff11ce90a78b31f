-- ===== src/Affinity.antt =====
-- internal/httpapi/affinity.go: which account last answered each session, and the order in which a
-- session's request tries the accounts.
-- `time.Since(seen) > affinityTTL` is `seen + affinity_ttl < now`. A range over the map is a pass
-- over its entries.
pub mod Trace
pub mod Prune
pub mod Size
pub mod Reads
pub mod Home
mod Tests
use intact.Prelude.{
  ℕ, ◌+◌, ◌-◌, ◌*◌, ◌/◌, List, [], ◌∷◌, ◌++◌, String, Bool, true, false, not, ◌&&◌, ◌||◌, Option,
  none, some, ltb, leb, length, keep, str_eq, if◌then◌else◌,
}
use intact.Prelude.Dict.{Dict, lookup, insert, delete}
use intact.Window.{minute}
use intact.Rotation.{Connection, Rotation, ordered, normal_of, standby_of}

pub record AffinityEntry : Type 0 where
  pub conn : String
  pub seen : ℕ

abbrev pub Affinity : Type 0
Affinity = Dict AffinityEntry

abbrev pub affinity_ttl : ℕ
affinity_ttl = 60 * minute

abbrev pub affinity_max : ℕ
affinity_max = 20000

abbrev pub expired : ℕ → AffinityEntry → Bool
expired now e = ltb (e.seen + affinity_ttl) now

get_entry : Affinity → String → ℕ → Option AffinityEntry → Affinity × String
get_entry m key now none = (m, "")
get_entry m key now (some e) = if expired now e then (delete key m, "") else (m, e.conn)

-- `get`: the map, and the account's id or the empty string.
unfoldable pub get : Affinity → String → ℕ → Affinity × String
unfolding get_entry
get m key now = get_entry m key now (lookup key m)

-- The first loop of `prune`: what it keeps, and the oldest time that it keeps.
abbrev pub older : Option ℕ → ℕ → Option ℕ
older none t = some t
older (some o) t = if ltb t o then some t else some o

unfoldable pub prune_expired : ℕ → Affinity → Option ℕ → Affinity × Option ℕ
prune_expired now [] oldest = ([], oldest)
prune_expired now (entry ∷ m) oldest =
    let gone = prune_expired now m oldest in
    let stays = prune_expired now m (older oldest entry.1.seen) in
    if expired now entry.1 then gone else (entry ∷ stays.0, stays.1)

-- `oldest.Add(time.Since(oldest) / 2)`: a duration may be negative, and Go's `/` rounds to zero.
unfoldable pub midway : ℕ → ℕ → ℕ
midway oldest now =
    if leb oldest now then oldest + (now - oldest) / 2 else oldest - (oldest - now) / 2

-- The second loop of `prune`. With no entry left `oldest` is the zero time, and nothing is dropped.
unfoldable pub prune_half : ℕ → Affinity → Option ℕ → Affinity
unfolding midway
prune_half now m none = m
prune_half now m (some oldest) = keep (λ entry. ltb (midway oldest now) entry.1.seen) m

-- `affinityMax` is the argument `max`.
unfoldable pub prune : ℕ → ℕ → Affinity → Affinity
unfolding prune_expired prune_half
prune max now m =
    let (live, oldest) = prune_expired now m none in
    if ltb (length live) max then live else prune_half now live oldest

is_known : Option AffinityEntry → Bool
is_known none = false
is_known (some e) = true

unfoldable pub set_entry : ℕ → Affinity → String → String → ℕ → Affinity
unfolding prune is_known
set_entry max m key conn now =
    insert key (record { conn = conn; seen = now })
      (if not (is_known (lookup key m)) && leb max (length m) then prune max now m else m)

-- `set`
abbrev pub set : Affinity → String → String → ℕ → Affinity
set = set_entry affinity_max

-- The loop that looks for the session's account: the last one of that id.
unfoldable pub find_home : String → List Connection → Option Connection → Option Connection
find_home id [] home = home
find_home id (c ∷ cs) home = find_home id cs (if str_eq c.id id then some c else home)

-- The loop of `sessionOrder` over the rotation's order: it passes over the session's account.
abbrev pub others_of : String → List Connection → List Connection
others_of id = keep (λ c. not (str_eq c.id id))

abbrev pub has_some : List Connection → Bool
has_some [] = false
has_some (c ∷ cs) = true

-- `sessionOrder` once the session's account is found; `rot` is the rotation of `targets[0]`.
unfoldable pub home_first :
    Rotation → String → List Connection → Option Connection → Option (List Connection)
home_first rot id targets none = none
home_first rot id targets (some home) =
    let rest = others_of id (ordered rot targets) in
    if str_eq id ""
    then none
    else if home.standby && has_some (normal_of rest)
    then none
    else some ((home ∷ normal_of rest) ++ standby_of rest)

-- `sessionOrder`: the map, and the order, or none where it declines.
unfoldable pub session_order :
    Affinity → Rotation → String → List Connection → ℕ → Affinity × Option (List Connection)
unfolding find_home home_first
session_order m rot key targets now =
    if str_eq key ""
    then (m, none)
    else let (m', id) = get m key now in (m', home_first rot id targets (find_home id targets none))

-- An attempt (internal/httpapi/variants.go).
pub record Attempt : Type 0 where
  pub conn : Connection
  pub model : String

-- `skipSpent`; `is_spent` says whether `spentUntil` of an account's id and a model is set.
abbrev pub model_of : String → Attempt → String
model_of model at = if str_eq at.model "" then model else at.model

abbrev pub or_all : List Attempt → List Attempt → List Attempt
or_all attempts [] = attempts
or_all attempts (at ∷ kept) = at ∷ kept

unfoldable pub skip_spent : (String → String → Bool) → List Attempt → String → List Attempt
skip_spent is_spent attempts model =
    or_all attempts (keep (λ at. not (is_spent at.conn.id (model_of model at))) attempts)
