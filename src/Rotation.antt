-- ===== src/Rotation.antt =====
-- internal/httpapi/rotation.go: how the accounts of a provider take turns.
pub mod Order
pub mod Standby
pub mod Turns
pub mod Start
mod Tests
use intact.Prelude.{
  ℕ, zero, suc, ◌+◌, ◌%◌, List, [], ◌∷◌, ◌++◌, String, Bool, true, false, Option, none, some, ◌||◌,
  not, ltb, leb, length, take, drop, str_eq, str_append, if◌then◌else◌,
}
use intact.Prelude.Dict.{Dict, lookup, insert, delete}
use intact.Prelude.Int.{ℤ, pos, negsuc, below, pos_part}

-- `store.Connection` (internal/store/connection.go)
pub record Connection : Type 0 where
  pub id : String
  pub provider : String
  pub label : String
  pub is_active : Bool
  pub standby : Bool
  pub base_url : String
  pub meta : Dict String

pub record Rotation : Type 0 where
  pub mode : String
  pub sticky : ℤ
  pub order : List String

abbrev pub rotate_round_robin : String
rotate_round_robin = "round-robin"

abbrev pub rotate_fallback : String
rotate_fallback = "fallback"

-- What `rotation` starts from, before the stored value is decoded over it.
abbrev pub default_rotation : Rotation
default_rotation = record { mode = rotate_round_robin; sticky = pos 1; order = [] }

-- `rotation`, on what the stored value decoded to
unfoldable pub rotation_of : Rotation → Rotation
rotation_of r = record {
  mode = if str_eq r.mode rotate_fallback then r.mode else rotate_round_robin;
  sticky = if below r.sticky 1 then pos 1 else r.sticky;
  order = r.order;
}

-- The map of `ordered` from an id to its place: a later place of the same id wins.
unfoldable pub places : ℕ → List String → Dict ℕ → Dict ℕ
places i [] m = m
places i (id ∷ ids) m = places (suc i) ids (insert id i m)

unfoldable pub place_of : Rotation → Connection → Option ℕ
unfolding places
place_of r c = lookup c.id (places 0 r.order [])

-- The comparison of `ordered`, on the two places.
unfoldable pub before : Option ℕ → Option ℕ → Bool
before (some i) (some j) = ltb i j
before (some i) none = true
before none (some j) = false
before none none = false

-- `sort.SliceStable` by that comparison: equals keep their order.
unfoldable pub put_stable : (Connection → Option ℕ) → Connection → List Connection → List Connection
put_stable place c [] = c ∷ []
put_stable place c (d ∷ ds) =
    if before (place d) (place c) then d ∷ put_stable place c ds else c ∷ d ∷ ds

unfoldable pub slice_stable : (Connection → Option ℕ) → List Connection → List Connection
unfolding put_stable
slice_stable place [] = []
slice_stable place (c ∷ cs) = put_stable place c (slice_stable place cs)

unfoldable pub ordered : Rotation → List Connection → List Connection
unfolding slice_stable
ordered r conns = slice_stable (place_of r) conns

-- The field `rrNext`: a cursor is the account's index and how often it served in a row.
pub record RrCursor : Type 0 where
  pub i : ℕ
  pub used : ℕ

abbrev pub Cursors : Type 0
Cursors = Dict RrCursor

-- A missing key reads as the zero cursor.
abbrev pub or_start : Option RrCursor → RrCursor
or_start none = record { i = 0; used = 0 }
or_start (some c) = c

abbrev pub cursor_of : Cursors → String → RrCursor
cursor_of m key = or_start (lookup key m)

-- `c.used >= sticky`, and the cursor moved on
unfoldable pub turn : ℕ → ℤ → ℕ → ℕ → RrCursor
turn n sticky i used =
    if leb (pos_part sticky) used
    then record { i = (i + 1) % n; used = 0 }
    else record { i = i; used = used }

unfoldable pub advance : Cursors → String → ℕ → ℤ → Cursors × ℕ
unfolding turn
advance m key n sticky =
    let c = cursor_of m key in let i = c.i % n in (insert key (turn n sticky i (c.used + 1)) m, i)

-- The two lists that `withStandbyLast` and `sessionOrder` split the accounts into.
abbrev pub normal_of : List Connection → List Connection
normal_of [] = []
normal_of (c ∷ cs) = if c.standby then normal_of cs else c ∷ normal_of cs

abbrev pub standby_of : List Connection → List Connection
standby_of [] = []
standby_of (c ∷ cs) = if c.standby then c ∷ standby_of cs else standby_of cs

-- `append(append(out, normal[i:]...), normal[:i]...)`
abbrev pub turned {ℓ} : {A : Type ℓ} → List A → ℕ → List A
turned xs i = drop i xs ++ take i xs

pub with_normal_and_standby :
    List Connection
    → List Connection
    → List Connection
    → (ℕ → Cursors → Cursors × ℕ)
    → Cursors
    → Cursors × List Connection × ℕ
with_normal_and_standby targets normal [] pick m =
    let (m', i) = pick (length targets) m in (m', targets, i)
with_normal_and_standby targets [] (s ∷ ss) pick m = (m, s ∷ ss, 0)
with_normal_and_standby targets (n ∷ ns) (s ∷ ss) pick m =
    let (m', i) = pick (length (n ∷ ns)) m in (m', turned (n ∷ ns) i ++ s ∷ ss, 0)

unfoldable pub with_standby_last :
    List Connection → (ℕ → Cursors → Cursors × ℕ) → Cursors → Cursors × List Connection × ℕ
unfolding with_normal_and_standby
with_standby_last targets pick m =
    with_normal_and_standby targets (normal_of targets) (standby_of targets) pick m

-- The loop of `startFor` over `targets[1:]`.
unfoldable pub one_provider : String → List Connection → Bool
one_provider prov [] = true
one_provider prov (c ∷ cs) = if str_eq c.provider prov then one_provider prov cs else false

-- `startFor` on the accounts of one provider.
pub start_one : Rotation → String → List Connection → Cursors → Cursors × List Connection × ℕ
start_one rot prov targets m =
    if str_eq rot.mode rotate_fallback
    then with_standby_last (ordered rot targets) (λ n m'. (m', 0)) m
    else with_standby_last (ordered rot targets)
        (λ n m'. advance m' (str_append "p:" prov) n rot.sticky) m

-- `startFor` of a list that is not empty: `first` is `targets[0]`, and `rotation` is what
-- `a.rotation` answers for a provider.
unfoldable pub start_for :
    (String → Rotation)
    → String
    → Connection
    → List Connection
    → Cursors
    → Cursors × List Connection × ℕ
unfolding one_provider start_one
start_for rotation model first others m =
    if one_provider first.provider others
    then start_one (rotation first.provider) first.provider (first ∷ others) m
    else with_standby_last (first ∷ others) (λ n m'. advance m' (str_append "m:" model) n (pos 1)) m
