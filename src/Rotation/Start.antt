-- ===== src/Rotation/Start.antt =====
-- `startFor` as a whole.
use mathlib.Core.List.{Perm}
use mathlib.Core.List.Perm
use intact.Prelude.{ℕ, List, [], ◌∷◌, String, ◌≢◌, str_eq, inl, inr, Bool-cases}
use intact.Rotation.{
  Connection, Rotation, Cursors, rotate_fallback, ordered, start_one, one_provider, start_for,
}
use intact.Rotation.Order.{ordered_sorts}
use intact.Rotation.Standby.{tries, IsStandbyLast, with_standby_last-tries}

abbrev TriesAll : List Connection → Cursors × List Connection × ℕ → Type 0
TriesAll targets r = Perm (tries r) targets × IsStandbyLast (tries r)

ordered-ne-nil : (r : Rotation) (c : Connection) (cs : List Connection) → ordered r (c ∷ cs) ≢ []
ordered-ne-nil r c cs e = cc (Perm.nil-eq (rw e at (ordered_sorts r (c ∷ cs)).0))

start_one_tries :
    (rot : Rotation) (prov : String) (c : Connection) (cs : List Connection) (m : Cursors)
    → TriesAll (c ∷ cs) (start_one rot prov (c ∷ cs) m)
unfolding start_one
start_one_tries rot prov c cs m = elim (Bool-cases (str_eq rot.mode rotate_fallback)) [
  | inl first ↦ rw first (
      let (p, h) = with_standby_last-tries (ordered rot (c ∷ cs)) _ m (ordered-ne-nil rot c cs) in
      (Perm.trans p (ordered_sorts rot (c ∷ cs)).0, h))
  | inr turns ↦ rw turns (
      let (p, h) = with_standby_last-tries (ordered rot (c ∷ cs)) _ m (ordered-ne-nil rot c cs) in
      (Perm.trans p (ordered_sorts rot (c ∷ cs)).0, h))
]

-- Whatever rotations are stored and wherever the cursors stand, `startFor` has a request try every
-- given account, each as often as it is listed, and no standby account before one that is not.
pub start_for-tries :
    (rotation : String → Rotation) (model : String) (first : Connection) (others : List Connection)
    (m : Cursors)
    → Perm (tries (start_for rotation model first others m)) (first ∷ others)
      × IsStandbyLast (tries (start_for rotation model first others m))
unfolding start_for
start_for-tries rotation model first others m =
    elim (Bool-cases (one_provider first.provider others)) [
      | inl one ↦ rw one (start_one_tries (rotation first.provider) first.provider first others m)
      | inr pool ↦ rw pool (with_standby_last-tries (first ∷ others) _ m (λ e. cc))
    ]
