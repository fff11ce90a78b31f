-- ===== src/Window/Maps.antt =====
-- A map of windows in which one key's window is trimmed or charged.
use mathlib.Core.List.{append-nil}
use intact.Prelude.{
  ℕ, ◌≤◌, List, [], ◌∷◌, ◌++◌, String, ◌≡◌, refl, arith, Bool, true, false, str_eq, eq_iff,
  if◌then◌else◌,
}
use intact.Prelude.Dict.{Dict, insert, lookup-insert}
use intact.Window.{trim_window, times_of}
use intact.Window.Tracks.{Tracks, Tracks-later, Tracks-trim, Tracks-push}

pub times_of-insert :
    (id : String) (ts : List ℕ) (m : Dict (List ℕ)) (k : String)
    → times_of (insert id ts m) k ≡ (if str_eq id k then ts else times_of m k)
times_of-insert id ts m k = rw lookup-insert (ground arith)

module _ {win last now : ℕ} (m : Dict (List ℕ)) (log : String → List ℕ) (fresh : last ≤ now)
    (id : String) (h : (k : String) → Tracks win last (times_of m k) (log k)) where
  trim_case :
      (k : String) (b : Bool)
      → str_eq id k ≡ b
      → Tracks win now (if b then trim_window (times_of m id) now win else times_of m k) (log k)
  trim_case k true e = rw (← (eq_iff id k).0 e) (Tracks-trim fresh (h id))
  trim_case k false e = Tracks-later fresh (h k)

  push_case :
      (k : String) (b : Bool)
      → str_eq id k ≡ b
      → Tracks win now
          (if b then trim_window (times_of m id) now win ++ now ∷ [] else times_of m k)
          (log k ++ (if b then now ∷ [] else []))
  push_case k true e = rw (← (eq_iff id k).0 e) (Tracks-push (Tracks-trim fresh (h id)))
  push_case k false e = rw append-nil (Tracks-later fresh (h k))

  pub after_trim :
      (m' : Dict (List ℕ))
      → ((k : String)
          → times_of m' k
            ≡ (if str_eq id k then trim_window (times_of m id) now win else times_of m k))
      → (k : String) → Tracks win now (times_of m' k) (log k)
  after_trim m' e k = rw (e k) (trim_case k (str_eq id k) refl)

  pub after_push :
      (m' : Dict (List ℕ)) (log' : String → List ℕ)
      → ((k : String)
          → times_of m' k ≡ (
              if str_eq id k
              then trim_window (times_of m id) now win ++ now ∷ []
              else times_of m k))
      → ((k : String) → log' k ≡ log k ++ (if str_eq id k then now ∷ [] else []))
      → (k : String) → Tracks win now (times_of m' k) (log' k)
  after_push m' log' e l k = rw (e k, l k) (push_case k (str_eq id k) refl)
