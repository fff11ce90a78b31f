-- ===== src/KeyLimit/Refines.antt =====
-- keylimit.go implements its specification.
use mathlib.Core.Path.{ap₂}
use intact.Prelude.{
  ℕ, ◌-◌, ◌≤◌, List, [], ◌∷◌, ◌++◌, String, ◌≡◌, refl, ◌∙◌, Option, none, some, arith, leb, length,
  get_elem?, str_eq, if◌then◌else◌, inl, inr, Bool-cases,
}
use intact.Prelude.Dict.{lookup, insert, lookup-delete}
use intact.Window.{minute, trim_window, times_of}
use intact.Window.Tracks.{Tracks, Tracks-nil, trim_window-log}
use intact.Window.Maps.{times_of-insert, after_trim, after_push}
use intact.KeyLimit.{Limiter, window, allow, count, decide, store_window, refuse_after}
use intact.KeyLimit.Spec.{
  Call, ask, tally, time_of, answered, wait_of, serve, run, History, made, recent, ideal, ideal_run,
  InOrder,
}

pub window_times :
    (l : Limiter) (key : String) (now : ℕ)
    → (window l key now).1 ≡ trim_window (times_of l key) now minute
unfolding window
window_times l key now = ground arith

pub times_of-window :
    (l : Limiter) (key : String) (now : ℕ) (k : String)
    → times_of (window l key now).0 k
      ≡ (if str_eq key k then trim_window (times_of l key) now minute else times_of l k)
unfolding window
times_of-window l key now k = go (trim_window (times_of l key) now minute)
  where
    go :
        (ts : List ℕ)
        → times_of (store_window l key ts).0 k ≡ (if str_eq key k then ts else times_of l k)
    go [] = rw lookup-delete (ground arith)
    go (t ∷ ts) = times_of-insert key (t ∷ ts) l k

made-append :
    (k : String) (h : History) (key : String) (t : ℕ)
    → made k (h ++ (key, t) ∷ []) ≡ made k h ++ (if str_eq key k then t ∷ [] else [])
unfolding made
made-append k [] key t = ground arith
made-append k ((j, u) ∷ h) key t = ground (arith, made-append k h key t)

-- The map and the history agree on what a later call can see.
pub record Keeps (last : ℕ) (l : Limiter) (h : History) : Type 0 where
  pub at : (k : String) → Tracks minute last (times_of l k) (made k h)

module _ {last : ℕ} {l : Limiter} {h : History} (key : String) (now : ℕ) (fresh : last ≤ now)
    (t : Keeps last l h) where
  window-recent : (window l key now).1 ≡ recent key now h
  window-recent = window_times l key now ∙ trim_window-log fresh (t.at key)

  window-Keeps : Keeps now (window l key now).0 h
  window-Keeps = record {
    at = after_trim l (λ k. made k h) fresh key t.at _ (times_of-window l key now);
  }

  times_of-charged :
      (k : String)
      → times_of (insert key ((window l key now).1 ++ now ∷ []) (window l key now).0) k ≡ (
          if str_eq key k
          then trim_window (times_of l key) now minute ++ now ∷ []
          else times_of l k)
  times_of-charged k = rw (times_of-insert, times_of-window, window_times) (ground arith)

  charged-Keeps :
      Keeps now
        (insert key ((window l key now).1 ++ now ∷ []) (window l key now).0)
        (h ++ (key, now) ∷ [])
  charged-Keeps = record {
    at =
        after_push l (λ k. made k h) fresh key t.at _ _ times_of-charged
          (λ k. made-append k h key now);
  }

wait_of_lem : (o : Option ℕ) (now : ℕ) → answered (refuse_after o now) ≡ answered (wait_of o now)
unfolding refuse_after wait_of
wait_of_lem none now = refl
wait_of_lem (some t) now = refl

serve-ideal :
    {last : ℕ} {l : Limiter} {h : History} (c : Call)
    → last ≤ time_of c
    → Keeps last l h
    → ((serve l c).1 ≡ (ideal h c).1) × Keeps (time_of c) (serve l c).0 (ideal h c).0
unfolding serve allow count decide ideal
serve-ideal {last} {l} {h} (ask key rpm now) fresh t =
    let ts = (window l key now).1 in
    let e = window-recent key now fresh t in
    elim (Bool-cases (leb rpm (length ts))) [
      | inl full ↦
          rw (← e) (
            rw full
              (wait_of_lem (get_elem? ts (length ts - rpm)) now, window-Keeps key now fresh t))
      | inr room ↦ rw (← e) (rw room (refl, charged-Keeps key now fresh t))
    ]
serve-ideal {last} {l} {h} (tally key now) fresh t =
    (rw (window-recent key now fresh t), window-Keeps key now fresh t)

run-ideal :
    (cs : List Call) {last : ℕ} {l : Limiter} {h : History}
    → InOrder last cs
    → Keeps last l h
    → run l cs ≡ ideal_run h cs
unfolding run ideal_run
run-ideal [] o t = refl
run-ideal (c ∷ cs) o t =
    let step = serve-ideal c o.0 t in ap₂ (◌∷◌) step.0 (run-ideal cs o.1 step.1)

empty-Keeps : Keeps 0 [] []
unfolding lookup made
empty-Keeps = record { at = λ k. Tracks-nil minute }

-- From an empty map, whatever keys ask and tally in whatever order, with a clock that does not run
-- backwards: every answer of `allow`, the wait included, and every result of `count` is the one
-- that the full history of admitted requests gives.
pub run-eq-ideal_run : (cs : List Call) → InOrder 0 cs → run [] cs ≡ ideal_run [] cs
run-eq-ideal_run cs o = run-ideal cs o empty-Keeps
