-- ===== src/Window/Tracks.antt =====
-- A kept window against the full log of the times that were put into it.
use intact.Prelude.{
  ℕ, ◌≤◌, List, [], ◌∷◌, ◌++◌, ◌≡◌, refl, ap, ◌∙◌, arith, keep, All, All-append, IsSorted,
  IsSorted-append, All-le_trans, keep-append,
}
use intact.Window.{live, trim_window}
use intact.Window.Laws.{trim_window-eq-keep, keep-keep-live, All-trim_window, IsSorted-trim_window}

-- The kept times are in order, none is later than `last`, and from `last` on those inside the
-- window are those of the log.
pub record Tracks (win last : ℕ) (ts log : List ℕ) : Type 0 where
  pub sorted : IsSorted ts
  pub past : All (λ t. t ≤ last) ts
  pub same : (now : ℕ) → last ≤ now → keep (live win now) ts ≡ keep (live win now) log

pub Tracks-nil : (win : ℕ) → Tracks win 0 [] []
Tracks-nil win = record { sorted = tt; past = tt; same = λ now le. refl }

module _ {win last now : ℕ} {ts log : List ℕ} (fresh : last ≤ now)
    (t : Tracks win last ts log) where
  pub Tracks-later : Tracks win now ts log
  Tracks-later = record {
    sorted = t.sorted;
    past = All-le_trans ts last now fresh t.past;
    same = λ later le. t.same later (omega arith);
  }

  pub Tracks-trim : Tracks win now (trim_window ts now win) log
  Tracks-trim = record {
    sorted = IsSorted-trim_window ts now win t.sorted;
    past = All-trim_window _ ts now win (All-le_trans ts last now fresh t.past);
    same = λ later le.
        rw (trim_window-eq-keep win now ts t.sorted)
          (keep-keep-live win now later ts le ∙ t.same later (omega arith));
  }

  pub trim_window-log : trim_window ts now win ≡ keep (live win now) log
  trim_window-log = trim_window-eq-keep win now ts t.sorted ∙ t.same now fresh

module _ {win now : ℕ} {ts log : List ℕ} (t : Tracks win now ts log) where
  pub Tracks-push : Tracks win now (ts ++ now ∷ []) (log ++ now ∷ [])
  Tracks-push = record {
    sorted = IsSorted-append ts now t.sorted t.past;
    past = All-append (λ u. u ≤ now) ts (now ∷ []) t.past (omega arith, tt);
    same = λ later le.
        rw (keep-append (live win later) ts (now ∷ []), keep-append (live win later) log (now ∷ []))
          (ap (λ (x : List ℕ). x ++ keep (live win later) (now ∷ [])) (t.same later le));
  }
