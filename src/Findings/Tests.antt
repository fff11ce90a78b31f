-- ===== src/Findings/Tests.antt =====
-- A finding from its first trace on, and the theorems at concrete inputs.
use intact.Prelude.{◌+◌, String, true, false, ◌≡◌, refl, some, List, [], ◌∷◌, inr}
use intact.Contract.Diff.{Candidate}
use intact.Findings.{
  opened, fixed, wontfix, status_eq, Finding, FindingDb, Trace, by_id, by_path, last_history,
}
use intact.Findings.Versions.{less, greater, equal, compare_versions, is_newer}
use intact.Findings.Resolve.{resolve_finding, resolved, conflict}
use intact.Findings.Lost.{handle_lost, is_after_fix, set_by_operator}
use intact.Findings.Steps.{Event, lost, prune, run}
use intact.Findings.Reopen.{status_after, handle_lost-status}
use intact.Findings.Ruled.{IsRuled}
use intact.Findings.Runs.{resolves, run-IsRuled}
use intact.Findings.Fix.{resolve_finding-settles}

program : Unit {0}
unfolding compare_versions is_newer resolve_finding handle_lost run status_after set_by_operator
    by_path by_id last_history resolves
program = tt

segments_by_number : compare_versions "2.10.0+20260923T120000Z" "2.9.0+20260923T120000Z" ≡ greater
unfolding program
segments_by_number = refl

missing_segment : compare_versions "2.0" "2" ≡ equal
unfolding program
missing_segment = refl

times_by_text : compare_versions "2.1+20260101" "2.1+20260201" ≡ less
unfolding program
times_by_text = refl

abbrev cand : Candidate
cand = record {
  path = "body.seed";
  type = "number";
  len = 0;
  hash = "";
  enum = "";
  model = "m";
  client_format = "chat";
  direction = "request";
}

abbrev trace_at : String → String → Trace
trace_at id version = record {
  id = id;
  key_id = "k";
  model = "m";
  tool = "t";
  switcher_version = version;
  trusted = true;
}

abbrev fresh : FindingDb
fresh = record { findings = []; history = [] }

abbrev one : FindingDb
one = (handle_lost fresh (trace_at "t1" "1.0") cand "" "fnd_1" 5).0

abbrev first_finding : Finding
first_finding = record {
  id = "fnd_1";
  model = "m";
  client_format = "chat";
  direction = "request";
  path = "body.seed";
  tool = "t";
  mapping = "";
  first_trace = "t1";
  last_trace = "t1";
  exempt_trace = "t1";
  count = 1;
  status = opened;
  fixed_in = "";
  clean_traces = 0;
  created_at = 5;
  updated_at = 5;
  reviewed_at = 0;
  review_resolved = false;
}

opens : by_path cand one.findings ≡ some first_finding
unfolding program
opens = refl

abbrev traces : List Trace
traces = trace_at "t1" "1.0" ∷ trace_at "t2" "1.2" ∷ []

abbrev marked_fixed : FindingDb
marked_fixed = (resolve_finding one one traces "fnd_1" fixed "session" "" 9).0

abbrev fixed_finding : Finding
fixed_finding = record first_finding { status = fixed; fixed_in = "1.2"; updated_at = 9 }

marks : by_path cand marked_fixed.findings ≡ some fixed_finding
unfolding program
marks = refl

-- The version of the fix does not open it again, a later one does.
stays_fixed :
    by_path cand (handle_lost marked_fixed (trace_at "t3" "1.2") cand "" "fnd_2" 10).0.findings
    ≡ some (record fixed_finding { count = 2; last_trace = "t3"; updated_at = 10 })
unfolding program
stays_fixed = refl

handle_lost-status_example :
    (seen : Finding) × ((by_path cand
          (handle_lost marked_fixed (trace_at "t4" "1.10") cand "" "fnd_2" 10).0.findings
        ≡ some seen)
      × (seen.status ≡ status_after marked_fixed (trace_at "t4" "1.10") fixed_finding fixed)
      × (seen.count ≡ 1 + 1)
      × (seen.last_trace ≡ "t4")
      × (seen.fixed_in ≡ "1.2"))
handle_lost-status_example =
    handle_lost-status marked_fixed (trace_at "t4" "1.10") cand "" "fnd_2" 10 fixed_finding refl
      marks

opens_for_later : status_after marked_fixed (trace_at "t4" "1.10") fixed_finding fixed ≡ opened
unfolding program
opens_for_later = refl

found_by_id : by_id "fnd_1" one.findings ≡ some first_finding
unfolding program
found_by_id = refl

is_open : status_eq opened fixed ≡ false
unfolding program
is_open = refl

resolve_finding-settles_example :
    (marked : Finding) × ((by_id "fnd_1"
          (resolve_finding one one traces "fnd_1" fixed "session" "" 9).0.findings
        ≡ some marked)
      × ((resolve_finding one one traces "fnd_1" fixed "session" "" 9).1 ≡ resolved)
      × (marked.status ≡ fixed)
      × (is_after_fix (trace_at "t2" "1.2") marked ≡ false))
resolve_finding-settles_example =
    resolve_finding-settles one traces "fnd_1" "session" "" 9 first_finding 1 (trace_at "t2" "1.2")
      found_by_id is_open refl refl refl

-- Of two calls that read the same row, the second finds the status changed.
second_resolve_conflicts :
    (resolve_finding one marked_fixed traces "fnd_1" wontfix "session" "" 9).1 ≡ conflict
unfolding program
second_resolve_conflicts = refl

abbrev ruled_db : FindingDb
ruled_db = (resolve_finding one one traces "fnd_1" wontfix "session" "" 9).0

ruled_db-IsRuled : IsRuled "fnd_1" ruled_db
unfolding program
ruled_db-IsRuled = record { present = refl; spared = (inr refl, tt); ruled = refl }

abbrev events : List Event
events = lost (trace_at "t5" "9.9") cand "" "fnd_2" 11 ∷ prune 100 200 ∷ []

run-IsRuled_example : IsRuled "fnd_1" (run ruled_db events)
unfolding program
run-IsRuled_example = run-IsRuled "fnd_1" ruled_db events ruled_db-IsRuled refl
