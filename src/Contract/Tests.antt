-- ===== src/Contract/Tests.antt =====
-- Runs of `Diff`, and its theorems at concrete inputs.
use intact.Prelude.{String, ◌≡◌, refl, [], ◌∷◌}
use intact.Contract.{Leaf, ShapeRecord, renamed_segment, rules}
use intact.Contract.Diff.{in_leaves, out_leaves, mapping_map, matched, diff}
use intact.Contract.Settled.{IsMatching, matched-IsMatching}

program : Unit {0}
unfolding renamed_segment diff
program = tt

abbrev leaf : String → String → Leaf
leaf path type = record { path = path; type = type; len = 0; hash = ""; enum = "" }

abbrev asked : ShapeRecord
asked = (leaf "tools.input_schema.x" "string" ∷ leaf "a" "number" ∷ leaf "id" "string" ∷ []) ∷ []

abbrev sent : ShapeRecord
sent = (leaf "tools.function.parameters.x" "string" ∷ leaf "b" "number" ∷ []) ∷ []

abbrev same : String → String
same s = s

found : diff same asked sent [] [] "m" "openai" "request" ≡ (
  record {
    path = "a";
    type = "number";
    len = 0;
    hash = "";
    enum = "";
    model = "m";
    client_format = "openai";
    direction = "request";
  }
      ∷ [],
  "b" ∷ [],
)
unfolding program
found = refl

matched-IsMatching_example :
    IsMatching
      (in_leaves same [] asked)
      (out_leaves sent)
      (rules (mapping_map [] []))
      (matched same asked sent [] [])
matched-IsMatching_example = matched-IsMatching same asked sent [] []
