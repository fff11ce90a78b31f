-- ===== src/Contract/Bounded.antt =====
-- What `Diff` answers with, of the marks that its passes leave.
use intact.Prelude.{String, List}
use intact.Contract.{Marked}

abbrev pub path_of : Marked → String
path_of b = b.0.path
