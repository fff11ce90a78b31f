-- ===== src/Judge/Settled.antt =====
-- A settled signature is not judged again.
use intact.Prelude.Dict.{Dict}
