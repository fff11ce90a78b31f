-- ===== src/Lib.antt =====
-- Models of the core logic of intact, a credential proxy for LLM providers, and what is proved of it.
--
-- intact keeps the credentials of many accounts behind one base URL. A request passes a gate (a key
-- and its rate limit, or a sign-in), is given a list of accounts in the order in which to try them,
-- and is changed for the provider before it leaves.
--
-- Files, with the code that each models (paths from the root of the repository):
--   Prelude        shared names; Prelude/Dict is Go's map with string keys, as a list of entries, and
--                  Prelude/Int the sign of Go's int where it may be negative
--   Window         trimWindow of internal/httpapi/loginguard.go, which KeyLimit shares: its window of
--                  60 seconds drops times by the same test. Window/Maps and Window/Tracks are the maps
--                  of windows of both
--   KeyLimit       internal/httpapi/keylimit.go: allow, count and window of keyLimiter
--   LoginGuard     internal/httpapi/loginguard.go: reserve, refund and store of loginGuard
--   Rotation       internal/httpapi/rotation.go: ordered, startFor, withStandbyLast and advance
--   Affinity       internal/httpapi/affinity.go: get, set and prune of affinity, sessionOrder and
--                  skipSpent
--   Json           decoded JSON values, and edits of them in place
--   Filter         internal/filter/filter.go: dropPath, dropKey and toolSchemas; Filter/System and
--                  Filter/Clean are walkSystem and cleanSystem, Filter/Apply is Apply and Headers. A
--                  request is what encoding/json decodes of it; the loop over "\n\n\n" has the
--                  length of the text as fuel, and each round shortens the text
--   Variants       internal/httpapi/variants.go: splitVariant, groupVariants and pick; Variants/Attempts
--                  is resolveVariant, variantBase and attemptsFor
--   Contract       internal/contract/diff.go: renamedSegment and the passes of Diff; Contract/Diff is
--                  the rest of Diff, and cutAt
--   SignIn         internal/auth: totp.go, session.go, and of config.go the codes and devices;
--                  SignIn/Submit is loginSubmit and setDeviceCookie of internal/httpapi/auth_handlers.go
--                  and loginSourceOf of loginguard.go
--   Findings       internal/contract/findings.go with the rows of internal/store/contract.go, and
--                  CompareVersions of internal/contract/diff.go; Findings/Steps has the expiry of
--                  PruneContracts
--   Judge          internal/contract/judge.go with the rows of internal/store/contract.go;
--                  Judge/Process is ProcessCandidates, which reports lost fields to Findings, with no
--                  other call between its claims; Judge/Interleaved has the claims of several calls,
--                  each a read and a write of its own
--   Failover       internal/httpapi/v1.go: the loop of failover over the attempts that Variants and
--                  Affinity give. Failover/Prepare is prepare and filterFor, with clientShape and
--                  shapeFor of shapes.go, Failover/Sends the sends of one round, Failover/Shorten
--                  compactForRateLimit of internal/httpapi/compact.go, Failover/Loop the rounds, the
--                  end, and the session that it pins in Affinity
--   Gate           internal/httpapi/principal.go, and of server.go tokenPrincipal, requireAdmin and
--                  bearerToken, with CheckAPIToken of internal/auth/config.go and Expired and
--                  APIKeyByToken of internal/store/apikey.go; a key's requests go through KeyLimit
--
-- A method that runs under a mutex is one step from a state to a state, so the order of the calls is
-- the order in which the handlers take the lock, and a list of calls stands for any interleaving.
-- A time.Time is a number of nanoseconds and a time.Duration a number of nanoseconds; a test such as
-- t.After(now.Add(-win)) is written as a sum. Codes and sessions count seconds, and the rows of a
-- contract milliseconds, as their code does. A panic is the answer none.
--
-- The failover loop takes the calls of a round as functions of the round's index, so they may answer
-- anything at any time; it is structural on the list of attempts and ends.
--
-- Not modelled: HTTP, SQL and JSON decoding; the translations of internal/translate, which the failover
-- loop takes as arguments, the server tools, quota, compaction, the reviews and captures, the OAuth
-- flows and the management handlers.
pub mod Prelude
pub mod Window
pub mod KeyLimit
pub mod LoginGuard
pub mod Rotation
pub mod Affinity
pub mod Json
pub mod Filter
pub mod Variants
pub mod Contract
pub mod Gate
pub mod SignIn
pub mod Findings
pub mod Judge
pub mod Failover
