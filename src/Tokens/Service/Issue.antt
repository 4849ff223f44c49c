-- ===== src/Tokens/Service/Issue.antt =====
-- Proofs about `Create` and `Verify` of internal/service/token.go.
use realm_api.Env.{Env}
use realm_api.Tokens.Repo
