-- ===== src/Lib.antt =====
-- A verification library for the Realm API, a Go server (github.com/irvanmalik48/realm-api).
--
-- The program serves HTTP (Fiber) and gRPC. A request passes internal/middleware (API tokens, sessions,
-- CSRF), which asks internal/service and internal/auth; the services keep their rows in PostgreSQL
-- through internal/repository. API tokens are checked against a table and a cache in memory, metered by
-- a token bucket for each key, and compared with the scopes that a route asks for.
--
-- The files and the code:
--
--   Common and its children: booleans, lists, texts and numbers that the other files share.
--   GoMap: Go maps as association lists, and what lookups give after each change.
--   Errors: the sentinel errors, `errors.Is`, and results. Env: the clock and the failures of calls.
--   Auth.Cache: internal/auth/cache.go. TokenCache.Get, Set, Invalidate, InvalidateByID, Close, cleanup.
--   Auth.Limiter: internal/auth/limiter.go. TokenRateLimiter.Allow, Close, cleanup and the shards.
--   Auth.Paseto: internal/auth/paseto.go. GenerateToken, Generate2FATempToken, VerifyToken.
--   Tokens.Scopes: HasScope of internal/service/token.go. Tokens.Secret: HashToken and the encodings.
--   Tokens.Repo: internal/repository/token.go. Create, GetByHash, Revoke, UpdateLastUsed.
--   Tokens.Listing: GetByID and List of internal/repository/token.go, List of internal/service/token.go.
--   Tokens.Service: internal/service/token.go. Create, Verify, Revoke, with the table and the cache as
--     explicit state; its children Coherence, Cached, Revocation, Issue and Race are the proofs.
--   Comments.Nest: the loops of GetCommentsBySlug in internal/repository/comment.go.
--   Middleware.Token: internal/middleware/token.go. RequireToken, RequireTokenOrUserAuth, OptionalToken.
--   Middleware.Session: internal/middleware/user_auth.go. RequireUserAuth, OptionalUserAuth.
--   Middleware.Csrf: internal/middleware/csrf.go. CSRFProtection, parseAllowedOrigins, isAllowed.
--   Comments.Repo, Comments.Service: internal/repository/comment.go and internal/service/comment.go,
--     every operation but the search of administrators; Threads, Invariant, Ownership and Shown are
--     the proofs.
--   Pastes.Crypto: internal/security/paste_crypto.go. Pastes.Repo: internal/repository/paste.go, but for
--     the list. Pastes.Service: internal/service/paste.go. Pastes.Laws and Roundtrip are the proofs.
--   Grpc.Status, Grpc.Auth: internal/grpc/interceptors. MapError, AuthUnaryInterceptor.
--   Reactions: internal/repository/reaction.go and internal/service/reaction.go. ToggleReaction; Laws,
--     Toggle and Keys are the proofs.
--   Users: internal/model/user.go. Users.Repo and Users.Repo.Update: internal/repository/user.go, the tables
--     `users` and `user_oauth_accounts` with their keys; Keys, Kept, Renamed, History, Guarded, Rows and
--     Unlink are the proofs. Users.Names: the checks of names, addresses and passwords.
--   Users.Service and its children Profile, Availability, OAuth and TwoFactor: internal/service/auth.go.
--     Login, Challenge, Once, TwoSteps, Registration, Password, Naming, External, Recovery, Moves, Changes,
--     Factors and Calls are the proofs.
--   Posts: internal/model/post.go and the slugs of internal/service/post.go; Posts.Slugs are proofs about
--     them. Posts.Repo: internal/repository/post.go, the table `posts` with its keys. Posts.Service:
--     internal/service/post.go; its children are proofs.
--   Admins: internal/repository/admin.go. Admins.Update: UpdateUser and DeleteUser of
--     internal/repository/user.go, in which the rows that refer to a user are those of
--     `user_oauth_accounts` and `admin_users`. Admins.Laws and Admins.Superadmin are the proofs.
--   Reactions.Deletion: GetReactions and DeleteReaction of internal/service/reaction.go;
--     Reactions.History are proofs about sequences of calls.
-- The files named Tests hold runs at concrete inputs, Auth.Samples the concrete libraries for them.
--
-- Conventions. A string is the list of its code points (texts are taken to be valid UTF-8); a UUID is a
-- number; a time is a number of nanoseconds. Env gives the n-th reading of the clock in an operation,
-- whether its n-th call of the database fails, and the entry that a `range` loop over a map yields
-- first; theorems hold for each Env. Times in the table of
-- tokens are those that the columns keep (Env.column: they hold microseconds, the rounding of the driver
-- is left open); the other tables keep a time as it is given. A query with LIMIT 1 and no order gives the
-- first row. A mutex makes an operation one step, and operations interleave as
-- steps of a relation (Tokens.Service.Coherence.Step); a goroutine that Verify starts is a step of its
-- own that may come at any time. A failing call of the database stands for every error of the driver
-- but the uniqueness of keys, which the tables model. The search for a
-- free user name (pick_name) takes 50 rounds of fuel, after which the code stops by its counter; every
-- other loop is a structural recursion.
--
-- Parameters, for code that is not in the repository: SHA-256, the PASETO library (IsSealed says that it
-- reads back what it sealed), Argon2id and XChaCha20-Poly1305, with the JSON and base64 of an envelope
-- (Pastes.Crypto.IsSound says what they document), the bucket of golang.org/x/time/rate, the text of a
-- UUID, net/url, net/mail, time.ParseDuration, bcrypt, the authenticator codes of pquerna/otp
-- (Users.Service.Libraries), the function LOWER of the database, and the case tables of package unicode
-- beyond ASCII.
--
-- Not modelled: the loading of the configuration, the router, the handlers and the gRPC servers, which
-- decode and encode; the OpenAPI text; telemetry; the generated code of pkg/pb; S3 and images; and the
-- services for files, analytics, contacts and Last.fm; the queries that list users, posts and
-- administrators by pages; and the exchange with the providers of logins. Profile columns that queries join from `users` are left out of the rows, and the name of the scope is left out of the text
-- of the 403 answer.
mod Common
pub mod GoMap
pub mod Errors
pub mod Env
pub mod Tokens
pub mod Auth
pub mod Comments
pub mod Pastes
pub mod Reactions
pub mod Grpc
pub mod Middleware
pub mod Users
pub mod Posts
pub mod Admins
