-- ===== src/Auth/Limiter.antt =====
-- internal/auth/limiter.go: a token bucket for each key, in 32 shards of bounded size. The bucket is
-- golang.org/x/time/rate, a parameter. A key is the text of a UUID, so its code points are its bytes.
pub mod Laws
use Prim.Native.Nat.{bit_xor}
use realm_api.Common.{
  ℕ, ◌+◌, ◌-◌, ◌*◌, ◌/◌, ◌%◌, ◌^◌, Bool, true, false, Option, none, some, List, [], ◌∷◌, Text,
  Text-discrete, length, ltb, leb, ◌==◌, if◌then◌else◌,
}
use realm_api.Env.{Env, minute}
use realm_api.GoMap

abbrev pub num_shards : ℕ
num_shards = 32

abbrev pub max_keys_per_shard : ℕ
max_keys_per_shard = 2048

abbrev pub idle_evict_timeout : ℕ
idle_evict_timeout = 3 * minute

-- hash/fnv: FNV-1a over 32 bits
fnv_from : ℕ → Text → ℕ
fnv_from h [] = h
fnv_from h (b ∷ s) = fnv_from (bit_xor h b * 16777619 % 2 ^ 32) s

unfoldable pub shard_of : Text → ℕ
unfolding fnv_from
shard_of key = fnv_from 2166136261 key % num_shards

-- `rate.Limiter`: `new_limiter rpm` is `rate.NewLimiter(rpm / 60, rpm)`, `tokens` the whole part of
-- `Tokens()`, `allow` the answer of `Allow()` with the bucket that it leaves. The time is that of the
-- call.
pub record Rate : Type 1 where
  pub Limiter : Type 0
  pub new_limiter : ℕ → Limiter
  pub tokens : ℕ → Limiter → ℕ
  pub allow : ℕ → Limiter → Bool × Limiter

pub record Verdict : Type 0 where
  pub allowed : Bool
  pub remaining : ℕ
  pub reset_epoch : ℕ

-- `now.Add(time.Minute).Unix()`
unfoldable pub reset_at : ℕ → ℕ
reset_at now = (now + minute) / 1_000_000_000

-- `lastSeen.Before(now.Add(-idleEvictTimeout))`
unfoldable pub is_idle : ℕ → ℕ → Bool
is_idle now last_seen = ltb (last_seen + idle_evict_timeout) now

-- The remaining calls after one more is taken from `tokens`.
unfoldable pub verdict : Bool → ℕ → ℕ → Verdict
verdict allowed tokens now =
    if allowed
    then record { allowed = true; remaining = tokens - 1; reset_epoch = reset_at now }
    else record { allowed = false; remaining = 0; reset_epoch = reset_at now }

module _ (r : Rate) where
  pub record Entry : Type 0 where
    pub last_seen : ℕ
    pub limiter : r.Limiter
    pub limit_rpm : ℕ

  abbrev pub Shard : Type 0
  Shard = List (Text × Entry)

  -- The shards by their index; `closed` says that `stopCh` is closed.
  pub record TokenRateLimiter : Type 0 where
    pub shards : ℕ → Shard
    pub closed : Bool

  unfoldable pub new_token_rate_limiter : TokenRateLimiter
  new_token_rate_limiter = record { shards = λ i. []; closed = false }

  abbrev pub set_shard : ℕ → Shard → TokenRateLimiter → TokenRateLimiter
  set_shard i m l = record l { shards = λ j. if j == i then m else l.shards j }

  abbrev pub entry_is_idle : ℕ → Entry → Bool
  entry_is_idle now v = is_idle now v.last_seen

  -- what makes room in a full shard
  unfoldable pub make_room : ℕ → ℕ → Shard → Shard
  make_room now choice m =
      if leb max_keys_per_shard (length m)
      then (let swept = GoMap.delete_if (entry_is_idle now) m in
          if leb max_keys_per_shard (length swept) then GoMap.delete_one choice swept else swept)
      else m

  -- the end of both paths: the entry is stamped, its bucket asked
  unfoldable pub take_token : Env → ℕ → Entry → Verdict × Entry
  take_token e now entry =
      let (allowed, limiter) = r.allow (e.clock 2) entry.limiter in
      (
        verdict allowed (r.tokens (e.clock 1) entry.limiter) now,
        record entry { last_seen = now; limiter = limiter },
      )

  unfoldable pub stamp : Env → ℕ → Text → Entry → Shard → Verdict × Shard
  unfolding take_token
  stamp e now id entry m =
      let (v, entry') = take_token e now entry in (v, GoMap.put Text-discrete id entry' m)

  -- the entry that has the limit asked for
  unfoldable pub current : Text → ℕ → Shard → Option Entry
  current id limit_rpm m = elim (GoMap.get Text-discrete id m) [
    | none ↦ none
    | some entry ↦ if entry.limit_rpm == limit_rpm then some entry else none
  ]

  abbrev pub new_entry : ℕ → ℕ → Entry
  new_entry now limit_rpm = record {
    last_seen = now;
    limiter = r.new_limiter limit_rpm;
    limit_rpm = limit_rpm;
  }

  -- the part of `Allow` under the write lock, which looks again
  unfoldable pub allow_locked : Env → ℕ → Text → ℕ → Shard → Verdict × Shard
  allow_locked e now id limit_rpm m = elim (current id limit_rpm m) [
    | some entry ↦ stamp e now id entry m
    | none ↦ stamp e now id (new_entry now limit_rpm) (make_room now (e.choice 0) m)
  ]

  -- the part under the read lock, and the other one if the entry is missing or has another limit
  unfoldable pub allow_shard : Env → ℕ → Text → ℕ → Shard → Verdict × Shard
  allow_shard e now id limit_rpm m = elim (current id limit_rpm m) [
    | some entry ↦ stamp e now id entry m
    | none ↦ allow_locked e now id limit_rpm m
  ]

  -- `Allow`; a limit of 0 stands for every limit that is not positive
  unfoldable pub allow : Env → Text → ℕ → TokenRateLimiter → Verdict × TokenRateLimiter
  allow e id limit_rpm l =
      if limit_rpm == 0
      then (record { allowed = true; remaining = 999999; reset_epoch = reset_at (e.clock 0) }, l)
      else (let (v, m) = allow_shard e (e.clock 0) id limit_rpm (l.shards (shard_of id)) in
          (v, set_shard (shard_of id) m l))

  unfoldable pub cleanup : ℕ → TokenRateLimiter → TokenRateLimiter
  cleanup now l = record l { shards = λ i. GoMap.delete_if (entry_is_idle now) (l.shards i) }

  unfoldable pub close : TokenRateLimiter → TokenRateLimiter
  close l = if l.closed then l else record l { closed = true }
