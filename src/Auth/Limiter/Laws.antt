-- ===== src/Auth/Limiter/Laws.antt =====
-- internal/auth/limiter.go: the bound of a shard, the bucket that a call takes from, and that keys do
-- not disturb one another.
use realm_api.Common.{
  ℕ, ◌≤◌, ◌<◌, ◌≡◌, ◌≢◌, ◌⊎◌, inl, inr, Option, none, some, Text, Text-discrete, arith, length,
  ◌==◌, if◌then◌else◌, Option-cases, Bool-cases,
}
use realm_api.Env.{Env}
use realm_api.GoMap
use realm_api.GoMap.{IsMap}
use realm_api.GoMap.Laws
use realm_api.Auth.Limiter.{
  max_keys_per_shard, Rate, Entry, Shard, TokenRateLimiter, shard_of, entry_is_idle, make_room,
  verdict, take_token, stamp, current, new_entry, allow_locked, allow_shard, allow, cleanup,
}

module _ (r : Rate) where
  -- At most `maxKeysPerShard` keys, each once.
  pub record IsBounded (m : Shard r) : Type 0 where
    pub bounded : length m ≤ max_keys_per_shard
    pub distinct : IsMap Text-discrete m

  module _ (now choice : ℕ) (m : Shard r) where
    length-make_room :
        length m ≤ max_keys_per_shard → length (make_room r now choice m) < max_keys_per_shard
    unfolding make_room
    length-make_room h = ground (
      arith,
      Laws.length-delete_if-le (entry_is_idle r now) m,
      Laws.length-delete_one choice (GoMap.delete_if (entry_is_idle r now) m),
    )

    make_room-IsMap : IsMap Text-discrete m → IsMap Text-discrete (make_room r now choice m)
    unfolding make_room
    make_room-IsMap h =
        let swept = Laws.delete_if-IsMap Text-discrete (entry_is_idle r now) m h in
        ground (
          arith,
          swept,
          Laws.delete_one-IsMap Text-discrete choice (GoMap.delete_if (entry_is_idle r now) m),
        )

    get-make_room :
        (q : Text)
        → IsMap Text-discrete m
        → (GoMap.get Text-discrete q (make_room r now choice m) ≡ none)
          ⊎ (GoMap.get Text-discrete q (make_room r now choice m) ≡ GoMap.get Text-discrete q m)
    unfolding make_room
    get-make_room q h = ground (
      arith,
      Laws.delete_if-IsMap Text-discrete (entry_is_idle r now) m h,
      Laws.get-delete_if Text-discrete (entry_is_idle r now) q m h,
      Laws.get-delete_one Text-discrete choice q (GoMap.delete_if (entry_is_idle r now) m),
    )

  current-get :
      (id : Text) (limit_rpm : ℕ) (m : Shard r) (entry : Entry r)
      → current r id limit_rpm m ≡ some entry
      → (GoMap.get Text-discrete id m ≡ some entry) × (entry.limit_rpm ≡ limit_rpm)
  unfolding current
  current-get id limit_rpm m entry h = ground arith

  current-put :
      (id : Text) (limit_rpm : ℕ) (entry : Entry r) (m : Shard r)
      → current r id limit_rpm (GoMap.put Text-discrete id entry m)
        ≡ (if entry.limit_rpm == limit_rpm then some entry else none)
  unfolding current
  current-put id limit_rpm entry m = ground (arith, Laws.get-put Text-discrete id id entry m)

  -- The bucket that a call for this key and limit takes from.
  unfoldable pub bucket : Text → ℕ → Shard r → r.Limiter
  bucket id limit_rpm m = elim (current r id limit_rpm m) [
    | none ↦ r.new_limiter limit_rpm
    | some entry ↦ entry.limiter
  ]

  module _ (e : Env) (now : ℕ) (id : Text) (limit_rpm : ℕ) (m : Shard r) where
    allow_shard-IsBounded : IsBounded m → IsBounded (allow_shard r e now id limit_rpm m).1
    unfolding allow_shard allow_locked stamp
    allow_shard-IsBounded b = elim (Option-cases (current r id limit_rpm m)) [
      | inr (entry, found) ↦
          let old = (current-get id limit_rpm m entry found).0 in
          let new = (take_token r e now entry).1 in
          record {
            bounded =
                ground (arith, Laws.length-put_old Text-discrete id new entry m old, b.bounded);
            distinct = ground (arith, Laws.put-IsMap Text-discrete id new m b.distinct);
          }
      | inl missing ↦
          let new = (take_token r e now (new_entry r now limit_rpm)).1 in
          let rest = make_room r now (e.choice 0) m in
          record {
            bounded = ground (
              arith,
              Laws.length-put-le Text-discrete id new rest,
              length-make_room now (e.choice 0) m b.bounded,
            );
            distinct = ground (
              arith,
              Laws.put-IsMap Text-discrete id new rest
                  (make_room-IsMap now (e.choice 0) m b.distinct),
            );
          }
    ]

    -- The answer is the bucket's, and the bucket that it leaves stands for the next call.
    allow_shard-bucket :
        (((allow_shard r e now id limit_rpm m).0).allowed
          ≡ (r.allow (e.clock 2) (bucket id limit_rpm m)).0)
        × (bucket id limit_rpm (allow_shard r e now id limit_rpm m).1
            ≡ (r.allow (e.clock 2) (bucket id limit_rpm m)).1)
    unfolding allow_shard allow_locked stamp take_token verdict bucket
    allow_shard-bucket = elim (Option-cases (current r id limit_rpm m)) [
      | inr (entry, found) ↦
          let fits = (current-get id limit_rpm m entry found).1 in
          let again = current-put id limit_rpm (take_token r e now entry).1 m in
          (ground arith, ground arith)
      | inl missing ↦
          let again =
            current-put id limit_rpm (take_token r e now (new_entry r now limit_rpm)).1
              (make_room r now (e.choice 0) m) in
          (ground arith, ground arith)
    ]

    -- Another key keeps its entry, or loses it to make room.
    allow_shard-other :
        (q : Text)
        → IsBounded m
        → q ≢ id
        → (GoMap.get Text-discrete q (allow_shard r e now id limit_rpm m).1 ≡ none)
          ⊎ (GoMap.get Text-discrete q (allow_shard r e now id limit_rpm m).1
              ≡ GoMap.get Text-discrete q m)
    unfolding allow_shard allow_locked stamp
    allow_shard-other q b ne = elim (Option-cases (current r id limit_rpm m)) [
      | inr (entry, found) ↦
          ground (arith, Laws.get-put Text-discrete id q (take_token r e now entry).1 m)
      | inl missing ↦ ground (
        arith,
        Laws.get-put Text-discrete id q (take_token r e now (new_entry r now limit_rpm)).1
            (make_room r now (e.choice 0) m),
        get-make_room now (e.choice 0) m q b.distinct,
      )
    ]

  abbrev pub IsValid : TokenRateLimiter r → Type 0
  IsValid l = (i : ℕ) → IsBounded (l.shards i)

  abbrev pub bucket_of : Text → ℕ → TokenRateLimiter r → r.Limiter
  bucket_of id limit_rpm l = bucket id limit_rpm (l.shards (shard_of id))

  abbrev pub entry_of : Text → TokenRateLimiter r → Option (Entry r)
  entry_of id l = GoMap.get Text-discrete id (l.shards (shard_of id))

  module _ (e : Env) (id : Text) (limit_rpm : ℕ) (l : TokenRateLimiter r) where
    -- A call of `Allow` keeps every shard within its bound, with each key once.
    allow-IsValid : IsValid l → IsValid (allow r e id limit_rpm l).1
    unfolding allow
    allow-IsValid v i =
        let old = v i in
        let new =
          allow_shard-IsBounded e (e.clock 0) id limit_rpm (l.shards (shard_of id))
            (v (shard_of id)) in
        elim (Bool-cases (limit_rpm == 0)) [
          | inl free ↦ rw (free, allow) old
          | inr limited ↦ elim (Bool-cases (i == shard_of id)) [
            | inl here ↦ rw (limited, allow, here) new
            | inr there ↦ rw (limited, allow, there) old
          ]
        ]

    -- A call with a positive limit is answered by the bucket of its key and limit alone, and the next call
    -- finds the bucket as this one left it.
    pub allow-bucket :
        0 < limit_rpm
        → (((allow r e id limit_rpm l).0).allowed
            ≡ (r.allow (e.clock 2) (bucket_of id limit_rpm l)).0)
          × (bucket_of id limit_rpm (allow r e id limit_rpm l).1
              ≡ (r.allow (e.clock 2) (bucket_of id limit_rpm l)).1)
    unfolding allow
    allow-bucket h =
        let (answer, left) =
          allow_shard-bucket e (e.clock 0) id limit_rpm (l.shards (shard_of id)) in
        (ground arith, ground arith)

    -- On a limiter within its bounds, a call leaves the entry of every other key as it is, or deletes
    -- it to make room.
    allow-other :
        (q : Text)
        → IsValid l
        → q ≢ id
        → (entry_of q (allow r e id limit_rpm l).1 ≡ none)
          ⊎ (entry_of q (allow r e id limit_rpm l).1 ≡ entry_of q l)
    unfolding allow
    allow-other q v ne =
        let same_shard =
          allow_shard-other e (e.clock 0) id limit_rpm (l.shards (shard_of id)) q (v (shard_of id))
            ne in
        elim (Bool-cases (limit_rpm == 0)) [
          | inl free ↦ inr (rw (free, allow))
          | inr limited ↦ elim (Bool-cases (shard_of q == shard_of id)) [
            | inl here ↦
                let i : shard_of q ≡ shard_of id = ground arith in
                rw (limited, allow, here) (rw i same_shard)
            | inr there ↦ inr (rw (limited, allow, there))
          ]
        ]

  pub cleanup-IsValid : (now : ℕ) (l : TokenRateLimiter r) → IsValid l → IsValid (cleanup r now l)
  unfolding cleanup
  cleanup-IsValid now l v i = record {
    bounded = omega (arith, Laws.length-delete_if-le (entry_is_idle r now) (l.shards i), v i);
    distinct = Laws.delete_if-IsMap Text-discrete (entry_is_idle r now) (l.shards i) (v i).distinct;
  }
