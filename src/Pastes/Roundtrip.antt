-- ===== src/Pastes/Roundtrip.antt =====
-- internal/service/paste.go: what `CreatePaste` stores, `GetPasteBySlug` gives back.
use realm_api.Common.{
  ℕ, zero, suc, ◌<◌, ◌≡◌, ◌⊎◌, refl, Bool, true, false, Option, some, List, [], ◌∷◌, ◌++◌, Text,
  any, eqb_iff, is_empty, is_space, trim_space, trim_space_of_solid, IsSolid, length, ℤ, arith,
  Option-cases, Bool-cases, inl, inr,
}
use realm_api.Errors.{Result, ok, Result-cases}
use realm_api.Env.{Env}
use realm_api.Pastes.{Paste, CreatePasteRequest}
use realm_api.Pastes.Crypto.{
  Libraries, IsSound, encrypt_paste, decrypt_paste, decrypt_paste-encrypt_paste,
}
use realm_api.Pastes.Repo
use realm_api.Pastes.Repo.{
  Table, slug_letter, generate_slug, slug_length, attempt_slug, stored, try_create, find_slug,
  has_slug, is_expired,
}
use realm_api.Pastes.Service.{PasteService, create_paste, draft, get_paste_by_slug, unlock}

slug_letter-not-space : (n : ℕ) → n < 52 → is_space (slug_letter n) ≡ false
unfolding slug_letter is_space
slug_letter-not-space n h = ground arith

module _ (draw : ℕ → Option ℕ) (below : (i n : ℕ) → draw i ≡ some n → n < 52) where
  generate_slug-IsSolid :
      (i left : ℕ) (s : Text) → generate_slug draw i left ≡ ok s → IsSolid s × (length s ≡ left)
  unfolding generate_slug
  generate_slug-IsSolid i zero s h = ground arith
  generate_slug-IsSolid i (suc left) s h = elim (Option-cases (draw i)) [
    | inl bad ↦ ground arith
    | inr (n, drawn) ↦ elim (Result-cases (generate_slug draw (suc i) left)) [
      | inr (x, bad) ↦ ground arith
      | inl (t, made) ↦
          let rest = generate_slug-IsSolid (suc i) left t made in
          let first = slug_letter-not-space n (below i n drawn) in
          let same : slug_letter n ∷ t ≡ s = ground arith in
          rw (← same) ((first, rest.0), omega (arith, rest.1))
    ]
  ]

-- What the loop does when it succeeds: one row more, with a slug of seven letters that was not there.
abbrev Added : Result Paste × Table → ℕ → Paste → Table → Type 0
Added after id p rows =
    (row : Paste) × (after ≡ (ok row, rows ++ row ∷ []))
    × IsSolid row.slug
    × (is_empty row.slug ≡ false)
    × (any (has_slug row.slug) rows ≡ false)
    × (row.content ≡ p.content)
    × (row.is_encrypted ≡ p.is_encrypted)

module _ (e : Env) (draw : ℕ → ℕ → Option ℕ) (below : (i j n : ℕ) → draw i j ≡ some n → n < 52)
    (id : ℕ) (p : Paste) (rows : Table) where
  new-slug :
      (attempt : ℕ) (t : Text)
      → generate_slug (draw attempt) 0 slug_length ≡ ok t
      → IsSolid t × (is_empty t ≡ false)
  new-slug attempt t h =
      let (solid, long) = generate_slug-IsSolid (draw attempt) (below attempt) 0 slug_length t h in
      (solid, nonempty t long)
    where
      nonempty : (t : Text) → length t ≡ 7 → is_empty t ≡ false
      nonempty [] k = absurd (omega arith)
      nonempty (d ∷ t) k = refl

  attempt_slug-eq :
      (attempt : ℕ) (slug t : Text)
      → (is_empty slug ≡ true) ⊎ (0 < attempt)
      → attempt_slug (draw attempt) attempt slug ≡ ok t
      → generate_slug (draw attempt) 0 slug_length ≡ ok t
  unfolding attempt_slug
  attempt_slug-eq zero slug t first h = ground arith
  attempt_slug-eq (suc n) slug t first h = h

  try_create-eq-ok :
      (left attempt : ℕ) (slug : Text) (row : Paste)
      → (is_empty slug ≡ true) ⊎ (0 < attempt)
      → (try_create e draw id left attempt slug p rows).0 ≡ ok row
      → Added (try_create e draw id left attempt slug p rows) id p rows
  unfolding try_create
  try_create-eq-ok zero attempt slug row first h = absurd (ground arith)
  try_create-eq-ok (suc left) attempt slug row first h =
      elim (Result-cases (attempt_slug (draw attempt) attempt slug)) [
        | inr (x, bad) ↦ absurd (ground arith)
        | inl (t, made) ↦
            let (solid, long) = new-slug attempt t (attempt_slug-eq attempt slug t first made) in
            elim (Bool-cases (e.fails attempt)) [
              | inl down ↦ absurd (ground arith)
              | inr up ↦ elim (Bool-cases (any (has_slug t) rows)) [
                | inl taken ↦
                    rw (made, try_create, up, taken)
                      (try_create-eq-ok left (suc attempt) t row (inr (omega arith)) (ground arith))
                | inr free ↦ (
                  stored id (e.clock attempt) t p,
                  rw (made, try_create, up, free),
                  solid,
                  long,
                  free,
                  refl,
                  refl,
                )
              ]
            ]
      ]

  create_paste-eq-ok :
      (row : Paste)
      → is_empty p.slug ≡ true
      → (Repo.create_paste e draw id p rows).0 ≡ ok row
      → Added (Repo.create_paste e draw id p rows) id p rows
  unfolding Repo.create_paste
  create_paste-eq-ok row none' h = try_create-eq-ok 5 0 p.slug row (inl none') h

find_slug-append :
    (rows : Table) (row : Paste)
    → any (has_slug row.slug) rows ≡ false
    → find_slug row.slug (rows ++ row ∷ []) ≡ some row
unfolding find_slug
find_slug-append [] row h = ground (arith, eqb_iff row.slug row.slug)
find_slug-append (q ∷ rows) row h = ground (arith, find_slug-append rows row)

-- What a reader with the password finds of the row that was added.
get-added :
    (c : Libraries) (f : Env) (password content : Text) (row : Paste) (s : PasteService)
    (rows : Table)
    → s.rows ≡ rows ++ row ∷ []
    → IsSolid row.slug
    → is_empty row.slug ≡ false
    → any (has_slug row.slug) rows ≡ false
    → f.fails 0 ≡ false
    → is_expired (f.clock 0) row.expires_at ≡ false
    → ((row.is_encrypted ≡ false) × (row.content ≡ content))
      ⊎ ((row.is_encrypted ≡ true)
          × (is_empty password ≡ false)
          × (decrypt_paste c row.content password ≡ ok content))
    → (get_paste_by_slug c f row.slug password s).0 ≡ ok (record row { content = content })
unfolding get_paste_by_slug Repo.get_paste_by_slug unlock
get-added c f password content row s rows e solid long free up alive how =
    let same = trim_space_of_solid row.slug solid in
    let found = find_slug-append rows row free in
    let there : find_slug (trim_space row.slug) s.rows ≡ some row = rw (same, e) found in
    ground arith

module _ (table : ℕ → ℕ) (parse_duration : Text → Option ℤ) (c : Libraries) (sound : IsSound c)
    (e f : Env) (now id : ℕ) (salt nonce : List ℕ) (draw : ℕ → ℕ → Option ℕ)
    (below : (i j n : ℕ) → draw i j ≡ some n → n < 52) (req : CreatePasteRequest) (user : Option ℕ)
    (s : PasteService) (p : Paste) where
  abbrev created : Result Paste × PasteService
  created = create_paste table parse_duration c e now (some salt) (some nonce) draw id req user s

  -- The row that a successful `CreatePaste` adds, and how it is read.
  abbrev Made : Type 0
  Made =
      (row : Paste) × (created.1.rows ≡ s.rows ++ row ∷ [])
      × IsSolid row.slug
      × (is_empty row.slug ≡ false)
      × (any (has_slug row.slug) s.rows ≡ false)
      × (p ≡ record row { content = req.content })
      × (((row.is_encrypted ≡ false) × (row.content ≡ req.content))
          ⊎ ((row.is_encrypted ≡ true)
              × (is_empty (trim_space req.password) ≡ false)
              × (decrypt_paste c row.content (trim_space req.password) ≡ ok req.content)))

  abbrev asked : Text → Bool → Paste
  asked content is_encrypted = draft table parse_duration now req user content is_encrypted

  made-open : is_empty (trim_space req.password) ≡ true → created.0 ≡ ok p → Made
  unfolding create_paste draft
  made-open none' done =
      let d = asked req.content false in
      elim (Result-cases (Repo.create_paste e draw id d s.rows).0) [
        | inr (x, bad) ↦ absurd (ground arith)
        | inl (row', good) ↦
            let (row, after, solid, long, free, same, mark) =
              create_paste-eq-ok e draw below id d s.rows row' refl good in
            (row, ground arith, solid, long, free, ground arith, inl (mark, same))
      ]

  made-secret :
      is_empty salt ≡ false
      → length nonce ≡ 24
      → is_empty (trim_space req.password) ≡ false
      → created.0 ≡ ok p
      → Made
  unfolding create_paste draft
  made-secret salted sized secret done =
      elim (Result-cases
        (encrypt_paste c (some salt) (some nonce) req.content (trim_space req.password))) [
          | inr (x, bad) ↦ absurd (ground arith)
          | inl (envelope, sealed) ↦
              let d = asked envelope true in
              let back =
                decrypt_paste-encrypt_paste c sound salt nonce req.content (trim_space req.password)
                  envelope salted sized sealed in
              elim (Result-cases (Repo.create_paste e draw id d s.rows).0) [
                | inr (x, bad) ↦ absurd (ground arith)
                | inl (row', good) ↦
                    let (row, after, solid, long, free, same, mark) =
                      create_paste-eq-ok e draw below id d s.rows row' refl good in
                    (
                      row,
                      ground arith,
                      solid,
                      long,
                      free,
                      ground arith,
                      inr (mark, secret, rw same (back.1)),
                    )
              ]
        ]

  -- Provided the libraries do what they document (the salt is not empty, the nonce has 24 bytes, the
  -- random numbers for slugs are below 52): the paste that `CreatePaste` returns, with the content of
  -- the request, is what `GetPasteBySlug` gives for its slug and the trimmed password, as long as it
  -- has not expired and the query does not fail. It is so with a password and without one.
  pub get_paste_by_slug-create_paste :
      is_empty salt ≡ false
      → length nonce ≡ 24
      → created.0 ≡ ok p
      → f.fails 0 ≡ false
      → is_expired (f.clock 0) p.expires_at ≡ false
      → (get_paste_by_slug c f p.slug (trim_space req.password) created.1).0 ≡ ok p
  get_paste_by_slug-create_paste salted sized done up alive =
      let made : Made = elim (Bool-cases (is_empty (trim_space req.password))) [
        | inl open' ↦ made-open open' done
        | inr secret ↦ made-secret salted sized secret done
      ] in
      let (row, rows, solid, long, free, same, how) = made in
      let alive' : is_expired (f.clock 0) row.expires_at ≡ false = rw same at alive in
      let got =
        get-added c f (trim_space req.password) req.content row created.1 s.rows rows solid long
          free up alive' how in
      rw same got
