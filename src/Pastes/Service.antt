-- ===== src/Pastes/Service.antt =====
-- internal/service/paste.go. The state is the table and the slugs for which a read has started a
-- goroutine that calls `IncrementViews`.
use realm_api.Common.{
  ℕ, ◌+◌, ◌*◌, Bool, true, false, ◌||◌, ◌&&◌, Option, none, some, List, [], ◌∷◌, Text, txt, eqb,
  ltb, is_empty, trim_space, to_lower, byte_len, ℤ, is_pos, abs_pos, if◌then◌else◌,
}
use realm_api.Errors.{
  Result, ok, err, sentinel, err_empty_paste_content, err_paste_too_large, err_password_required,
  err_paste_not_found,
}
use realm_api.Env.{Env, minute}
use realm_api.Pastes.{Paste, CreatePasteRequest}
use realm_api.Pastes.Crypto.{Libraries, encrypt_paste, decrypt_paste}
use realm_api.Pastes.Repo
use realm_api.Pastes.Repo.{Table}

pub record PasteService : Type 0 where
  pub rows : Table
  pub pending : List Text

-- 10 MB
abbrev pub max_paste_size_bytes : ℕ
max_paste_size_bytes = 10 * 1024 * 1024

abbrev hour : ℕ
hour = 60 * minute

abbrev day : ℕ
day = 24 * hour

-- `table` is that of package unicode beyond ASCII, `parse_duration` is `time.ParseDuration`.
module _ (table : ℕ → ℕ) (parse_duration : Text → Option ℤ) where
  -- the time to live that `parseTTL` reads
  unfoldable pub parse_ttl : Text → Option ℕ
  parse_ttl raw =
      let ttl : Text = trim_space (to_lower table raw) in
      if is_empty ttl || eqb ttl (txt "never") || eqb ttl (txt "0")
      then none
      else if eqb ttl (txt "10m")
      then some (10 * minute)
      else if eqb ttl (txt "1h")
      then some hour
      else if eqb ttl (txt "1d") || eqb ttl (txt "24h")
      then some day
      else if eqb ttl (txt "7d") || eqb ttl (txt "1w")
      then some (7 * day)
      else if eqb ttl (txt "30d") || eqb ttl (txt "1m")
      then some (30 * day)
      else if eqb ttl (txt "365d") || eqb ttl (txt "1y")
      then some (365 * day)
      else elim (parse_duration ttl) [
        | none ↦ none
        | some d ↦ if is_pos d then some (abs_pos d) else none
      ]

  unfoldable pub expiry : ℕ → CreatePasteRequest → Option ℕ
  unfolding parse_ttl
  expiry now req = elim req.expires_at [
    | some x ↦ some x
    | none ↦
        if is_empty req.ttl
        then none
        else elim (parse_ttl req.ttl) [ none ↦ none | some d ↦ some (now + d) ]
  ]

  abbrev plain_or : Text → Text
  plain_or s = if is_empty s then txt "plaintext" else s

  -- `strings.EqualFold` with a word whose letters fold to ASCII letters only
  unfoldable pub burns : CreatePasteRequest → Bool
  burns req = elim req.burn_after_read [
    | none ↦ eqb (to_lower (λ c. c) (trim_space req.ttl)) (txt "burn")
    | some b ↦ b || eqb (to_lower (λ c. c) (trim_space req.ttl)) (txt "burn")
  ]

  abbrev is_public_or_default : Option Bool → Bool
  is_public_or_default none = true
  is_public_or_default (some b) = b

  -- the row that `CreatePaste` asks for
  unfoldable pub draft : ℕ → CreatePasteRequest → Option ℕ → Text → Bool → Paste
  unfolding expiry burns
  draft now req user content is_encrypted = record {
    created_at = 0;
    updated_at = 0;
    user_id = user;
    expires_at = expiry now req;
    slug = [];
    title = trim_space req.title;
    content = content;
    syntax = plain_or (to_lower table (trim_space req.syntax));
    views = 0;
    id = 0;
    is_public = is_public_or_default req.is_public;
    is_encrypted = is_encrypted;
    burn_after_read = burns req;
  }

  module _ (c : Libraries) where
    -- `salt`, `nonce` and `draw` are what the random reader gives, `now` the reading of the clock for
    -- the expiry, `id` what the table chooses. The creator is given the content unencrypted.
    unfoldable pub create_paste :
        Env
        → ℕ
        → Option (List ℕ)
        → Option (List ℕ)
        → (ℕ → ℕ → Option ℕ)
        → ℕ
        → CreatePasteRequest
        → Option ℕ
        → PasteService
        → Result Paste × PasteService
    create_paste e now salt nonce draw id req user s =
        let password : Text = trim_space req.password in
        if is_empty (trim_space req.content)
        then (err (sentinel err_empty_paste_content), s)
        else if ltb max_paste_size_bytes (byte_len req.content)
        then (err (sentinel err_paste_too_large), s)
        else if is_empty password
        then (let (res, rows) =
              Repo.create_paste e draw id (draft now req user req.content false) s.rows in
            (res, record s { rows = rows }))
        else elim (encrypt_paste c salt nonce req.content password) [
          | err x ↦ (err x, s)
          | ok envelope ↦
              let (res, rows) =
                Repo.create_paste e draw id (draft now req user envelope true) s.rows in
              elim res [
                | err x ↦ (err x, record s { rows = rows })
                | ok p ↦ (ok (record p { content = req.content }), record s { rows = rows })
              ]
        ]

abbrev note_view : Text → PasteService → PasteService
note_view slug s = record s { pending = slug ∷ s.pending }

module _ (c : Libraries) where
  -- the content of a row for a reader: `locked` is the answer where the password is missing
  unfoldable pub unlock : Result Text → Text → Paste → Result Text
  unlock locked password p =
      if p.is_encrypted
      then (if is_empty password then locked else decrypt_paste c p.content password)
      else ok p.content

  -- A locked paste is given out without its content, and its view is not counted.
  unfoldable pub get_paste_by_slug : Env → Text → Text → PasteService → Result Paste × PasteService
  unfolding unlock
  get_paste_by_slug e raw_slug password s =
      let slug : Text = trim_space raw_slug in
      if is_empty slug
      then (err (sentinel err_paste_not_found), s)
      else (let (res, rows) = Repo.get_paste_by_slug e slug s.rows in
          let s' : PasteService = record s { rows = rows } in
          elim res [
            | err x ↦ (err x, s')
            | ok p ↦
                if p.is_encrypted && is_empty password
                then (ok (record p { content = [] }), s')
                else elim (unlock (ok []) password p) [
                  | err x ↦ (err x, s')
                  | ok content ↦ (ok (record p { content = content }), note_view slug s')
                ]
          ])

  unfoldable pub get_raw_content : Env → Text → Text → PasteService → Result Text × PasteService
  unfolding unlock
  get_raw_content e raw_slug password s =
      let slug : Text = trim_space raw_slug in
      if is_empty slug
      then (err (sentinel err_paste_not_found), s)
      else (let (res, rows) = Repo.get_paste_by_slug e slug s.rows in
          let s' : PasteService = record s { rows = rows } in
          elim res [
            | err x ↦ (err x, s')
            | ok p ↦ elim (unlock (err (sentinel err_password_required)) password p) [
              | err x ↦ (err x, s')
              | ok content ↦ (ok content, note_view slug s')
            ]
          ])

unfoldable pub delete_paste : Env → Text → PasteService → Result (Unit {0}) × PasteService
delete_paste e raw_slug s =
    let slug : Text = trim_space raw_slug in
    if is_empty slug
    then (err (sentinel err_paste_not_found), s)
    else (let (res, rows) = Repo.delete_paste (e.fails 0) slug s.rows in
        (res, record s { rows = rows }))

finish : Text → List Text → List Text
finish slug [] = []
finish slug (t ∷ ts) = let rest = finish slug ts in if eqb t slug then ts else t ∷ rest

-- A goroutine that a read of `slug` started; they run in any order.
unfoldable pub run_pending : Env → Text → PasteService → PasteService
unfolding finish
run_pending e slug s = record {
  rows = Repo.increment_views (e.fails 0) slug s.rows;
  pending = finish slug s.pending;
}
