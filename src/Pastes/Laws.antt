-- ===== src/Pastes/Laws.antt =====
-- Proofs about the reads of internal/service/paste.go.
use realm_api.Common.{
  ◌≡◌, ◌⊎◌, refl, true, false, ◌&&◌, none, some, [], ◌∷◌, Text, is_empty, trim_space, arith,
  Option-cases, Bool-cases, inl, inr,
}
use realm_api.Errors.{ok, err, sentinel, err_paste_not_found, Result-cases}
use realm_api.Env.{Env}
use realm_api.Pastes.{Paste}
use realm_api.Pastes.Crypto.{Libraries, decrypt_paste}
use realm_api.Pastes.Repo
use realm_api.Pastes.Repo.{Table, find_slug, delete_slug, has_slug, is_expired}
use realm_api.Pastes.Service.{PasteService, get_paste_by_slug, unlock}

find_slug-delete_slug : (slug : Text) (rows : Table) → find_slug slug (delete_slug slug rows) ≡ none
unfolding find_slug delete_slug
find_slug-delete_slug slug [] = refl
find_slug-delete_slug slug (p ∷ rows) = ground (arith, find_slug-delete_slug slug rows)

module _ (c : Libraries) where
  -- What a read leaves in the table does not depend on the password.
  get-rows :
      (e : Env) (raw password : Text) (s : PasteService)
      → is_empty (trim_space raw) ≡ false
      → ((get_paste_by_slug c e raw password s).1.rows
          ≡ (Repo.get_paste_by_slug e (trim_space raw) s.rows).1)
  unfolding get_paste_by_slug
  get-rows e raw password s named =
      let res = (Repo.get_paste_by_slug e (trim_space raw) s.rows).0 in
      elim (Result-cases res) [
        | inr (x, bad) ↦ ground arith
        | inl (p, good) ↦ elim (Bool-cases (p.is_encrypted && is_empty password)) [
          | inl locked ↦ ground arith
          | inr open' ↦ elim (Result-cases (unlock c (ok []) password p)) [
            | inr (x, bad) ↦ ground arith
            | inl (content, good') ↦ ground arith
          ]
        ]
      ]

  get-missing :
      (f : Env) (raw password : Text) (s : PasteService)
      → f.fails 0 ≡ false
      → find_slug (trim_space raw) s.rows ≡ none
      → (get_paste_by_slug c f raw password s).0 ≡ err (sentinel err_paste_not_found)
  unfolding get_paste_by_slug Repo.get_paste_by_slug
  get-missing f raw password s up missing = ground arith

  -- After one read of an unexpired paste that burns, whatever its password was and whatever the read
  -- gave, the paste is gone: each later read says that it is not found. (Provided neither call of
  -- the first read fails, nor the query of the later one.)
  pub burn_once :
      (e f : Env) (raw password password' : Text) (s : PasteService) (p : Paste)
      → is_empty (trim_space raw) ≡ false
      → e.fails 0 ≡ false
      → e.fails 1 ≡ false
      → find_slug (trim_space raw) s.rows ≡ some p
      → is_expired (e.clock 0) p.expires_at ≡ false
      → p.burn_after_read ≡ true
      → f.fails 0 ≡ false
      → (get_paste_by_slug c f raw password' (get_paste_by_slug c e raw password s).1).0
        ≡ err (sentinel err_paste_not_found)
  unfolding Repo.get_paste_by_slug
  burn_once e f raw password password' s p named up works found alive burns up' =
      let left = get-rows e raw password s named in
      let gone = find_slug-delete_slug (trim_space raw) s.rows in
      get-missing f raw password' (get_paste_by_slug c e raw password s).1 up' (ground arith)

  repo-eq-ok :
      (e : Env) (slug : Text) (rows : Table) (p : Paste)
      → (Repo.get_paste_by_slug e slug rows).0 ≡ ok p
      → (find_slug slug rows ≡ some p) × (is_expired (e.clock 0) p.expires_at ≡ false)
  unfolding Repo.get_paste_by_slug
  repo-eq-ok e slug rows p h = elim (Option-cases (find_slug slug rows)) [
    | inl missing ↦ ground arith
    | inr (q, found) ↦ ground arith
  ]

  -- A paste that a reader is given is the row of its slug, which has not expired, but for the
  -- content: that of the row if it is not encrypted, nothing if it is and no password is given, and
  -- otherwise what the content of the row is under the password.
  pub get_paste_by_slug_sound :
      (e : Env) (raw password : Text) (s : PasteService) (p : Paste)
      → (get_paste_by_slug c e raw password s).0 ≡ ok p
      → (q : Paste) × (find_slug (trim_space raw) s.rows ≡ some q)
        × (is_expired (e.clock 0) q.expires_at ≡ false)
        × (p ≡ record q { content = p.content })
        × (((q.is_encrypted ≡ false) × (p.content ≡ q.content))
            ⊎ ((q.is_encrypted ≡ true) × (password ≡ []) × (p.content ≡ []))
            ⊎ ((q.is_encrypted ≡ true) × (decrypt_paste c q.content password ≡ ok p.content)))
  unfolding get_paste_by_slug unlock
  get_paste_by_slug_sound e raw password s p h =
      elim (Result-cases (Repo.get_paste_by_slug e (trim_space raw) s.rows).0) [
        | inr (x, bad) ↦ absurd (ground arith)
        | inl (q, good) ↦
            let (found, alive) = repo-eq-ok e (trim_space raw) s.rows q good in
            elim (Bool-cases q.is_encrypted) [
              | inr plain ↦ (q, found, alive, ground arith, inl (plain, ground arith))
              | inl secret ↦ elim (Result-cases (decrypt_paste c q.content password)) [
                | inr (x, bad) ↦
                    (q, found, alive, ground arith, inr (inl (secret, ground arith, ground arith)))
                | inl (content, opened) ↦ (q, found, alive, ground arith, ground arith)
              ]
            ]
      ]
