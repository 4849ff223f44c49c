-- ===== src/Pastes/Tests.antt =====
-- Pastes with a library whose cipher is readable: the sealed text is the key and the text.
use realm_api.Common.{
  ◌/◌, ◌*◌, ℕ, ◌<◌, ◌≡◌, ◌⊎◌, refl, true, false, Option, none, some, List, [], ◌∷◌, ◌++◌, Text, txt,
  take, drop, drop-append, length, eqb, eqb_iff, is_empty, trim_space, ℤ, if◌then◌else◌, arith,
}
use realm_api.Env.{Env}
use realm_api.Errors.{ok, err, sentinel, err_paste_not_found}
use realm_api.Auth.Samples.{encode, decode, decode-encode, take-append}
use realm_api.Pastes.{Paste, CreatePasteRequest}
use realm_api.Pastes.Crypto.{
  EncryptedEnvelope, Libraries, IsSound, encrypt_paste, decrypt_paste, is_encrypted_paste,
  decrypt_paste-encrypt_paste,
}
use realm_api.Pastes.Repo
use realm_api.Pastes.Repo.{find_slug, is_expired}
use realm_api.Pastes.Service.{PasteService, create_paste, get_paste_by_slug}
use realm_api.Pastes.Laws.{burn_once, get_paste_by_slug_sound}
use realm_api.Pastes.Roundtrip.{get_paste_by_slug-create_paste}

abbrev unseal : Text → List ℕ → Option Text
unseal key [] = none
unseal key (n ∷ s) = if eqb (take (length key) s) key then some (drop (length key) s) else none

abbrev fields : EncryptedEnvelope → List Text
fields v =
    v.kdf
    ∷ v.cipher
    ∷ v.salt
    ∷ v.nonce
    ∷ v.sealed_data
    ∷ (v.version ∷ [])
    ∷ (v.time ∷ [])
    ∷ (v.memory ∷ [])
    ∷ (v.threads ∷ [])
    ∷ []

abbrev from_fields : List Text → Option EncryptedEnvelope
from_fields (a ∷ b ∷ c ∷ d ∷ e ∷ (f ∷ []) ∷ (g ∷ []) ∷ (h ∷ []) ∷ (k ∷ []) ∷ []) = some (record {
  kdf = a;
  cipher = b;
  salt = c;
  nonce = d;
  sealed_data = e;
  version = f;
  time = g;
  memory = h;
  threads = k;
})
from_fields _ = none

abbrev libraries : Libraries
libraries = record {
  id_key = λ password salt t m p. password;
  new_x = λ key. true;
  seal = λ key nonce plain. length key ∷ (key ++ plain);
  unseal = λ key nonce s. unseal key s;
  encode = λ bs. bs;
  decode = λ s. some s;
  marshal = λ v. some (encode (fields v));
  unmarshal = λ bs. from_fields (decode 9 bs);
}

libraries-IsSound : IsSound libraries
libraries-IsSound = record {
  decode-encode = λ bs. refl;
  encode-nonempty = λ bs h. h;
  unmarshal-marshal = λ v bs h.
      let same : encode (fields v) ≡ bs = ground arith in
      (rw (← same, decode-encode (fields v)), rw (← same));
  unseal-seal = λ key nonce plain.
      rw (take-append key plain, (eqb_iff key key).1 refl, drop-append key plain);
  seal-nonempty = λ key nonce plain. refl;
}

abbrev env : Env
env = record {
  clock = λ n. 1000;
  fails = λ n. false;
  choice = λ n. 0;
  column = λ t. t / 1000 * 1000;
}

abbrev nonce : List ℕ
nonce =
    1 ∷ 2 ∷ 3 ∷ 4 ∷ 5 ∷ 6 ∷ 7 ∷ 8 ∷ 9 ∷ 10 ∷ 11 ∷ 12 ∷ 13 ∷ 14 ∷ 15 ∷ 16 ∷ 17 ∷ 18 ∷ 19 ∷ 20 ∷ 21
    ∷ 22 ∷ 23 ∷ 24 ∷ []

abbrev envelope : Text
envelope =
    txt "$paste_v1$"
    ++ encode (
        fields (record {
          kdf = txt "argon2id";
          cipher = txt "xchacha20poly1305";
          salt = 9 ∷ [];
          nonce = nonce;
          sealed_data = 2 ∷ (txt "pw" ++ txt "text");
          version = 1;
          time = 3;
          memory = 65536;
          threads = 4;
        }))

sealed : encrypt_paste libraries (some (9 ∷ [])) (some nonce) (txt "text") (txt "pw") ≡ ok envelope
unfolding encrypt_paste
sealed = refl

decrypt_paste-encrypt_paste_example :
    (is_encrypted_paste envelope ≡ true)
    × (decrypt_paste libraries envelope (txt "pw") ≡ ok (txt "text"))
decrypt_paste-encrypt_paste_example =
    decrypt_paste-encrypt_paste libraries libraries-IsSound (9 ∷ []) nonce (txt "text") (txt "pw")
      envelope refl refl sealed

abbrev paste : Paste
paste = record {
  created_at = 1000;
  updated_at = 1000;
  user_id = none;
  expires_at = some 5000;
  slug = txt "dddddde";
  title = [];
  content = txt "text";
  syntax = txt "go";
  views = 0;
  id = 7;
  is_public = true;
  is_encrypted = false;
  burn_after_read = true;
}

abbrev service : PasteService
service = record { rows = paste ∷ []; pending = [] }

burn_once_example :
    (get_paste_by_slug libraries env
      (txt "dddddde")
      []
      (get_paste_by_slug libraries env (txt "dddddde") [] service).1).0
    ≡ err (sentinel err_paste_not_found)
unfolding find_slug is_expired trim_space eqb realm_api.Common.Text-discrete
burn_once_example =
    burn_once libraries env env (txt "dddddde") [] [] service paste refl refl refl refl refl refl
      refl

abbrev no_password : Text
no_password = []

read : (get_paste_by_slug libraries env (txt "dddddde") [] service).0 ≡ ok paste
unfolding get_paste_by_slug trim_space Repo.get_paste_by_slug find_slug eqb
    realm_api.Common.Text-discrete is_expired
read = refl

get_paste_by_slug_sound_example :
    (q : Paste) × (find_slug (trim_space (txt "dddddde")) service.rows ≡ some q)
    × (is_expired 1000 q.expires_at ≡ false)
    × (paste ≡ record q { content = paste.content })
    × (((q.is_encrypted ≡ false) × (paste.content ≡ q.content))
        ⊎ ((q.is_encrypted ≡ true) × (no_password ≡ []) × (paste.content ≡ []))
        ⊎ ((q.is_encrypted ≡ true) × (decrypt_paste libraries q.content [] ≡ ok paste.content)))
get_paste_by_slug_sound_example =
    get_paste_by_slug_sound libraries env (txt "dddddde") [] service paste read

abbrev request : CreatePasteRequest
request = record {
  expires_at = some 5000;
  is_public = none;
  burn_after_read = none;
  title = [];
  content = txt "text";
  syntax = txt "go";
  password = txt " pw";
  ttl = [];
}

abbrev made : Paste
made = record paste { slug = txt "ddddddd"; is_encrypted = true; burn_after_read = false }

create-made :
    (create_paste
      (λ u. u)
      (λ d. none)
      libraries
      env
      1000
      (some (9 ∷ []))
      (some nonce)
      (λ i j. some 3)
      7
      request
      none
      service).0
    ≡ ok made
unfolding create_paste trim_space realm_api.Common.byte_len encrypt_paste Repo.create_paste
    Repo.try_create Repo.attempt_slug realm_api.Pastes.Service.draft Repo.generate_slug eqb
    realm_api.Common.Text-discrete realm_api.Common.to_lower
create-made = refl

get_paste_by_slug-create_paste_example :
    (get_paste_by_slug libraries env
      (txt "ddddddd")
      (trim_space (txt " pw"))
      (create_paste
        (λ u. u)
        (λ d. none)
        libraries
        env
        1000
        (some (9 ∷ []))
        (some nonce)
        (λ i j. some 3)
        7
        request
        none
        service).1).0
    ≡ ok made
unfolding is_expired
get_paste_by_slug-create_paste_example =
    get_paste_by_slug-create_paste (λ u. u) (λ d. none) libraries libraries-IsSound env env 1000 7
      (9 ∷ []) nonce (λ i j. some 3) (λ i j n h. ground arith) request none service made refl refl
      create-made refl refl
