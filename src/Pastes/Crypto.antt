-- ===== src/Pastes/Crypto.antt =====
-- internal/security/paste_crypto.go: the envelope of an encrypted paste. Argon2id and
-- XChaCha20-Poly1305 (golang.org/x/crypto), encoding/json and encoding/base64 are parameters.
use realm_api.Common.{
  ℕ, ◌*◌, ◌≡◌, refl, Bool, true, false, ◌&&◌, ◌||◌, not, Option, none, some, List, [], ◌∷◌, ◌++◌,
  Text, txt, drop, length, is_empty, leb, eqb, eqb_iff, has_prefix, has_prefix-append, drop-append,
  ◌==◌, if◌then◌else◌, arith, Option-cases, inl, inr,
}
use realm_api.Errors.{
  Result, ok, err, sentinel, new, wrap, driver, err_password_required, err_invalid_password,
  err_corrupted_ciphertext,
}

-- `EncryptedEnvelope`
pub record EncryptedEnvelope : Type 0 where
  pub kdf : Text
  pub cipher : Text
  pub salt : Text
  pub nonce : Text
  pub sealed_data : Text
  pub version : ℕ
  pub time : ℕ
  pub memory : ℕ
  pub threads : ℕ

-- The libraries. A key is a text; `new_x` says whether `chacha20poly1305.NewX` takes it.
pub record Libraries : Type 0 where
  pub id_key : Text → List ℕ → ℕ → ℕ → ℕ → Text
  pub new_x : Text → Bool
  pub seal : Text → List ℕ → Text → List ℕ
  pub unseal : Text → List ℕ → List ℕ → Option Text
  pub encode : List ℕ → Text
  pub decode : Text → Option (List ℕ)
  pub marshal : EncryptedEnvelope → Option (List ℕ)
  pub unmarshal : List ℕ → Option EncryptedEnvelope

-- What the libraries document: decoding undoes encoding, and the cipher opens under the key and nonce
-- with which it sealed; a sealed text has its tag, and an encoding of something is something.
pub record IsSound (c : Libraries) : Type 0 where
  pub decode-encode : (bs : List ℕ) → c.decode (c.encode bs) ≡ some bs
  pub encode-nonempty : (bs : List ℕ) → is_empty bs ≡ false → is_empty (c.encode bs) ≡ false
  pub unmarshal-marshal :
      (v : EncryptedEnvelope) (bs : List ℕ)
      → c.marshal v ≡ some bs
      → (c.unmarshal bs ≡ some v) × (is_empty bs ≡ false)
  pub unseal-seal :
      (key : Text) (nonce : List ℕ) (plain : Text)
      → c.unseal key nonce (c.seal key nonce plain) ≡ some plain
  pub seal-nonempty :
      (key : Text) (nonce : List ℕ) (plain : Text) → is_empty (c.seal key nonce plain) ≡ false

abbrev pub paste_envelope_prefix : Text
paste_envelope_prefix = txt "$paste_v1$"

-- The prefix is ASCII, so counting code points and counting bytes give the same answer.
unfoldable pub is_encrypted_paste : Text → Bool
is_encrypted_paste content =
    not (leb (length content) (length paste_envelope_prefix))
    && has_prefix content paste_envelope_prefix

abbrev argon_time : ℕ
argon_time = 3

abbrev argon_memory : ℕ
argon_memory = 64 * 1024

abbrev argon_threads : ℕ
argon_threads = 4

abbrev nonce_size : ℕ
nonce_size = 24

module _ (c : Libraries) where
  -- `salt` and `nonce` are what the random reader gives, 16 and 24 bytes.
  unfoldable pub encrypt_paste : Option (List ℕ) → Option (List ℕ) → Text → Text → Result Text
  encrypt_paste salt nonce plain password =
      if is_empty password then err (new "encryption password cannot be empty") else elim salt [
        | none ↦ err (wrap "failed to generate random salt" driver)
        | some s ↦
            let key : Text = c.id_key password s argon_time argon_memory argon_threads in
            if not (c.new_x key)
            then err (wrap "failed to initialize AEAD cipher" driver)
            else elim nonce [
              | none ↦ err (wrap "failed to generate random nonce" driver)
              | some n ↦
                  elim (c.marshal (record {
                    kdf = txt "argon2id";
                    cipher = txt "xchacha20poly1305";
                    salt = c.encode s;
                    nonce = c.encode n;
                    sealed_data = c.encode (c.seal key n plain);
                    version = 1;
                    time = argon_time;
                    memory = argon_memory;
                    threads = argon_threads;
                  })) [
                    | none ↦ err (wrap "failed to serialize crypto envelope" driver)
                    | some bytes ↦ ok (paste_envelope_prefix ++ c.encode bytes)
                  ]
            ]
      ]

  abbrev corrupted : Result Text
  corrupted = err (sentinel err_corrupted_ciphertext)

  -- a field that must decode to something
  unfoldable pub decode_field : Text → Option (List ℕ)
  decode_field field = elim (c.decode field) [
    | none ↦ none
    | some bs ↦ if is_empty bs then none else some bs
  ]

  unfoldable pub open_envelope : EncryptedEnvelope → Text → Result Text
  open_envelope v password =
      if not (v.version == 1)
        || not (eqb v.kdf (txt "argon2id"))
        || not (eqb v.cipher (txt "xchacha20poly1305"))
      then err (new "unsupported crypto envelope version or algorithms")
      else elim (decode_field v.salt) [
        | none ↦ corrupted
        | some salt ↦ elim (decode_field v.nonce) [
          | none ↦ corrupted
          | some nonce ↦ elim (decode_field v.sealed_data) [
            | none ↦ corrupted
            | some ciphertext ↦
                let key : Text = c.id_key password salt v.time v.memory v.threads in
                if not (c.new_x key)
                then err (wrap "failed to initialize AEAD cipher" driver)
                else if not (length nonce == nonce_size)
                then corrupted
                else elim (c.unseal key nonce ciphertext) [
                  | none ↦ err (sentinel err_invalid_password)
                  | some plain ↦ ok plain
                ]
          ]
        ]
      ]

  unfoldable pub decrypt_paste : Text → Text → Result Text
  unfolding open_envelope
  decrypt_paste envelope password =
      if is_empty password
      then err (sentinel err_password_required)
      else if not (is_encrypted_paste envelope)
      then corrupted
      else elim (c.decode (drop (length paste_envelope_prefix) envelope)) [
        | none ↦ corrupted
        | some raw ↦ elim (c.unmarshal raw) [ none ↦ corrupted | some v ↦ open_envelope v password ]
      ]

  decode_field-encode :
      IsSound c → (bs : List ℕ) → is_empty bs ≡ false → decode_field (c.encode bs) ≡ some bs
  unfolding decode_field
  decode_field-encode sound bs h = let e = sound.decode-encode bs in rw (e, decode_field, h)

  marked : (t : Text) → is_empty t ≡ false → is_encrypted_paste (paste_envelope_prefix ++ t) ≡ true
  unfolding is_encrypted_paste
  marked [] h = absurd (ground arith)
  marked (d ∷ t) h = rw (has_prefix-append paste_envelope_prefix (d ∷ t)) (ground arith)

  module _ (sound : IsSound c) (salt nonce : List ℕ) (plain password : Text) where
    abbrev made_key : Text
    made_key = c.id_key password salt argon_time argon_memory argon_threads

    abbrev made : EncryptedEnvelope
    made = record {
      kdf = txt "argon2id";
      cipher = txt "xchacha20poly1305";
      salt = c.encode salt;
      nonce = c.encode nonce;
      sealed_data = c.encode (c.seal made_key nonce plain);
      version = 1;
      time = argon_time;
      memory = argon_memory;
      threads = argon_threads;
    }

    open_envelope-made :
        is_empty salt ≡ false
        → length nonce ≡ 24
        → c.new_x made_key ≡ true
        → open_envelope made password ≡ ok plain
    unfolding open_envelope
    open_envelope-made salted sized good =
        let a = decode_field-encode sound salt salted in
        let b = decode_field-encode sound nonce (nonempty nonce sized) in
        let d =
          decode_field-encode sound (c.seal made_key nonce plain)
            (sound.seal-nonempty made_key nonce plain) in
        let k = eqb_iff (txt "argon2id") (txt "argon2id") in
        let x = eqb_iff (txt "xchacha20poly1305") (txt "xchacha20poly1305") in
        rw (k.1 refl, x.1 refl, a, b, d, good, sized, sound.unseal-seal made_key nonce plain)
      where
        nonempty : (bs : List ℕ) → length bs ≡ 24 → is_empty bs ≡ false
        nonempty [] e = absurd (omega arith)
        nonempty (b ∷ bs) e = refl

    encrypt_paste-eq-ok :
        (envelope : Text)
        → encrypt_paste (some salt) (some nonce) plain password ≡ ok envelope
        → (bytes : List ℕ) × (is_empty password ≡ false)
          × (c.new_x made_key ≡ true)
          × (c.marshal made ≡ some bytes)
          × (envelope ≡ paste_envelope_prefix ++ c.encode bytes)
    unfolding encrypt_paste
    encrypt_paste-eq-ok envelope h = elim (Option-cases (c.marshal made)) [
      | inl bad ↦ absurd (ground arith)
      | inr (bytes, good) ↦ (bytes, ground arith, ground arith, good, ground arith)
    ]

    -- Provided the libraries do what they document: what is encrypted under a password, with a salt
    -- that is not empty and a nonce of 24 bytes, has the form of an encrypted paste and is read back
    -- under that password.
    pub decrypt_paste-encrypt_paste :
        (envelope : Text)
        → is_empty salt ≡ false
        → length nonce ≡ 24
        → encrypt_paste (some salt) (some nonce) plain password ≡ ok envelope
        → (is_encrypted_paste envelope ≡ true) × (decrypt_paste envelope password ≡ ok plain)
    unfolding decrypt_paste
    decrypt_paste-encrypt_paste envelope salted sized h =
        let (bytes, named, good, wire, same) = encrypt_paste-eq-ok envelope h in
        let (back, some_bytes) = sound.unmarshal-marshal made bytes wire in
        let mark = marked (c.encode bytes) (sound.encode-nonempty bytes some_bytes) in
        let opened = open_envelope-made salted sized good in
        rw
          (
            same,
            mark,
            named,
            drop-append paste_envelope_prefix (c.encode bytes),
            sound.decode-encode bytes,
            back,
          )
          (refl, opened)
