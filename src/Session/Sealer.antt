-- ===== src/Session/Sealer.antt =====
-- session/cookie.go: the sealer. AES-256-GCM and base64 are a parameter; a byte is a code point.
use hog.Base.{
  sym, ◌==◌, String-discrete, String, ◌<>◌, ℕ, ◌≡◌, ◌≢◌, ◌∙◌, arith, false, Option, none, some, ltb,
  eqb, if◌then◌else◌,
}
use hog.Base.Text
use hog.Base.Text.{size}

abbrev pub nonce_size : ℕ
nonce_size = 12

-- `base64.RawURLEncoding` and `cipher.AEAD`, of keys, nonces, texts and additional data.
pub record Aead : Type 0 where
  pub encode : String → String
  pub decode : String → Option String
  pub encrypt : String → String → String → String → String
  pub decrypt : String → String → String → String → Option String

-- What the two promise: decoding and decryption undo encoding and encryption, and a text that was
-- sealed for other additional data does not authenticate.
pub record IsSound (c : Aead) : Type 0 where
  pub decode-encode : (s : String) → c.decode (c.encode s) ≡ some s
  pub decrypt-encrypt :
      (key nonce plain aad : String)
      → c.decrypt key nonce (c.encrypt key nonce plain aad) aad ≡ some plain
  pub other_aad :
      (key nonce plain aad aad' : String)
      → aad ≢ aad'
      → c.decrypt key nonce (c.encrypt key nonce plain aad) aad' ≡ none

-- `newSealer32`: the key, if it has 32 bytes
pub new_sealer : String → Option String
new_sealer key = if eqb (size key) 32 then some key else none

module _ (c : Aead) (key : String) where
  -- `seal`, with the nonce that was drawn
  unfoldable pub seal : String → String → String → String
  seal nonce plain aad = c.encode (nonce <> c.encrypt key nonce plain aad)

  abbrev open_raw : Option String → String → Option String
  open_raw none aad = none
  open_raw (some raw) aad =
      if ltb (size raw) nonce_size
      then none
      else (let (nonce, text) = Text.split_at nonce_size raw in c.decrypt key nonce text aad)

  -- `open`
  unfoldable pub unseal : String → String → Option String
  unseal value aad = open_raw (c.decode value) aad

module _ (c : Aead) (sound : IsSound c) (key nonce plain aad : String)
    (fits : size nonce ≡ nonce_size) where
  split_nonce : (text : String) → Text.split_at nonce_size (nonce <> text) ≡ (nonce, text)
  split_nonce text = rw fits at (Text.split_at-size nonce text)

  long_enough : (text : String) → ltb (size (nonce <> text)) nonce_size ≡ false
  long_enough text = ground (arith, Text.size-append nonce text)

  open_raw_lem :
      (text aad' : String)
      → open_raw c key (some (nonce <> text)) aad' ≡ c.decrypt key nonce text aad'
  open_raw_lem text aad' = rw (long_enough text, split_nonce text)

  pub unseal_same : unseal c key (seal c key nonce plain aad) aad ≡ some plain
  unfolding unseal seal
  unseal_same =
      rw sound.decode-encode (open_raw_lem _ aad ∙ sound.decrypt-encrypt key nonce plain aad)

  unseal_other :
      (aad' : String) → aad ≢ aad' → unseal c key (seal c key nonce plain aad) aad' ≡ none
  unfolding unseal seal
  unseal_other aad' ne =
      rw sound.decode-encode (open_raw_lem _ aad' ∙ sound.other_aad key nonce plain aad aad' ne)

  -- What was sealed opens under the same key and the same additional data, and under no other data:
  -- the session cookie, the login cookie and the stored record, which share a key, cannot be
  -- taken for one another.
  pub unseal-seal :
      (aad' : String)
      → unseal c key (seal c key nonce plain aad) aad' ≡ (if aad == aad' then some plain else none)
  unseal-seal aad' = elim (String-discrete aad aad') [
    | yes e ↦ rw (sym e) (ground (arith, unseal_same))
    | no n ↦ ground (arith, n, unseal_other aad' n)
  ]
