-- ===== src/Crypto/Roundtrip.antt =====
-- Messages that shared/directorutil/crypto.py encrypts and decrypts.
use director.Prelude.{
  Bytes, ℕ, ◌+◌, ◌%◌, ◌≤◌, ◌<◌, ◌≡◌, refl, ◌∙◌, String, true, false, ◌||◌, ◌⊎◌, ◌++◌, arith, ltb,
  eqb, take-append, drop-append, length,
}
use director.Prelude.Exec.{ok, err}
use director.Prelude.Text.{◌⊕◌}
use director.Crypto.{
  crypto_error, Library, encrypt_message, decrypt_message, decrypt_short_message_pkcs1,
  encrypt_with, open_sealed,
}

-- A key pair, and what pycryptodome documents: the lengths of random bytes, ciphertexts and tags; which
-- messages and keys are accepted; and that decryption undoes encryption with the same `mac_len`.
pub record IsSound {Public Private W : Type 0} (lib : Library Public Private W) (public : Public)
    (private : Private) : Type 0 where
  pub random_length : (n : ℕ) (w : W) → length (lib.get_random_bytes n w).0 ≡ n
  pub oaep :
      (msg : Bytes) (w : W)
      → length msg + 42 ≤ lib.size_in_bytes private
      → (c : Bytes) × (w' : W) × (lib.oaep_encrypt public msg w ≡ (ok c, w'))
        × (length c ≡ lib.size_in_bytes private)
        × (lib.oaep_decrypt private c ≡ ok msg)
  pub eax :
      (key nonce msg : Bytes) (mac_len : ℕ)
      → (length key ≡ 16) ⊎ ((length key ≡ 24) ⊎ (length key ≡ 32))
      → 2 ≤ mac_len
      → mac_len ≤ 16
      → 1 ≤ length nonce
      → (c : Bytes) × (tag : Bytes) × (lib.eax_encrypt key nonce mac_len msg ≡ ok (c, tag))
        × (length tag ≡ mac_len)
        × (lib.eax_decrypt key nonce mac_len c tag ≡ ok msg)
  pub eax_refuses :
      (key nonce c tag : Bytes) (mac_len : ℕ)
      → ltb (length tag) mac_len ≡ true
      → (e : String) × (lib.eax_decrypt key nonce mac_len c tag ≡ err e)

-- The four parts of a message, found again.
decrypt_parts :
    {Public Private W : Type 0} (lib : Library Public Private W) (private : Private)
    (head nonce tag c key : Bytes) (nonce_length tag_length : ℕ)
    → length head ≡ lib.size_in_bytes private
    → length nonce ≡ nonce_length
    → length tag ≡ tag_length
    → lib.oaep_decrypt private head ≡ ok key
    → decrypt_message lib (head ++ (nonce ++ (tag ++ c))) private nonce_length tag_length
      ≡ open_sealed lib nonce tag c (ok key)
unfolding decrypt_message
decrypt_parts lib private head nonce tag c key nonce_length tag_length h n t d =
    rw
      (
        take-append head (nonce ++ (tag ++ c)) (lib.size_in_bytes private) h,
        drop-append head (nonce ++ (tag ++ c)) (lib.size_in_bytes private) h,
        take-append nonce (tag ++ c) nonce_length n,
        drop-append nonce (tag ++ c) nonce_length n,
        take-append tag c tag_length t,
        drop-append tag c tag_length t,
        decrypt_short_message_pkcs1,
        d,
      )
      refl

opened_lem :
    {Public Private W : Type 0} (lib : Library Public Private W) (nonce tag c key msg : Bytes)
    → lib.eax_decrypt key nonce 16 c tag ≡ ok msg
    → open_sealed lib nonce tag c (ok key) ≡ ok msg
unfolding open_sealed
opened_lem lib nonce tag c key msg e = rw e refl

refused_lem :
    {Public Private W : Type 0} (lib : Library Public Private W) (nonce tag c key : Bytes)
    (e : String)
    → lib.eax_decrypt key nonce 16 c tag ≡ err e
    → open_sealed lib nonce tag c (ok key) ≡ err (crypto_error ("Error decrypting message: " ⊕ e))
unfolding open_sealed
refused_lem lib nonce tag c key e r = rw r refl

-- The tag lengths that `encrypt_message` accepts: even, and from 4 to 16.
abbrev pub IsTagLength : ℕ → Type 0
IsTagLength t = (eqb (t % 2) 1 || ltb t 4 || ltb 16 t) ≡ false

module _ {Public Private W : Type 0} (lib : Library Public Private W) (public : Public)
    (private : Private) (sound : IsSound lib public private) where
  encrypt_with-ok :
      (msg c tag head : Bytes) (n m t : ℕ) (w w' : W)
      → lib.eax_encrypt
          (lib.get_random_bytes n w).0
          (lib.get_random_bytes m (lib.get_random_bytes n w).1).0
          t
          msg
        ≡ ok (c, tag)
      → lib.oaep_encrypt public
          (lib.get_random_bytes n w).0
          (lib.get_random_bytes m (lib.get_random_bytes n w).1).1
        ≡ (ok head, w')
      → (encrypt_with lib msg public n m t w).0
        ≡ ok (head ++ ((lib.get_random_bytes m (lib.get_random_bytes n w).1).0 ++ (tag ++ c)))
  unfolding encrypt_with
  encrypt_with-ok msg c tag head n m t w w' sealed wrapped = rw (sealed, wrapped) refl

  encrypt_message-valid :
      (msg : Bytes) (n m t : ℕ)
      → 16 ≤ n
      → 16 ≤ m
      → IsTagLength t
      → encrypt_message lib msg public n m t ≡ encrypt_with lib msg public n m t
  unfolding encrypt_message
  encrypt_message-valid msg n m t hn hm ht =
      let n_ok : ltb n 16 ≡ false = ground arith in
      let m_ok : ltb m 16 ≡ false = ground arith in rw (n_ok, m_ok, ht) refl

  -- A message is encrypted, and decryption comes as far as the tag.
  module _ (msg : Bytes) (key_length nonce_length tag_length : ℕ) (w : W)
      (key_ok : (key_length ≡ 16) ⊎ ((key_length ≡ 24) ⊎ (key_length ≡ 32)))
      (fits : key_length + 42 ≤ lib.size_in_bytes private) (nonce_ok : 16 ≤ nonce_length)
      (tag_ok : IsTagLength tag_length) where
    sealed_parts :
        (message : Bytes) × (nonce : Bytes) × (tag : Bytes) × (c : Bytes) × (key : Bytes)
        × ((encrypt_message lib msg public key_length nonce_length tag_length w).0 ≡ ok message)
        × (decrypt_message lib message private nonce_length tag_length
            ≡ open_sealed lib nonce tag c (ok key))
        × (length tag ≡ tag_length)
        × (lib.eax_decrypt key nonce tag_length c tag ≡ ok msg)
    sealed_parts =
        let key = (lib.get_random_bytes key_length w).0 in
        let w₁ = (lib.get_random_bytes key_length w).1 in
        let nonce = (lib.get_random_bytes nonce_length w₁).0 in
        let lk = sound.random_length key_length w in
        let ln = sound.random_length nonce_length w₁ in
        let (c, tag, sealed, lt, opened) =
          sound.eax key nonce msg tag_length (rw lk key_ok) (ground arith) (ground arith)
            (omega arith) in
        let (head, w₃, wrapped, lh, unwrapped) =
          sound.oaep key (lib.get_random_bytes nonce_length w₁).1 (omega arith) in
        (
          head ++ (nonce ++ (tag ++ c)),
          nonce,
          tag,
          c,
          key,
          rw
              (encrypt_message-valid msg key_length nonce_length tag_length (ground arith) nonce_ok
                tag_ok)
              (encrypt_with-ok msg c tag head key_length nonce_length tag_length w w₃ sealed
                wrapped),
          decrypt_parts lib private head nonce tag c key nonce_length tag_length lh ln lt unwrapped,
          lt,
          opened,
        )

  -- For a sound library, a session key of 16, 24 or 32 bytes, a nonce of at least 16 bytes and a key pair
  -- whose size is at least 42 bytes above the session key's: encryption with a tag of 16 bytes, the default,
  -- gives a message, and decryption with the same lengths gives the text back.
  pub decrypt_message-encrypt_message :
      (msg : Bytes) (key_length nonce_length : ℕ) (w : W)
      → (key_length ≡ 16) ⊎ ((key_length ≡ 24) ⊎ (key_length ≡ 32))
      → key_length + 42 ≤ lib.size_in_bytes private
      → 16 ≤ nonce_length
      → (c : Bytes) × ((encrypt_message lib msg public key_length nonce_length 16 w).0 ≡ ok c)
        × (decrypt_message lib c private nonce_length 16 ≡ ok msg)
  decrypt_message-encrypt_message msg key_length nonce_length w key_ok fits nonce_ok =
      let (c, nonce, tag, text, key, made, opens, l, opened) =
        sealed_parts msg key_length nonce_length 16 w key_ok fits nonce_ok refl in
      (c, made, opens ∙ opened_lem lib nonce tag text key msg opened)

  -- Under the same conditions on the library, the lengths of session key and nonce and the key pair, with any
  -- shorter tag that `encrypt_message` accepts, it gives a message, and decryption with the same lengths
  -- fails.
  pub short_tag-decrypt_message :
      (msg : Bytes) (key_length nonce_length tag_length : ℕ) (w : W)
      → (key_length ≡ 16) ⊎ ((key_length ≡ 24) ⊎ (key_length ≡ 32))
      → key_length + 42 ≤ lib.size_in_bytes private
      → 16 ≤ nonce_length
      → IsTagLength tag_length
      → tag_length < 16
      → (c : Bytes) × (e : String) × ((encrypt_message lib msg public key_length nonce_length
            tag_length w).0
          ≡ ok c)
        × (decrypt_message lib c private nonce_length tag_length ≡ err (crypto_error e))
  short_tag-decrypt_message msg key_length nonce_length tag_length w key_ok fits nonce_ok tag_ok
        short =
      let (c, nonce, tag, text, key, made, opens, l, opened) =
        sealed_parts msg key_length nonce_length tag_length w key_ok fits nonce_ok tag_ok in
      let (e, refused) = sound.eax_refuses key nonce text tag 16 (ground arith) in
      (
        c,
        "Error decrypting message: " ⊕ e,
        made,
        opens ∙ refused_lem lib nonce tag text key e refused,
      )
