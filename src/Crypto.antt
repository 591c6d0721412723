-- ===== src/Crypto.antt =====
-- shared/directorutil/crypto.py: signatures, and messages encrypted under a session key. The
-- algorithms of pycryptodome are parameters.
pub mod Roundtrip
pub mod Signatures
mod Tests
use director.Prelude.{
  Bytes, ℕ, ◌%◌, String, ◌||◌, List, [], ◌∷◌, ◌++◌, map, ltb, eqb, take, drop, if◌then◌else◌,
}
use director.Prelude.Text.{◌⊕◌}
use director.Prelude.Exec.{Result, ok, err, Exec, raise, lift, ◌>>=◌}

-- `ValueError`, `DirectorCryptoError`, `DirectorCryptoVerifyError`, and an exception of the library
-- that the code lets through.
pub data Stop : Type 0 where
  value_error crypto_error verify_error library_error : String → Stop

-- The functions of the library, over the state `W` of the source of random bytes. An exception is
-- given by its text. `eax_encrypt` and `eax_decrypt` stand for `AES.new` with `mac_len` and the call
-- on the cipher: key, nonce, `mac_len`, and the message, or the ciphertext and the tag.
pub record Library (Public Private W : Type 0) : Type 0 where
  pub size_in_bytes : Private → ℕ
  pub get_random_bytes : ℕ → W → Bytes × W
  pub oaep_encrypt : Public → Bytes → W → Result String Bytes × W
  pub oaep_decrypt : Private → Bytes → Result String Bytes
  pub eax_encrypt : Bytes → Bytes → ℕ → Bytes → Result String (Bytes × Bytes)
  pub eax_decrypt : Bytes → Bytes → ℕ → Bytes → Bytes → Result String Bytes

-- `except Exception as ex: raise …`
abbrev pub wrap : {A : Type 0} → (String → Stop) → Result String A → Result Stop A
wrap f (ok a) = ok a
wrap f (err e) = err (f e)

-- `mac_len` where `AES.new` is not given it.
abbrev pub default_mac_len : ℕ
default_mac_len = 16

module _ {Public Private W : Type 0} (lib : Library Public Private W) where
  unfoldable pub encrypt_short_message_pkcs1 : Bytes → Public → Exec Stop W Bytes
  encrypt_short_message_pkcs1 msg key w =
      let (r, w') = lib.oaep_encrypt key msg w in
      (wrap (λ e. crypto_error ("Error encrypting message: " ⊕ e)) r, w')

  unfoldable pub decrypt_short_message_pkcs1 : Bytes → Private → Result Stop Bytes
  decrypt_short_message_pkcs1 msg key =
      wrap (λ e. crypto_error ("Error decrypting message: " ⊕ e)) (lib.oaep_decrypt key msg)

  abbrev random : ℕ → Exec Stop W Bytes
  random n w = let (bytes, w') = lib.get_random_bytes n w in (ok bytes, w')

  -- The part behind the tests of the lengths.
  unfoldable pub encrypt_with : Bytes → Public → ℕ → ℕ → ℕ → Exec Stop W Bytes
  unfolding encrypt_short_message_pkcs1
  encrypt_with msg key key_length nonce_length tag_length = do
    session_key ← random key_length
    nonce ← random nonce_length
    sealed ← lift (wrap library_error (lib.eax_encrypt session_key nonce tag_length msg))
    head ← encrypt_short_message_pkcs1 session_key key
    lift (ok (head ++ (nonce ++ (sealed.1 ++ sealed.0))))

  unfoldable pub encrypt_message : Bytes → Public → ℕ → ℕ → ℕ → Exec Stop W Bytes
  unfolding encrypt_with
  encrypt_message msg key key_length nonce_length tag_length =
      if ltb key_length 16
      then raise (value_error "aes_session_key_length must be >= 16")
      else if ltb nonce_length 16
      then raise (value_error "aes_nonce_length must be >= 16")
      else if eqb (tag_length % 2) 1 || ltb tag_length 4 || ltb 16 tag_length
      then raise (value_error "aes_tag_length must an even number in the range [4, 16]")
      else encrypt_with msg key key_length nonce_length tag_length

  -- What follows the decryption of the session key.
  unfoldable pub open_sealed : Bytes → Bytes → Bytes → Result Stop Bytes → Result Stop Bytes
  open_sealed nonce tag msg (err e) = err e
  open_sealed nonce tag msg (ok session_key) =
      wrap (λ e. crypto_error ("Error decrypting message: " ⊕ e))
        (lib.eax_decrypt session_key nonce default_mac_len msg tag)

  unfoldable pub decrypt_message : Bytes → Private → ℕ → ℕ → Result Stop Bytes
  unfolding decrypt_short_message_pkcs1 open_sealed
  decrypt_message msg key nonce_length tag_length =
      let size = lib.size_in_bytes key in
      let behind_key = drop size msg in
      let behind_nonce = drop nonce_length behind_key in
      open_sealed (take nonce_length behind_key) (take tag_length behind_nonce)
        (drop tag_length behind_nonce) (decrypt_short_message_pkcs1 (take size msg) key)

-- What one entry of `signature_algos` makes of a hash and a signature: it cannot be constructed, it
-- accepts, it raises `ValueError`, or it raises another exception.
pub data Verdict : Type 0 where
  unconstructed invalid broken : String → Verdict
  accepted : Verdict

-- The loop, and `verify_exc` behind it.
unfoldable pub verify_from : String → List Verdict → Result Stop (Unit {0})
verify_from last [] = err (verify_error last)
verify_from last (accepted ∷ rest) = ok tt
verify_from last (unconstructed e ∷ rest) =
    err (crypto_error ("Error constructing signature object: " ⊕ e))
verify_from last (broken e ∷ rest) = err (crypto_error ("Error verifying message signature: " ⊕ e))
verify_from last (invalid e ∷ rest) = verify_from ("Error verifying message signature: " ⊕ e) rest

-- `verifiers` are `signature_algos`, each given the key, or the library's `pss` by default.
unfoldable pub verify_message_hash :
    {Hash : Type 0} → Hash → Bytes → List (Hash → Bytes → Verdict) → Result Stop (Unit {0})
unfolding verify_from
verify_message_hash hash signature verifiers =
    verify_from "Error verifying message signature" (map (λ v. v hash signature) verifiers)

unfoldable pub verify_signature :
    {Hash : Type 0}
    → (Bytes → Hash)
    → Bytes
    → Bytes
    → List (Hash → Bytes → Verdict)
    → Result Stop (Unit {0})
unfolding verify_message_hash
verify_signature new_hash msg signature verifiers =
    verify_message_hash (new_hash msg) signature verifiers
