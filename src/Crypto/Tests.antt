-- ===== src/Crypto/Tests.antt =====
-- Runs of shared/directorutil/crypto.py with a toy library, and the theorems at concrete inputs.
use director.Prelude.{
  Bytes, ℕ, zero, suc, ◌+◌, ◌-◌, ◌≡◌, ◌↔◌, refl, inl, String, true, List, [], ◌∷◌, ◌++◌, all, arith,
  leb, take, take-append, length, length-append, if◌then◌else◌,
}
use director.Prelude.Exec.{ok, err}
use director.Crypto.{
  Library, crypto_error, verify_error, Verdict, invalid, accepted, encrypt_message, decrypt_message,
  verify_message_hash,
}
use director.Crypto.Roundtrip.{IsSound, decrypt_message-encrypt_message, short_tag-decrypt_message}
use director.Crypto.Signatures.{is_invalid, Accepts, verify_message_hash_iff}

repeat : ℕ → ℕ → Bytes
repeat zero b = []
repeat (suc n) b = b ∷ repeat n b

length-repeat : (n b : ℕ) → length (repeat n b) ≡ n
unfolding repeat
length-repeat zero b = refl
length-repeat (suc n) b = rw (length-repeat n b)

-- A ciphertext is the length, the message, and zeros up to 100 bytes.
toy : Library (Unit {0}) (Unit {0}) ℕ
unfolding repeat
toy = record {
  size_in_bytes = λ key. 100;
  get_random_bytes = λ n w. (repeat n w, w + 1);
  oaep_encrypt = λ key msg w. (ok (length msg ∷ (msg ++ repeat (99 - length msg) 0)), w + 1);
  oaep_decrypt = λ key c. elim c [ [] ↦ err "empty" | n ∷ rest ↦ ok (take n rest) ];
  eax_encrypt = λ key nonce mac_len msg. ok (msg, repeat mac_len 7);
  eax_decrypt =
      λ key nonce mac_len c tag. if leb mac_len (length tag) then ok c else err "MAC check failed";
}

toy-IsSound : IsSound toy tt tt
unfolding toy
toy-IsSound = record {
  random_length = λ n w. length-repeat n w;
  oaep = λ msg w fits. (
    length msg ∷ (msg ++ repeat (99 - length msg) 0),
    w + 1,
    refl,
    omega
        (arith, length-append msg (repeat (99 - length msg) 0), length-repeat (99 - length msg) 0),
    rw (take-append msg (repeat (99 - length msg) 0) (length msg) refl) refl,
  );
  eax = λ key nonce msg mac_len k lo hi n. (
    msg,
    repeat mac_len 7,
    refl,
    length-repeat mac_len 7,
    ground (arith, length-repeat mac_len 7),
  );
  eax_refuses = λ key nonce c tag mac_len short. ("MAC check failed", ground arith);
}

decrypt_message-encrypt_message_example :
    (c : Bytes) × ((encrypt_message toy (b'h' ∷ b'i' ∷ []) tt 16 16 16 3).0 ≡ ok c)
    × (decrypt_message toy c tt 16 16 ≡ ok (b'h' ∷ b'i' ∷ []))
unfolding toy
decrypt_message-encrypt_message_example =
    decrypt_message-encrypt_message toy tt tt toy-IsSound (b'h' ∷ b'i' ∷ []) 16 16 3 (inl refl)
      (omega arith) (omega arith)

short_tag-decrypt_message_example :
    (c : Bytes) × (e : String) × ((encrypt_message toy (b'h' ∷ b'i' ∷ []) tt 16 16 8 3).0 ≡ ok c)
    × (decrypt_message toy c tt 16 8 ≡ err (crypto_error e))
unfolding toy
short_tag-decrypt_message_example =
    short_tag-decrypt_message toy tt tt toy-IsSound (b'h' ∷ b'i' ∷ []) 16 16 8 3 (inl refl)
      (omega arith) (omega arith) refl (omega arith)

-- The first algorithm finds the signature invalid, and the second accepts it.
abbrev verifiers : List (ℕ → Bytes → Verdict)
verifiers = (λ h s. invalid "bad") ∷ (λ h s. accepted) ∷ []

verify_message_hash_iff_example :
    ((verify_message_hash 5 [] verifiers ≡ ok tt) ↔ Accepts (invalid "bad" ∷ accepted ∷ []))
    × (((e : String) × (verify_message_hash 5 [] verifiers ≡ err (verify_error e)))
        ↔ (all is_invalid (invalid "bad" ∷ accepted ∷ []) ≡ true))
verify_message_hash_iff_example = verify_message_hash_iff 5 [] verifiers
