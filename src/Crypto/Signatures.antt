-- ===== src/Crypto/Signatures.antt =====
-- Which signatures `verify_message_hash` of shared/directorutil/crypto.py accepts.
use director.Prelude.{
  Bytes, ◌≡◌, refl, ap, ◌↔◌, String, Bool, true, false, List, [], ◌∷◌, ◌++◌, map, all,
}
use director.Prelude.Exec.{ok, err}
use director.Prelude.Text.{◌⊕◌}
use director.Crypto.{
  verify_error, Verdict, accepted, invalid, unconstructed, broken, verify_from, verify_message_hash,
}

abbrev pub is_invalid : Verdict → Bool
is_invalid (invalid e) = true
is_invalid v = false

-- Some algorithm accepts, and those before it raise `ValueError`.
abbrev pub Accepts : List Verdict → Type 0
Accepts vs =
    (before : List Verdict) × (after : List Verdict) × (vs ≡ before ++ accepted ∷ after)
    × (all is_invalid before ≡ true)

accepts : (last : String) (vs : List Verdict) → verify_from last vs ≡ ok tt → Accepts vs
unfolding verify_from
accepts last [] h = absurd (cc)
accepts last (accepted ∷ vs) h = ([], vs, refl, refl)
accepts last (unconstructed e ∷ vs) h = absurd (cc)
accepts last (broken e ∷ vs) h = absurd (cc)
accepts last (invalid e ∷ vs) h =
    let (before, after, split, bad) = accepts ("Error verifying message signature: " ⊕ e) vs h in
    (invalid e ∷ before, after, ap (◌∷◌ (invalid e)) split, bad)

accepted_lem :
    (last : String) (before after : List Verdict)
    → all is_invalid before ≡ true
    → verify_from last (before ++ accepted ∷ after) ≡ ok tt
unfolding verify_from
accepted_lem last [] after h = refl
accepted_lem last (accepted ∷ before) after h = absurd (cc)
accepted_lem last (unconstructed e ∷ before) after h = absurd (cc)
accepted_lem last (broken e ∷ before) after h = absurd (cc)
accepted_lem last (invalid e ∷ before) after h =
    accepted_lem ("Error verifying message signature: " ⊕ e) before after h

refuses :
    (last : String) (vs : List Verdict)
    → ((e : String) × (verify_from last vs ≡ err (verify_error e))) ↔ (all is_invalid vs ≡ true)
unfolding verify_from
refuses last [] = (λ h. refl, λ h. (last, refl))
refuses last (accepted ∷ vs) = (λ h. let (e, q) = h in absurd (cc), λ h. absurd (cc))
refuses last (unconstructed e ∷ vs) = (λ h. let (x, q) = h in absurd (cc), λ h. absurd (cc))
refuses last (broken e ∷ vs) = (λ h. let (x, q) = h in absurd (cc), λ h. absurd (cc))
refuses last (invalid e ∷ vs) = refuses ("Error verifying message signature: " ⊕ e) vs

-- A signature is accepted exactly if some algorithm accepts it and all those before it find it
-- invalid; and it is refused as not matching exactly if all algorithms find it invalid.
pub verify_message_hash_iff :
    {Hash : Type 0} (hash : Hash) (signature : Bytes) (verifiers : List (Hash → Bytes → Verdict))
    → ((verify_message_hash hash signature verifiers ≡ ok tt)
        ↔ Accepts (map (λ v. v hash signature) verifiers))
      × (((e : String) × (verify_message_hash hash signature verifiers ≡ err (verify_error e)))
          ↔ (all is_invalid (map (λ v. v hash signature) verifiers) ≡ true))
unfolding verify_message_hash
verify_message_hash_iff hash signature verifiers =
    let vs = map (λ v. v hash signature) verifiers in
    (
      (
        accepts "Error verifying message signature" vs,
        λ h.
            let (before, after, split, bad) = h in
            rw split (accepted_lem "Error verifying message signature" before after bad),
      ),
      refuses "Error verifying message signature" vs,
    )
