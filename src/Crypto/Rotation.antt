-- ===== src/Crypto/Rotation.antt =====
-- Values that were sealed before a change of keys.
use srosha.Prelude.{
  ◌≡◌, ap, ◌∙◌, false, not, Option, some, List, All, Text, text_eqb, length, arith,
}
use srosha.Errs.{internal, detailed, old_version}
use srosha.Errs.Result.{refuse_if, Result, ok, err, ◌>>=◌, ◌>>◌}
use srosha.Encode.Hex.{IsByte}
use srosha.Encode.Base64.{has_dot}
use srosha.Crypto.{
  Aead, nonce_size, version, Ring, key_of, new_keyring, seal, sealed_value, sealed_by, Fields,
  opened, open_value, needs_reseal,
}
use srosha.Crypto.Sealed.{fields_of-sealed_value}
use srosha.Crypto.Checked.{check_keys-Matches, new_keyring_inv, matched, matched_key}

-- What is asked of a cipher: what it sealed it opens, and it makes bytes.
pub record IsSound (aead : Aead) : Type 0 where
  pub reopens :
      (nonce plaintext aad : Text)
      → aead.open_with nonce (aead.seal_with nonce plaintext aad) aad ≡ some plaintext
  pub bytes : (nonce plaintext aad : Text) → All IsByte (aead.seal_with nonce plaintext aad)

module _ (cipher : Text → Result Aead) where
  sealed_by_found :
      (id nonce plaintext aad : Text) (found : Option Aead) (aead : Aead)
      → found ≡ some aead
      → sealed_by id nonce plaintext aad found
        ≡ ok (sealed_value id nonce (aead.seal_with nonce plaintext aad))
  unfolding sealed_by
  sealed_by_found id nonce plaintext aad found aead e = ap (sealed_by id nonce plaintext aad) e

  opened_found :
      (id nonce plaintext aad : Text) (found : Option Aead) (aead : Aead)
      → IsSound aead
      → found ≡ some aead
      → length nonce ≡ nonce_size
      → opened aad
          (record {
            ver = version;
            id = id;
            nonce = nonce;
            ciphertext = aead.seal_with nonce plaintext aad;
          })
          found
        ≡ ok plaintext
  unfolding opened
  opened_found id nonce plaintext aad found aead sound e size =
      ground (arith, e, size, sound.reopens nonce plaintext aad)

  open_value-sealed_value :
      (ring : Ring) (id nonce plaintext aad : Text) (aead : Aead)
      → IsSound aead
      → has_dot id ≡ false
      → All IsByte nonce
      → length nonce ≡ nonce_size
      → key_of id ring.keys ≡ some aead
      → open_value ring (sealed_value id nonce (aead.seal_with nonce plaintext aad)) aad
        ≡ ok plaintext
  unfolding open_value text_eqb
  open_value-sealed_value ring id nonce plaintext aad aead sound plain bytes size found =
      let read =
        fields_of-sealed_value id nonce (aead.seal_with nonce plaintext aad) plain bytes
          (sound.bytes nonce plaintext aad) in
      ap
        (λ (r : Result Fields). r >>= (λ (f : Fields).
          refuse_if (not (text_eqb f.ver version)) (detailed internal old_version)
          >> opened aad f (key_of f.id ring.keys)))
        read
      ∙ opened_found id nonce plaintext aad (key_of id ring.keys) aead sound found size

  needs_reseal-sealed_value :
      (ring : Ring) (id nonce ciphertext : Text)
      → has_dot id ≡ false
      → All IsByte nonce
      → All IsByte ciphertext
      → needs_reseal ring (sealed_value id nonce ciphertext) ≡ not (text_eqb id ring.active)
  unfolding needs_reseal
  needs_reseal-sealed_value ring id nonce ciphertext plain n c =
      ap (λ (r : Result Fields). elim r [ err e ↦ false | ok f ↦ not (text_eqb f.id ring.active) ])
        (fields_of-sealed_value id nonce ciphertext plain n c)

  -- A value that one keyring sealed opens under a later one that still holds the key it was
  -- sealed with, and is to be sealed again exactly when the active key is another by then.
  pub open_value-seal :
      (before after : List (Text × Text)) (a b : Text) (old new : Ring) (nonce plaintext aad : Text)
      → ((key : Text) (aead : Aead) → cipher key ≡ ok aead → IsSound aead)
      → new_keyring cipher before a ≡ ok old
      → new_keyring cipher after b ≡ ok new
      → key_of a after ≡ key_of a before
      → All IsByte nonce
      → length nonce ≡ nonce_size
      → (value : Text) × (seal old (ok nonce) plaintext aad ≡ ok value)
        × (open_value new value aad ≡ ok plaintext)
        × (needs_reseal new value ≡ not (text_eqb a b))
  unfolding seal
  open_value-seal before after a b old new nonce plaintext aad sound made remade kept bytes size =
      let (checked, active, aead, found) = new_keyring_inv cipher before a old made in
      let (rechecked, now_active, other, held) = new_keyring_inv cipher after b new remade in
      let (key, written, ciphered, plain) =
        matched cipher a (key_of a before) (key_of a old.keys) aead found
          (check_keys-Matches cipher before old.keys a checked) in
      let still =
        matched_key cipher a key (key_of a after) (key_of a new.keys) aead (kept ∙ written) ciphered
          (check_keys-Matches cipher after new.keys a rechecked) in
      (
        sealed_value a nonce (aead.seal_with nonce plaintext aad),
        ap (λ id. sealed_by id nonce plaintext aad (key_of id old.keys)) active
            ∙ sealed_by_found a nonce plaintext aad (key_of a old.keys) aead found,
        open_value-sealed_value new a nonce plaintext aad aead (sound key aead ciphered) plain bytes
            size still,
        needs_reseal-sealed_value new a nonce (aead.seal_with nonce plaintext aad) plain bytes
              ((sound key aead ciphered).bytes nonce plaintext aad)
            ∙ ap (λ id. not (text_eqb a id)) now_active,
      )
