-- ===== src/Crypto/Interface.antt =====
-- The keyring as the keepers of secrets use it.
use srosha.Prelude.{
  ◌≡◌, refl, ap, ◌∙◌, sym, subst, All, Option, none, some, List, Text, length, is_empty, false,
  text_eqb_iff, arith,
}
use srosha.Errs.Result.{Result, ok, ok_injective}
use srosha.Encode.Hex.{IsByte}
use srosha.Vault.{Keyring}
use srosha.Crypto.{
  Aead, nonce_size, Ring, key_of, new_keyring, usable, sealed_by, sealed_value, seal, open_value,
  needs_reseal,
}
use srosha.Crypto.Rotation.{IsSound, open_value-seal}

-- What is asked of a keyring: it opens what it sealed, no sealed value is empty, and what it
-- seals is under its active key.
pub record IsKeyring (keys : Keyring) : Type 0 where
  pub reopens :
      (plain aad value : Text)
      → keys.seal plain aad ≡ ok value
      → keys.open_sealed value aad ≡ ok plain
  pub filled : (plain aad value : Text) → keys.seal plain aad ≡ ok value → is_empty value ≡ false
  pub current :
      (plain aad value : Text) → keys.seal plain aad ≡ ok value → keys.needs_reseal value ≡ false

-- A ring with the nonce that is drawn next.
unfoldable pub keyring_of : Ring → Text → Keyring
unfolding seal open_value needs_reseal
keyring_of ring nonce = record {
  seal = seal ring (ok nonce);
  open_sealed = open_value ring;
  needs_reseal = needs_reseal ring;
}

sealed_by-filled :
    (id nonce plain aad : Text) (found : Option Aead) (value : Text)
    → sealed_by id nonce plain aad found ≡ ok value
    → is_empty value ≡ false
unfolding sealed_by sealed_value
sealed_by-filled id nonce plain aad none value h = cc
sealed_by-filled id nonce plain aad (some aead) value h = sym (ap is_empty (ok_injective _ value h))

-- Every ring that `new_keyring` made serves as a keyring.
pub keyring_of-IsKeyring :
    (cipher : Text → Result Aead) (keys : List (Text × Text)) (active : Text) (ring : Ring)
    (nonce : Text)
    → ((key : Text) (aead : Aead) → cipher key ≡ ok aead → IsSound aead)
    → new_keyring cipher keys active ≡ ok ring
    → All IsByte nonce
    → length nonce ≡ nonce_size
    → IsKeyring (keyring_of ring nonce)
unfolding keyring_of seal usable
keyring_of-IsKeyring cipher keys active ring nonce sound made bytes size = record {
  reopens = λ plain aad value h.
      let (v, e, opens, r) =
        open_value-seal cipher keys keys active active ring ring nonce plain aad sound made made
          refl bytes size in
      subst (λ (x : Text). open_value ring x aad ≡ ok plain) (ok_injective v value (sym e ∙ h))
        opens;
  filled = λ plain aad value h.
      sealed_by-filled ring.active nonce plain aad (key_of ring.active ring.keys) value h;
  current = λ plain aad value h.
      let (v, e, opens, r) =
        open_value-seal cipher keys keys active active ring ring nonce plain aad sound made made
          refl bytes size in
      ap (needs_reseal ring) (sym (ok_injective v value (sym e ∙ h)))
      ∙ r
      ∙ ground (arith, text_eqb_iff active active);
}
