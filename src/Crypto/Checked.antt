-- ===== src/Crypto/Checked.antt =====
-- The keys of a keyring that was built.
use srosha.Prelude.{
  some_injective, ◌≡◌, refl, ap, sym, subst, ◌∙◌, Bool, true, false, not, ◌||◌, Option, none, some,
  List, [], ◌∷◌, Text, text_eqb, text_eqb_iff, length, is_empty, ◌==◌, arith, if◌then◌else◌,
}
use srosha.Errs.{internal, detailed, key_id, key_size}
use srosha.Errs.Result.{
  refuse_if, Result, ok, err, bind_inv, then_inv, refuse_if_inv, ok_injective, ◌>>=◌,
}
use srosha.Encode.Base64.{has_dot}
use srosha.Crypto.{Aead, key_bytes, Ring, key_of, check_keys, usable, with_active, new_keyring}

-- What a key and what the keyring has for an id say of each other.
unfoldable pub Matches : (Text → Result Aead) → Text → Option Text → Option Aead → Type 0
Matches cipher id (some key) (some aead) = (cipher key ≡ ok aead) × (has_dot id ≡ false)
Matches cipher id none none = Unit
Matches cipher id _ _ = ⊥

dotless : (a b : Bool) → (a || b) ≡ false → b ≡ false
dotless a b h = ground arith

module _ (cipher : Text → Result Aead) where
  usable_inv : {A : Type 0} (r : Result A) (a : A) → usable r ≡ ok a → r ≡ ok a
  unfolding usable
  usable_inv (ok a) b h = h
  usable_inv (err e) b h = cc

  check_keys_inv :
      (name key : Text) (rest : List (Text × Text)) (ring : List (Text × Aead))
      → check_keys cipher ((name, key) ∷ rest) ≡ ok ring
      → (has_dot name ≡ false)
        × (aead : Aead) × (cipher key ≡ ok aead)
        × (others : List (Text × Aead)) × (check_keys cipher rest ≡ ok others)
        × (ring ≡ (name, aead) ∷ others)
  unfolding check_keys
  check_keys_inv name key rest ring h =
      let made =
        λ (a : Aead). check_keys cipher rest >>= (λ (o : List (Text × Aead)). ok ((name, a) ∷ o)) in
      let (named, then_sized) =
        then_inv (refuse_if (is_empty name || has_dot name) (detailed internal key_id)) _ h in
      let (sized, onward) =
        then_inv (refuse_if (not (length key == key_bytes)) (detailed internal key_size)) _
          then_sized in
      let (aead, ciphered, more) = bind_inv (usable (cipher key)) made onward in
      let (others, checked, last) =
        bind_inv (check_keys cipher rest) (λ (o : List (Text × Aead)). ok ((name, aead) ∷ o))
          more in
      (
        dotless (is_empty name) (has_dot name)
            (refuse_if_inv (is_empty name || has_dot name) (detailed internal key_id) named),
        aead,
        usable_inv (cipher key) aead ciphered,
        others,
        checked,
        sym (ok_injective ((name, aead) ∷ others) ring last),
      )

  first-Matches :
      (b : Bool) (id : Text) (key : Text) (aead : Aead) (x : Option Text) (y : Option Aead)
      → (b ≡ true → has_dot id ≡ false)
      → cipher key ≡ ok aead
      → Matches cipher id x y
      → Matches cipher id (if b then some key else x) (if b then some aead else y)
  unfolding Matches
  first-Matches true id key aead x y h c m = (c, h refl)
  first-Matches false id key aead x y h c m = m

  pub check_keys-Matches :
      (keys : List (Text × Text)) (ring : List (Text × Aead)) (id : Text)
      → check_keys cipher keys ≡ ok ring
      → Matches cipher id (key_of id keys) (key_of id ring)
  unfolding key_of Matches check_keys
  check_keys-Matches [] ring id h =
      subst (λ (r : List (Text × Aead)). Matches cipher id none (key_of id r))
        (ok_injective [] ring h) tt
  check_keys-Matches ((name, key) ∷ rest) ring id h =
      let (plain, aead, ciphered, others, checked, e) = check_keys_inv name key rest ring h in
      subst
        (λ (r : List (Text × Aead)).
          Matches cipher id (key_of id ((name, key) ∷ rest)) (key_of id r))
        (sym e)
        (first-Matches (text_eqb name id) id key aead (key_of id rest) (key_of id others)
          (λ same. subst (λ t. has_dot t ≡ false) ((text_eqb_iff name id).0 same) plain) ciphered
          (check_keys-Matches rest others id checked))

  with_active_inv :
      (active : Text) (keys : List (Text × Aead)) (found : Option Aead) (ring : Ring)
      → with_active cipher active keys found ≡ ok ring
      → (ring.keys ≡ keys) × (ring.active ≡ active) × (aead : Aead) × (found ≡ some aead)
  unfolding with_active
  with_active_inv active keys none ring h = cc
  with_active_inv active keys (some aead) ring h =
      let e = ok_injective _ ring h in
      (sym (ap (λ (r : Ring). r.keys) e), sym (ap (λ (r : Ring). r.active) e), aead, refl)

  -- A keyring that was built has its keys checked and its active key among them.
  pub new_keyring_inv :
      (keys : List (Text × Text)) (active : Text) (ring : Ring)
      → new_keyring cipher keys active ≡ ok ring
      → (check_keys cipher keys ≡ ok ring.keys)
        × (ring.active ≡ active)
        × (aead : Aead) × (key_of active ring.keys ≡ some aead)
  unfolding new_keyring
  new_keyring_inv [] active ring h = cc
  new_keyring_inv (k ∷ ks) active ring h =
      let (made, checked, last) =
        bind_inv (check_keys cipher (k ∷ ks))
          (λ (m : List (Text × Aead)). with_active cipher active m (key_of active m)) h in
      let (same_keys, same_active, aead, found) =
        with_active_inv active made (key_of active made) ring last in
      (
        subst (λ (m : List (Text × Aead)). check_keys cipher (k ∷ ks) ≡ ok m) (sym same_keys)
            checked,
        same_active,
        aead,
        subst (λ (m : List (Text × Aead)). key_of active m ≡ some aead) (sym same_keys) found,
      )

  pub matched :
      (id : Text) (key : Option Text) (found : Option Aead) (aead : Aead)
      → found ≡ some aead
      → Matches cipher id key found
      → (k : Text) × (key ≡ some k) × (cipher k ≡ ok aead) × (has_dot id ≡ false)
  unfolding Matches
  matched id (some k) (some a) aead e m = (k, refl, m.0 ∙ ap ok (some_injective a aead e), m.1)
  matched id none (some a) aead e m = absurd m
  matched id key none aead e m = cc

  pub matched_key :
      (id k : Text) (key : Option Text) (found : Option Aead) (aead : Aead)
      → key ≡ some k
      → cipher k ≡ ok aead
      → Matches cipher id key found
      → found ≡ some aead
  unfolding Matches
  matched_key id k (some k') (some a) aead e c m =
      ap some (ok_injective a aead (sym m.0 ∙ ap cipher (some_injective k' k e) ∙ c))
  matched_key id k (some k') none aead e c m = absurd m
  matched_key id k none found aead e c m = cc
