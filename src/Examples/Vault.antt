-- ===== src/Examples/Vault.antt =====
-- Credentials and their default, and the watch over free space, on concrete values.
use srosha.Prelude.{refl, inr, true, false, some, [], ◌∷◌, text, pos}
use srosha.Errs.Result.{ok}
use srosha.Effect.{fine, after}
use srosha.Shared.Channel.{telegram}
use srosha.Source.{Source}
use srosha.Vault.{Row, Vault, Keyring, one_default}
use srosha.Vault.Methods.{register, deactivate_one, activate_one, set_default, rotate, update}
use srosha.Vault.Defaults.{IsKept}
use srosha.Vault.Kept.{operations-IsKept}

abbrev keys : Keyring
keys = record { seal = λ p b. ok p; open_sealed = λ s b. ok s; needs_reseal = λ s. false }

abbrev shop : Source
shop = record {
  id = text "shop";
  name = text "Shop";
  description = [];
  max_priority = pos 1;
  is_active = true;
  owner_user_id = text "u2";
  approved_at = some 3;
  reviewed_at = some 3;
  review_note = [];
  allow_custom_address = true;
  default_addresses = [];
  created_at = 1;
  updated_at = 3;
}

abbrev bot : Row
bot = record {
  cred = record {
    id = text "k1";
    source_id = text "shop";
    channel = telegram;
    name = text "news";
    created_at = 1;
    updated_at = 1;
    is_default = true;
    is_active = true;
  };
  config = text "{}";
  secret = some (text "s");
}

abbrev vault : Vault
vault = record { sources = shop ∷ []; rows = bot ∷ [] }

operations-IsKept_example :
    IsKept
      (register keys true
        (text "k1")
        5
        (text "shop")
        telegram
        (text "ads")
        []
        (text "t")
        true
        (vault, fine ∷ (after ∷ []))).1.0
    × IsKept (deactivate_one 5 (text "shop") (text "k1") (vault, fine ∷ (after ∷ []))).1.0
    × IsKept (activate_one 5 (text "shop") (text "k1") (vault, fine ∷ (after ∷ []))).1.0
    × IsKept (set_default 5 6 (text "shop") (text "k1") (vault, fine ∷ (after ∷ []))).1.0
    × IsKept (rotate keys 5 (text "shop") (text "k1") (text "t") (vault, fine ∷ (after ∷ []))).1.0
    × IsKept (update true 5 (text "shop") (text "k1") [] (vault, fine ∷ (after ∷ []))).1.0
unfolding one_default
operations-IsKept_example =
    operations-IsKept keys true true (text "k1") 5 6 (text "shop") (text "ads") [] (text "t")
      telegram (vault, fine ∷ (after ∷ [])) (record { single = refl; usable = (inr refl, tt) })
