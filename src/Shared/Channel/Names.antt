-- ===== src/Shared/Channel/Names.antt =====
-- The names of the channels and their comparison.
use srosha.Prelude.{
  ◌≡◌, refl, sym, ap, subst, ◌∙◌, ◌↔◌, true, List, [], ◌∷◌, arith, Text, text_eqb, text_eqb_iff,
  Bool-cases, inl, inr,
}
use srosha.Errs.Result.{ok, ok_injective}
use srosha.Shared.Channel.{
  Channel, email, telegram, bale, whatsapp, matrix, gotify, fcm, apns, other, name, valid,
  channel_of, checked, all_channels, parse_channel, channel_eqb,
}

parse_of_name : (c : Channel) → valid c ≡ true → parse_channel (name c) ≡ ok c
unfolding parse_channel name text_eqb
parse_of_name email h = refl
parse_of_name telegram h = refl
parse_of_name bale h = refl
parse_of_name whatsapp h = refl
parse_of_name matrix h = refl
parse_of_name gotify h = refl
parse_of_name fcm h = refl
parse_of_name apns h = refl
parse_of_name (other s) h = cc

name-channel_of : (cs : List Channel) (s : Text) → name (channel_of cs s) ≡ s
unfolding channel_of
name-channel_of [] s = unfold name in refl
name-channel_of (c ∷ cs) s = elim (Bool-cases (text_eqb (name c) s)) [
  | inl e ↦ rw e ((text_eqb_iff (name c) s).0 e)
  | inr e ↦ rw e (name-channel_of cs s)
]

checked_inv : (c d : Channel) → checked d ≡ ok c → (valid c ≡ true) × (d ≡ c)
unfolding checked
checked_inv c d h = ground arith

name_of_parse : (c : Channel) (s : Text) → parse_channel s ≡ ok c → (valid c ≡ true) × (name c ≡ s)
unfolding parse_channel
name_of_parse c s h =
    let (good, e) = checked_inv c (channel_of all_channels s) h in
    (good, ap name (sym e) ∙ name-channel_of all_channels s)

-- A text is read as a channel exactly when that channel is one of the eight and the text is its
-- name.
pub parse_channel-name :
    (c : Channel) (s : Text) → (parse_channel s ≡ ok c) ↔ ((valid c ≡ true) × (name c ≡ s))
parse_channel-name c s =
    (name_of_parse c s, λ h. subst (λ t. parse_channel t ≡ ok c) h.1 (parse_of_name c h.0))

pub channel_eqb_refl : (c : Channel) → channel_eqb c c ≡ true
unfolding channel_eqb
channel_eqb_refl c = (text_eqb_iff (name c) (name c)).1 refl

-- Valid channels with one name are one channel.
pub channel_eqb-eq :
    (c d : Channel) → valid c ≡ true → valid d ≡ true → channel_eqb c d ≡ true → c ≡ d
unfolding channel_eqb
channel_eqb-eq c d hc hd h =
    let same = (text_eqb_iff (name c) (name d)).0 h in
    ok_injective c d (sym (parse_of_name c hc) ∙ ap parse_channel same ∙ parse_of_name d hd)
