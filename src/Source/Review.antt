-- ===== src/Source/Review.antt =====
-- The operator's decisions as a state machine of four states, which the source's columns encode.
use srosha.Prelude.{
  ◌≡◌, refl, ap, sym, ◌↔◌, ◌∙◌, inl, inr, ◌≢◌, Bool, true, false, ◌&&◌, not, Option, none, some,
  is_some, List, [], ◌∷◌, Text, is_empty, arith, trim_space, length, leb, if◌then◌else◌,
}
use srosha.Errs.{Error, nil}
use srosha.Errs.Result.{ok, Result-cases, then_inv, ok_injective}
use srosha.Shared.Id.{SharedId}
use srosha.Source.{
  Time, Addresses, Source, max_review_note_len, new, check_settings, check_name, check_addresses,
  reconfigure, ensure_active, is_reachable, approve, refuse, suspend, restore,
}

-- What an operator sees of a source: in the queue, turned away at the door, let out, or stopped.
pub data Review : Type 0 where
  queued turned_away active suspended : Review

abbrev encoded : Bool → Bool → Bool → Bool → Option Review
encoded false false false true = some queued
encoded false true false false = some turned_away
encoded true true true true = some active
encoded true true false true = some suspended
encoded _ _ _ _ = none

-- The state that the columns encode; any other combination of them encodes none.
abbrev pub review : Source → Option Review
review s =
    encoded (is_some s.approved_at) (is_some s.reviewed_at) s.is_active (is_empty s.review_note)

pub data Decision : Type 0 where
  to_approve to_suspend to_restore : Decision
  to_refuse : Text → Decision

abbrev pub decide : Decision → Time → Source → Source × Error
decide to_approve now s = approve now s
decide to_suspend now s = suspend now s
decide to_restore now s = restore now s
decide (to_refuse note) now s = refuse note now s

-- A reason that counts as one.
abbrev is_reason : Text → Bool
is_reason note =
    not (is_empty (trim_space note)) && leb (length (trim_space note)) max_review_note_len

-- The diagram: where a decision leads, or that it is not open. The flag says whether the source
-- has anywhere to send.
abbrev pub next : Decision → Bool → Review → Option Review
next to_approve reachable r = if reachable then some active else none
next to_suspend reachable active = some suspended
next to_suspend reachable suspended = some suspended
next to_suspend reachable _ = none
next to_restore reachable queued = none
next to_restore reachable _ = if reachable then some active else none
next (to_refuse note) reachable queued = if is_reason note then some turned_away else none
next (to_refuse note) reachable turned_away = if is_reason note then some turned_away else none
next (to_refuse note) reachable _ = none

-- What a decision does to a source whose state has this continuation.
abbrev pub Follows : Option Review → Source → Source × Error → Type 0
Follows none s (s', e) = (s' ≡ s) × (e ≢ nil)
Follows (some r) s (s', e) =
    (review s' ≡ some r)
    × (e ≡ nil)
    × (s'.name ≡ s.name)
    × (s'.default_addresses ≡ s.default_addresses)
    × (s'.max_priority ≡ s.max_priority)
    × (s'.owner_user_id ≡ s.owner_user_id)

-- The four methods implement the diagram: on a source that is in one of the four states, a
-- decision that the diagram does not have returns an error and changes nothing, and any other
-- leads to the state that the diagram names and leaves the customer's settings, the ceiling and
-- the owner alone.
pub decide-next :
    (d : Decision) (now : Time) (s : Source) (r : Review)
    → review s ≡ some r
    → Follows (next d (is_reachable s) r) s (decide d now s)
unfolding approve refuse suspend restore
decide-next to_approve now s r h = ground arith
decide-next to_suspend now s queued h = ground arith
decide-next to_suspend now s turned_away h = ground arith
decide-next to_suspend now s active h = ground arith
decide-next to_suspend now s suspended h = ground arith
decide-next to_restore now s queued h = ground arith
decide-next to_restore now s _ h = ground arith
decide-next (to_refuse note) now s queued h = ground arith
decide-next (to_refuse note) now s turned_away h = ground arith
decide-next (to_refuse note) now s _ h = ground arith

-- What happens to a source after it was registered: a decision, or the customer's new settings.
pub data Event : Type 0 where
  decided : Decision → Time → Event
  configured : Text → Text → Addresses → Time → Event

pub happen : (Text → Bool) → Event → Source → Source
unfolding reconfigure
happen is_mail (decided d now) s = (decide d now s).0
happen is_mail (configured name description addresses now) s =
    (reconfigure is_mail name description addresses now s).0

pub happen_all : (Text → Bool) → List Event → Source → Source
unfolding happen
happen_all is_mail [] s = s
happen_all is_mail (e ∷ es) s = happen_all is_mail es (happen is_mail e s)

abbrev InSome : Source → Type 0
InSome s = (r : Review) × (review s ≡ some r)

abbrev followed :
    (o : Option Review) (r : Review) (s s' : Source) (e : Error)
    → review s ≡ some r
    → Follows o s (s', e)
    → InSome s'
followed none r s s' e h f = (r, ap review f.0 ∙ h)
followed (some q) r s s' e h f = (q, f.0)

reconfigure-review :
    (is_mail : Text → Bool) (name description : Text) (addresses : Addresses) (now : Time)
    (s : Source)
    → review (reconfigure is_mail name description addresses now s).0 ≡ review s
unfolding reconfigure
reconfigure-review is_mail name description addresses now s =
    elim (Result-cases (check_settings is_mail name description addresses)) [
      | inl (_, e) ↦ rw e refl
      | inr (_, e) ↦ rw e refl
    ]

happen_all-InSome :
    (is_mail : Text → Bool) (es : List Event) (s : Source)
    → InSome s
    → InSome (happen_all is_mail es s)
unfolding happen_all
happen_all-InSome is_mail [] s h = h
happen_all-InSome is_mail (decided d now ∷ es) s (r, h) =
    happen_all-InSome is_mail es (decide d now s).0
      (followed (next d (is_reachable s) r) r s _ (decide d now s).1 h (decide-next d now s r h))
happen_all-InSome is_mail (configured name description addresses now ∷ es) s (r, h) =
    happen_all-InSome is_mail es _
      (r, reconfigure-review is_mail name description addresses now s ∙ h)

active_only :
    (s : Source) (r : Review) → review s ≡ some r → (ensure_active s ≡ ok tt) ↔ (r ≡ active)
unfolding ensure_active
active_only s r h = (λ e. ground arith, λ e. ground arith)

new-queued :
    (is_mail : Text → Bool) (id : Text) (owner : SharedId) (name : Text) (addresses : Addresses)
    (now : Time) (s : Source)
    → new is_mail id owner name addresses now ≡ ok s
    → review s ≡ some queued
unfolding new
new-queued is_mail id owner name addresses now s h =
    let (_, h1) = then_inv (check_name (trim_space name)) _ h in
    let (_, h2) = then_inv (check_addresses is_mail addresses) _ h1 in
    let made = ok_review _ s h2 in made
  where
    ok_review : (a b : Source) → ok a ≡ ok b → review b ≡ review a
    ok_review a b e = ap review (sym (ok_injective a b e))

-- However a registered source is decided about and configured, in whatever order, its columns
-- encode one of the four states, and it may send exactly when that state is `active`.
pub registered-ensure_active :
    (is_mail : Text → Bool) (id : Text) (owner : SharedId) (name : Text) (addresses : Addresses)
    (now : Time) (s : Source) (es : List Event)
    → new is_mail id owner name addresses now ≡ ok s
    → (r : Review) × (review (happen_all is_mail es s) ≡ some r)
      × ((ensure_active (happen_all is_mail es s) ≡ ok tt) ↔ (r ≡ active))
registered-ensure_active is_mail id owner name addresses now s es h =
    let (r, e) =
      happen_all-InSome is_mail es s (queued, new-queued is_mail id owner name addresses now s h) in
    (r, e, active_only (happen_all is_mail es s) r e)
