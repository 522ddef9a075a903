-- ===== src/Errs.antt =====
-- Errors: pkg/errs (errs.go, types.go), the sentinel errors of the core's packages, and
-- internal/core/shared/senderror.go. An error is the tree that `errors.Is` and `errors.As` walk;
-- its texts, which only the logs and the client's message show, are left out.
pub mod Result
use srosha.Prelude.{
  ℕ, ◌≡◌, refl, Bool, true, false, ◌||◌, Option, none, some, arith, ◌==◌, if◌then◌else◌,
}

-- `errs.Type`.
pub data ErrType : Type 0 where
  unknown invalid_input unauthorized forbidden not_found duplicate_entry too_many : ErrType
  internal unavailable timeout : ErrType

type_index : ErrType → ℕ
type_index unknown = 0
type_index invalid_input = 1
type_index unauthorized = 2
type_index forbidden = 3
type_index not_found = 4
type_index duplicate_entry = 5
type_index too_many = 6
type_index internal = 7
type_index unavailable = 8
type_index timeout = 9

unfoldable pub type_eqb : ErrType → ErrType → Bool
unfolding type_index
type_eqb t u = type_index t == type_index u

-- The package-level `errors.New` values that the modelled code attaches or tests for.
pub data Sentinel : Type 0 where
  invalid_id unknown_channel empty_address invalid_address unknown_priority : Sentinel
  no_recipients duplicate_recipient delivery_not_found already_settled : Sentinel
  unknown_status unknown_failure_reason missing_notification missing_id_func : Sentinel
  missing_failure_reason invalid_transition : Sentinel
  missing_source missing_timestamp notification_not_found duplicate_key empty_body : Sentinel
  already_expired unknown_window window_too_long : Sentinel
  empty_name source_inactive no_routes rate_limited custom_address_not_allowed : Sentinel
  no_address_for_channel no_reason already_approved not_approved not_reviewed : Sentinel
  no_reachable_address unknown_key key_label_required key_label_too_long : Sentinel
  key_already_expired source_not_found key_not_found : Sentinel
  empty_url malformed_url credentials_in_url insecure_url private_url : Sentinel
  no_credential_name credential_not_found credential_inactive no_credentials no_default
        default_unusable :
      Sentinel
  invalid_name unknown_role user_inactive user_not_found empty_email invalid_email : Sentinel
  code_wrong code_spent code_expired too_many_guesses too_many_requests : Sentinel
  session_closed webhook_not_found session_not_found code_not_found not_operator : Sentinel
  not_super_admin self_target trial_no_address trial_too_many : Sentinel
  no_keys no_active_key key_size key_id malformed old_version unknown_sealing_key : Sentinel
  cannot_open no_sender_configured : Sentinel

sentinel_index : Sentinel → ℕ
sentinel_index invalid_id = 0
sentinel_index unknown_channel = 1
sentinel_index empty_address = 2
sentinel_index invalid_address = 3
sentinel_index unknown_priority = 4
sentinel_index no_recipients = 5
sentinel_index duplicate_recipient = 6
sentinel_index delivery_not_found = 7
sentinel_index already_settled = 8
sentinel_index unknown_status = 9
sentinel_index unknown_failure_reason = 10
sentinel_index missing_notification = 11
sentinel_index missing_id_func = 12
sentinel_index missing_failure_reason = 13
sentinel_index invalid_transition = 14
sentinel_index missing_source = 15
sentinel_index missing_timestamp = 16
sentinel_index notification_not_found = 17
sentinel_index duplicate_key = 18
sentinel_index empty_body = 19
sentinel_index already_expired = 20
sentinel_index unknown_window = 21
sentinel_index window_too_long = 22
sentinel_index empty_name = 23
sentinel_index source_inactive = 24
sentinel_index no_routes = 25
sentinel_index rate_limited = 26
sentinel_index custom_address_not_allowed = 27
sentinel_index no_address_for_channel = 28
sentinel_index no_reason = 29
sentinel_index already_approved = 30
sentinel_index not_approved = 31
sentinel_index not_reviewed = 32
sentinel_index no_reachable_address = 33
sentinel_index unknown_key = 34
sentinel_index key_label_required = 35
sentinel_index key_label_too_long = 36
sentinel_index key_already_expired = 37
sentinel_index source_not_found = 38
sentinel_index key_not_found = 39
sentinel_index empty_url = 40
sentinel_index malformed_url = 41
sentinel_index credentials_in_url = 42
sentinel_index insecure_url = 43
sentinel_index private_url = 44
sentinel_index no_credential_name = 63
sentinel_index credential_not_found = 45
sentinel_index credential_inactive = 46
sentinel_index no_credentials = 47
sentinel_index no_default = 48
sentinel_index default_unusable = 49
sentinel_index invalid_name = 50
sentinel_index unknown_role = 51
sentinel_index user_inactive = 52
sentinel_index user_not_found = 53
sentinel_index empty_email = 54
sentinel_index invalid_email = 55
sentinel_index code_wrong = 56
sentinel_index code_spent = 57
sentinel_index code_expired = 58
sentinel_index too_many_guesses = 59
sentinel_index too_many_requests = 60
sentinel_index session_closed = 61
sentinel_index webhook_not_found = 62
sentinel_index session_not_found = 64
sentinel_index code_not_found = 65
sentinel_index not_operator = 66
sentinel_index not_super_admin = 67
sentinel_index self_target = 68
sentinel_index trial_no_address = 69
sentinel_index trial_too_many = 70
sentinel_index no_keys = 71
sentinel_index no_active_key = 72
sentinel_index key_size = 73
sentinel_index key_id = 74
sentinel_index malformed = 75
sentinel_index old_version = 76
sentinel_index unknown_sealing_key = 77
sentinel_index cannot_open = 78
sentinel_index no_sender_configured = 79

-- Sentinels are compared by identity.
unfoldable pub sentinel_eqb : Sentinel → Sentinel → Bool
unfolding sentinel_index
sentinel_eqb s t = sentinel_index s == sentinel_index t

-- `shared.SendKind`, in the order of its constants.
pub data SendKind : Type 0 where
  transient permanent unreachable : SendKind

-- A Go `error`; `nil` is the absent reason. `both` is what `fmt.Errorf("%w: %w", …)` wraps, `app`
-- an `*AppError` with its type and its reason, `send` a `*SendError` with its kind, its
-- `RetryAfter` and its `Err`.
pub data Error : Type 0 where
  nil : Error
  sentinel : Sentinel → Error
  str : Error
  both : Error → Error → Error
  app : ErrType → Error → Error
  send : SendKind → ℕ → Error → Error

abbrev pub is_nil : Error → Bool
is_nil nil = true
is_nil _ = false

-- `chainReason`.
unfoldable pub chain_reason : Error → Error → Error
chain_reason existing next =
    if is_nil existing then next else if is_nil next then existing else both existing next

-- An `*AppError` before it is returned as an `error`.
pub record AppError : Type 0 where
  pub typ : ErrType
  pub reason : Error

-- `New`, and with it the constructors by type.
abbrev pub new : ErrType → AppError
new t = record { typ = t; reason = nil }

unfoldable pub with_err : AppError → Error → AppError
unfolding chain_reason
with_err e cause = record e { reason = chain_reason e.reason cause }

unfoldable pub with_str : AppError → AppError
unfolding chain_reason
with_str e = record e { reason = chain_reason e.reason str }

abbrev pub to_error : AppError → Error
to_error e = app e.typ e.reason

-- `errors.Is(err, s)` at a sentinel.
unfoldable pub errors_is : Error → Sentinel → Bool
unfolding sentinel_eqb
errors_is nil s = false
errors_is (sentinel t) s = sentinel_eqb t s
errors_is str s = false
errors_is (both a b) s = errors_is a s || errors_is b s
errors_is (app t r) s = errors_is r s
errors_is (send k after e) s = errors_is e s

abbrev or_else {ℓ} : {A : Type ℓ} → Option A → Option A → Option A
or_else none o = o
or_else (some a) _ = some a

-- `As`: the first `*AppError` on the walk, of which only the type is read.
unfoldable pub as_app : Error → Option ErrType
as_app nil = none
as_app (sentinel t) = none
as_app str = none
as_app (both a b) = or_else (as_app a) (as_app b)
as_app (app t r) = some t
as_app (send k after e) = as_app e

unfoldable pub is_type : Error → ErrType → Bool
unfolding as_app type_eqb
is_type e t = elim (as_app e) [ none ↦ false | some u ↦ type_eqb u t ]

unfoldable pub type_of : Error → ErrType
unfolding as_app
type_of e = elim (as_app e) [ none ↦ internal | some u ↦ u ]

-- `errors.As(err, &se)` at a `*SendError`.
unfoldable pub as_send : Error → Option (SendKind × ℕ)
as_send nil = none
as_send (sentinel t) = none
as_send str = none
as_send (both a b) = or_else (as_send a) (as_send b)
as_send (app t r) = as_send r
as_send (send k after e) = some (k, after)

unfoldable pub send_kind_of : Error → SendKind
unfolding as_send
send_kind_of e = elim (as_send e) [ none ↦ transient | some (k, after) ↦ k ]

abbrev pub final : SendKind → Bool
final transient = false
final permanent = true
final unreachable = true

unfoldable pub is_permanent_send : Error → Bool
unfolding send_kind_of
is_permanent_send e = final (send_kind_of e)

unfoldable pub send_retry_after : Error → ℕ
unfolding as_send
send_retry_after e = elim (as_send e) [ none ↦ 0 | some (k, after) ↦ after ]

-- `errs.XErr(msg).WithErr(s)`, and the same with `.WithStr(…)` behind it, as they compute.
abbrev pub refused : ErrType → Sentinel → Error
refused t s = app t (sentinel s)

abbrev pub detailed : ErrType → Sentinel → Error
detailed t s = app t (both (sentinel s) str)
