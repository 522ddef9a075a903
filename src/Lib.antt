-- ===== src/Lib.antt =====
-- Srosha: a notification gateway. A source (a customer's application) submits a message over
-- one or more channels; the gateway stores it with one pending delivery for each recipient and hands
-- an event for each to a broker; dispatchers take the events, send each delivery through a provider,
-- write the outcome once, and call the source's webhook when all of a message is settled.
--
-- The library follows internal/core from the bottom up.
--   Prelude     Boolean tests, lists, byte texts and integers over the native naturals.
--   Errs        pkg/errs and the sentinels of the domains: an error is its chain; Errs.Result is
--               Go's `(value, error)`.
--   Shared      internal/core/shared: Channel (channel.go), Id (id.go), Priority (priority.go),
--               Recipient (recipient.go), Cursor (pagination.go).
--   Delivery    internal/core/domain/delivery: status.go and entity.go; Opening is `NewSet`.
--   Notification  internal/core/domain/notification: entity.go and types.go.
--   Source      internal/core/domain/source: entity.go and service.go; Routes is `Resolve`.
--   Webhook     internal/core/domain/webhook/entity.go.
--   Credential  internal/core/domain/credential/entity.go.
--   Submit      internal/core/usecase/submit.go, the accepting side: one request against the tables,
--               with what other requests commit between the check of the key and the transaction.
--   Store       internal/adapter/db/postgres: delivery.go and queries/delivery.sql, each statement as
--               a function on the list of rows, atomic as Postgres runs it.
--   Dispatch    internal/core/usecase/dispatch.go, delivery/tracker.go and webhook/service.go, the
--               sending side. A worker is a program, a tree of calls of its environment (Program);
--               World says what the environment does on each call, also when a statement fails before
--               or after it took effect, and how the calls of many workers interleave.
--   User, LoginCode, Session, Key  internal/core/domain/user, logincode, session and source/key.go.
--   Effect      code that runs statements on tables, each of which may fail before or after it took
--               effect; Keeps is what it keeps, Inversion what an answer says of its steps.
--   Table       the statements that the repositories run, on lists of rows.
--   Console     the tables behind people: SignIn is internal/core/usecase/signin.go, Gate gate.go,
--               Sources source.go, Keys key.go with source/auth.go, Operators operator.go,
--               operator_people.go and operator_read.go, each with its repository of
--               internal/adapter/db/postgres; Audited is the ten changes that go
--               through the gate, together; the trial of a channel is not among them.
--   Vault       the credentials of sources and their statements; Methods is
--               internal/core/usecase/credential.go and internal/adapter/secret/keeper.go, Resealed
--               what Material writes back under a newer key.
--   Capacity    internal/core/usecase/capacity.go.
--   Retention   internal/core/usecase/retention.go with its statement: a loop over the number of batches
--               that are left, of which there are a hundred at first.
--   Encode      encodings of bytes as text: Hex, Decimal (Go's strconv), Base64 (encoding/base64).
--   Callback    the signature of callbacks: what internal/adapter/notifier posts (Notifier), and how
--               sdk/go/srosha/callback.go checks it at the receiver (Verifier); Posted has both sides.
--   Crypto      pkg/crypto/keyring.go; Checked and Interface fill the keyring that Vault and Registrar
--               take as a parameter.
--   Registrar   internal/core/usecase/register.go and internal/adapter/secret/webhook.go.
--   Broker      internal/adapter/mq/nats: consumer.go with its table of delays, and subjects.go.
--   Senders     internal/adapter/sender: Answers is what each provider's errors.go and
--               internal/infra/smtp/errors.go make of an answer, Configs the settings of the providers,
--               Registry and Lookup registry.go.
--   Examples    the model run on concrete values.
--
-- A pointer method that changes its receiver returns the receiver as it then is and its error. A
-- moment is a number of nanoseconds since Go's zero time. Maps are association lists. Texts are lists
-- of bytes. Loops over lists are structural recursion, so there is no fuel; a run of workers is as
-- long as the list of its turns.
--
-- Taken as given, as parameters: HMAC, the AES-GCM cipher and its nonces, decoders of JSON, the
-- verdict of net/mail on an address, net/url and net/netip, clocks, identifier generators, the
-- answers of providers, of callbacks, and of the rate limiter (in Dispatch also of the sender
-- registry), and whether each statement and commit of the database fails. That a failed lookup or
-- send returns an error that is not nil is a hypothesis where it is needed.
--
-- Not modelled: the requests that senders make over HTTP and SMTP, the publisher and the stream of
-- the broker, the front ends, the rate limiter, configuration, bootstrap and generated code, which
-- are input, output and wiring; log lines and the texts of error messages; JSON codecs; listings by
-- page; trials, what a source asks about its messages, and the operators' lists of messages,
-- deliveries and senders; foreign keys, but for the deliveries that go with an old message, since
-- no other row that another points to is deleted. How a code is drawn and how a key is minted and
-- hashed is given, as their results.
pub mod Broker
pub mod Callback
pub mod Encode
pub mod Prelude
pub mod Errs
pub mod Effect
pub mod Shared
pub mod Delivery
pub mod Notification
pub mod Source
pub mod Webhook
pub mod Credential
pub mod Crypto
pub mod Submit
pub mod User
pub mod LoginCode
pub mod Senders
pub mod Session
pub mod Key
pub mod Table
pub mod Console
pub mod Capacity
pub mod Registrar
pub mod Retention
pub mod Vault
pub mod Store
pub mod Dispatch
pub mod Examples
