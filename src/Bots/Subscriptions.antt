-- ===== src/Bots/Subscriptions.antt =====
-- `SubscriptionService` and `validate_webhook_url` of src/twin/bots/service.py. What `urlsplit`,
-- `ip_address` and `getaddrinfo` make of a text are parameters: `ip_address` is none where it
-- raises `ValueError`; `getaddrinfo` is of the URL and its host, empty where it raises `OSError`,
-- and none where the port of the URL raises `ValueError`.
pub mod Accepted
use fakery.Prelude.{
  ℕ, Bool, true, false, ◌&&◌, ◌||◌, not, Option, none, some, List, [], ◌∷◌, ◌++◌, Text, text_eq,
  if◌then◌else◌, ◌==◌, leb, any, drop, length,
}
use Prim.Native.Nat.{◌-◌}
use fakery.Core.Errors.{validation_failed, not_found, value_error, twin, make_error}
use fakery.Core.Action.{Action, Result, ok, err, pure, raise, modify, gets, ◌>>=◌, ◌>>◌}
use fakery.Bots.Models.{WebhookSubscription, Instant, Db}
use fakery.Bots.Repository
use fakery.Bots.MeetingUrl.{Url, lower, https, host_of, is_filled}

-- What `ip_address` tells of an address.
pub record Address : Type 0 where
  pub is_private : Bool
  pub is_loopback : Bool
  pub is_link_local : Bool

abbrev pub is_inside : Address → Bool
is_inside a = a.is_private || a.is_loopback || a.is_link_local

abbrev pub ends_with : Text → Text → Bool
ends_with t suffix =
    leb (length suffix) (length t) && text_eq (drop (length t - length suffix) t) suffix

abbrev pub localhost : Text
localhost = b'l' ∷ b'o' ∷ b'c' ∷ b'a' ∷ b'l' ∷ b'h' ∷ b'o' ∷ b's' ∷ b't' ∷ []

abbrev pub metadata : Text
metadata = b'm' ∷ b'e' ∷ b't' ∷ b'a' ∷ b'd' ∷ b'a' ∷ b't' ∷ b'a' ∷ []

abbrev pub dot_local : Text
dot_local = b'.' ∷ b'l' ∷ b'o' ∷ b'c' ∷ b'a' ∷ b'l' ∷ []

abbrev pub dot_internal : Text
dot_internal = b'.' ∷ b'i' ∷ b'n' ∷ b't' ∷ b'e' ∷ b'r' ∷ b'n' ∷ b'a' ∷ b'l' ∷ []

abbrev pub metadata_google_internal : Text
metadata_google_internal = metadata ++ b'.' ∷ b'g' ∷ b'o' ∷ b'o' ∷ b'g' ∷ b'l' ∷ b'e' ∷ dot_internal

unfoldable pub is_blocked_host : Text → Bool
is_blocked_host host =
    text_eq host localhost
    || text_eq host metadata_google_internal
    || text_eq host metadata
    || ends_with host dot_local
    || ends_with host dot_internal

abbrev pub invalid : Result Text
invalid = err (twin (make_error validation_failed))

module _ (urlsplit : Text → Option Url) (ip_address : Text → Option Address)
    (getaddrinfo : Text → Text → Option (List Address)) where
  -- The addresses that a host stands for.
  unfoldable pub addresses : Text → Text → Option (List Address)
  addresses url host = elim (ip_address host) [
    | some address ↦ some (address ∷ [])
    | none ↦ getaddrinfo url host
  ]

  unfoldable pub validate_host : Text → Text → Result Text
  validate_host url host = elim (addresses url host) [
    | none ↦ err value_error
    | some found ↦ if any is_inside found then invalid else ok url
  ]

  unfoldable pub validate_webhook_url : Text → Result Text
  validate_webhook_url url = elim (urlsplit url) [
    | none ↦ err value_error
    | some parsed ↦
        if not (text_eq (lower parsed.scheme) https) || not (is_filled (host_of parsed))
        then invalid
        else if is_blocked_host (host_of parsed)
        then invalid
        else validate_host url (host_of parsed)
  ]

  -- `new_id` is what `uuid4` draws.
  unfoldable pub subscribe : Instant → ℕ → Text → Action Db WebhookSubscription
  subscribe now new_id url = do
    checked ← λ db. (validate_webhook_url url, db)
    let subscription : WebhookSubscription = record { id = new_id; url = url; created_at = now }
    modify (Repository.add_subscription subscription)
    pure subscription

unfoldable pub subscriptions : Action Db (List WebhookSubscription)
subscriptions = gets Repository.list_subscriptions

unfoldable pub unsubscribe : ℕ → Action Db (Unit {0})
unsubscribe subscription_id db = elim (Repository.remove_subscription subscription_id db).0 [
  | none ↦ (err (twin (make_error not_found)), db)
  | some removed ↦ (ok tt, (Repository.remove_subscription subscription_id db).1)
]
