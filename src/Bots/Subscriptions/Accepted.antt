-- ===== src/Bots/Subscriptions/Accepted.antt =====
-- Which webhook URLs `subscribe` (src/twin/bots/service.py) stores.
use fakery.Prelude.{
  true, false, Option, some, List, Text, text_eq, ◌≡◌, any, All, any-eq_false, Bool-cases,
  Option-cases, inl, inr, arith,
}
use fakery.Core.Action.{ok}
use fakery.Bots.MeetingUrl.{Url, lower, https, host_of, is_filled}
use fakery.Bots.Subscriptions.{
  Address, is_inside, is_blocked_host, addresses, validate_host, validate_webhook_url,
}

module _ (urlsplit : Text → Option Url) (ip_address : Text → Option Address)
    (getaddrinfo : Text → Text → Option (List Address)) where
  -- A URL that a webhook may have: HTTPS, to a named host that is not blocked and all of whose
  -- addresses are outside.
  pub record IsPublic (url : Text) : Type 0 where
    pub parsed : Url
    pub splits : urlsplit url ≡ some parsed
    pub secure : text_eq (lower parsed.scheme) https ≡ true
    pub named : is_filled (host_of parsed) ≡ true
    pub allowed : is_blocked_host (host_of parsed) ≡ false
    pub found : List Address
    pub resolves : addresses urlsplit ip_address getaddrinfo url (host_of parsed) ≡ some found
    pub outside : All (λ a. is_inside a ≡ false) found

  validate_host_outside :
      (url host got : Text)
      → validate_host urlsplit ip_address getaddrinfo url host ≡ ok got
      → (found : List Address) × (addresses urlsplit ip_address getaddrinfo url host ≡ some found)
        × All (λ a. is_inside a ≡ false) found
  unfolding validate_host
  validate_host_outside url host got h =
      elim (Option-cases (addresses urlsplit ip_address getaddrinfo url host)) [
        | inl e ↦ absurd (ground (arith, e))
        | inr (found, e) ↦ elim (Bool-cases (any is_inside found)) [
          | inl bad ↦ absurd (ground (arith, e, bad))
          | inr good ↦ (found, e, any-eq_false is_inside found good)
        ]
      ]

  validate_split :
      (url got : Text) (parsed : Url)
      → urlsplit url ≡ some parsed
      → validate_webhook_url urlsplit ip_address getaddrinfo url ≡ ok got
      → (text_eq (lower parsed.scheme) https ≡ true)
        × (is_filled (host_of parsed) ≡ true)
        × (is_blocked_host (host_of parsed) ≡ false)
        × (validate_host urlsplit ip_address getaddrinfo url (host_of parsed) ≡ ok got)
  unfolding validate_webhook_url
  validate_split url got parsed e h = ground (arith, e)

  -- Every URL that passes is public, in the sense of the addresses that are found when it is checked.
  pub validate_webhook_url-IsPublic :
      (url got : Text)
      → validate_webhook_url urlsplit ip_address getaddrinfo url ≡ ok got
      → IsPublic url
  unfolding validate_webhook_url
  validate_webhook_url-IsPublic url got h = elim (Option-cases (urlsplit url)) [
    | inl e ↦ absurd (ground (arith, e))
    | inr (parsed, e) ↦
        let (secure, named, allowed, passed) = validate_split url got parsed e h in
        let (found, resolves, outside) = validate_host_outside url (host_of parsed) got passed in
        record {
          parsed = parsed;
          splits = e;
          secure = secure;
          named = named;
          allowed = allowed;
          found = found;
          resolves = resolves;
          outside = outside;
        }
  ]
