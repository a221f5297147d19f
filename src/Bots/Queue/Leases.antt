-- ===== src/Bots/Queue/Leases.antt =====
-- The keys of src/twin/bots/queue.py in Redis: cancel requests, leases and heartbeats. Redis is a
-- parameter, with what its documentation says of `SET`, `SET NX`, `GET`, `DEL` and of a key whose time
-- runs out; the seconds that a key is kept are only passed on.
use fakery.Prelude.{
  ℕ, ◌&&◌, ◌≡◌, refl, Bool, true, false, Option, none, some, is_some, if◌then◌else◌, ◌==◌, arith,
}

-- A key, by the format that makes it: `CANCEL_KEY`, `heartbeat_key`, `lease_key` and `_send_lease`
-- (src/twin/webhooks/dispatch.py).
pub data Key : Type 0 where
  cancel_key heartbeat_key : ℕ → Key
  lease_key : (tenant platform tier : ℕ) → Key
  send_lease : ℕ → Option ℕ → Key

abbrev pub sub_eq : Option ℕ → Option ℕ → Bool
sub_eq none none = true
sub_eq (some a) (some b) = a == b
sub_eq _ _ = false

abbrev pub key_eq : Key → Key → Bool
key_eq (cancel_key a) (cancel_key b) = a == b
key_eq (heartbeat_key a) (heartbeat_key b) = a == b
key_eq (lease_key a p t) (lease_key b q u) = a == b && p == q && t == u
key_eq (send_lease a x) (send_lease b y) = a == b && sub_eq x y
key_eq _ _ = false

sub_eq→≡ : (x y : Option ℕ) → sub_eq x y ≡ true → x ≡ y
sub_eq→≡ none none h = refl
sub_eq→≡ none (some b) h = absurd (cc h)
sub_eq→≡ (some a) none h = absurd (cc h)
sub_eq→≡ (some a) (some b) h = ground arith

pub key_eq→≡ : (j k : Key) → key_eq j k ≡ true → j ≡ k
key_eq→≡ (cancel_key a) (cancel_key b) h = ground arith
key_eq→≡ (heartbeat_key a) (heartbeat_key b) h = ground arith
key_eq→≡ (lease_key a p t) (lease_key b q u) h = ground arith
key_eq→≡ (send_lease a x) (send_lease b y) h = ground (arith, sub_eq→≡ x y)
key_eq→≡ (cancel_key a) (heartbeat_key b) h = absurd (cc h)
key_eq→≡ (cancel_key a) (lease_key b q u) h = absurd (cc h)
key_eq→≡ (cancel_key a) (send_lease b y) h = absurd (cc h)
key_eq→≡ (heartbeat_key a) (cancel_key b) h = absurd (cc h)
key_eq→≡ (heartbeat_key a) (lease_key b q u) h = absurd (cc h)
key_eq→≡ (heartbeat_key a) (send_lease b y) h = absurd (cc h)
key_eq→≡ (lease_key a p t) (cancel_key b) h = absurd (cc h)
key_eq→≡ (lease_key a p t) (heartbeat_key b) h = absurd (cc h)
key_eq→≡ (lease_key a p t) (send_lease b y) h = absurd (cc h)
key_eq→≡ (send_lease a x) (cancel_key b) h = absurd (cc h)
key_eq→≡ (send_lease a x) (heartbeat_key b) h = absurd (cc h)
key_eq→≡ (send_lease a x) (lease_key b q u) h = absurd (cc h)

-- The server: its states and its commands on a key. `set_nx` says whether it wrote.
pub record Redis : Type 1 where
  pub State : Type 0
  pub set : Key → ℕ → ℕ → State → State
  pub set_nx : Key → ℕ → ℕ → State → Bool × State
  pub read : Key → State → Option ℕ
  pub delete : Key → State → State
  pub expire : Key → State → State

-- What the commands do to the key that they name, and that they do nothing to another.
pub record Laws (r : Redis) : Type 0 where
  pub read-set : (k : Key) (v ttl : ℕ) (s : r.State) → r.read k (r.set k v ttl s) ≡ some v
  pub set_nx_free :
      (k : Key) (v ttl : ℕ) (s : r.State)
      → r.read k s ≡ none
      → ((r.set_nx k v ttl s).0 ≡ true) × (r.read k (r.set_nx k v ttl s).1 ≡ some v)
  pub set_nx_taken :
      (k : Key) (v w ttl : ℕ) (s : r.State) → r.read k s ≡ some w → r.set_nx k v ttl s ≡ (false, s)
  pub read-delete : (k : Key) (s : r.State) → r.read k (r.delete k s) ≡ none
  pub read-expire : (k : Key) (s : r.State) → r.read k (r.expire k s) ≡ none
  pub elsewhere :
      (j k : Key) (v ttl : ℕ) (s : r.State)
      → key_eq j k ≡ false
      → (r.read j (r.set k v ttl s) ≡ r.read j s)
        × (r.read j (r.set_nx k v ttl s).1 ≡ r.read j s)
        × (r.read j (r.delete k s) ≡ r.read j s)
        × (r.read j (r.expire k s) ≡ r.read j s)

module _ (r : Redis) where
  abbrev pub cancel_ttl_s : ℕ
  cancel_ttl_s = 3_600

  abbrev pub heartbeat_ttl_s : ℕ
  heartbeat_ttl_s = 90

  -- The value "1" of a flag.
  unfoldable pub request_cancel : ℕ → r.State → r.State
  request_cancel bot_id s = r.set (cancel_key bot_id) 1 cancel_ttl_s s

  unfoldable pub is_cancelled : ℕ → r.State → Bool
  is_cancelled bot_id s = is_some (r.read (cancel_key bot_id) s)

  unfoldable pub acquire_lease : Key → ℕ → ℕ → r.State → Bool × r.State
  acquire_lease name owner ttl_s s = r.set_nx name owner ttl_s s

  -- The two commands of `release_lease`: another client's command may come between them.
  abbrev pub is_owner : Option ℕ → ℕ → Bool
  is_owner none owner = false
  is_owner (some holder) owner = holder == owner

  unfoldable pub release_after : Key → Bool → r.State → r.State
  release_after name mine s = if mine then r.delete name s else s

  -- `meanwhile` is what the other clients, and the time, do to the server between the two.
  unfoldable pub release_lease : (r.State → r.State) → Key → ℕ → r.State → r.State
  release_lease meanwhile name owner s =
      release_after name (is_owner (r.read name s) owner) (meanwhile s)

  unfoldable pub beat : ℕ → r.State → r.State
  beat bot_id s = r.set (heartbeat_key bot_id) 1 heartbeat_ttl_s s

  unfoldable pub clear_beat : ℕ → r.State → r.State
  clear_beat bot_id s = r.delete (heartbeat_key bot_id) s

  module _ (laws : Laws r) where
    -- A lease that runs out between the two commands of its owner's release is lost by the next holder:
    -- the delete takes the lease away that someone else has acquired in between.
    pub release_race :
        (name : Key) (owner other ttl : ℕ) (s : r.State)
        → r.read name s ≡ some owner
        → let taken : r.State → r.State = λ t. (acquire_lease name other ttl (r.expire name t)).1 in
          ((acquire_lease name other ttl (r.expire name s)).0 ≡ true)
          × (r.read name (taken s) ≡ some other)
          × (r.read name (release_lease taken name owner s) ≡ none)
    unfolding acquire_lease release_lease release_after
    release_race name owner other ttl s e =
        let (granted, theirs) =
          laws.set_nx_free name other ttl (r.expire name s) (laws.read-expire name s) in
        let yes : (owner == owner) ≡ true = ground arith in
        (granted, theirs, rw e (rw yes (laws.read-delete name _)))

    -- A cancel request is seen from then on, and changes no other key.
    pub request_cancel-is_cancelled :
        (bot_id : ℕ) (s : r.State)
        → (is_cancelled bot_id (request_cancel bot_id s) ≡ true)
          × ((j : Key)
              → key_eq j (cancel_key bot_id) ≡ false
              → r.read j (request_cancel bot_id s) ≡ r.read j s)
    unfolding is_cancelled request_cancel
    request_cancel-is_cancelled bot_id s = (
      rw (laws.read-set (cancel_key bot_id) 1 cancel_ttl_s s) refl,
      λ j other. (laws.elsewhere j (cancel_key bot_id) 1 cancel_ttl_s s other).0,
    )
