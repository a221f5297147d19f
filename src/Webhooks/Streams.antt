-- ===== src/Webhooks/Streams.antt =====
-- `_group_by_stream` and `_ready_deliveries` of src/twin/webhooks/dispatch.py.
pub mod Groups
pub mod Heads
use fakery.Prelude.{
  ℕ, Bool, true, false, ◌&&◌, ◌||◌, Option, none, some, List, [], ◌∷◌, ◌++◌, map, if◌then◌else◌,
  ◌==◌, ltb, leb, sort_by,
}
use fakery.Bots.Models.{WebhookDelivery, DeliveryStatus, pending, retry, Instant}

-- The run and the subscription of a delivery.
abbrev pub Stream : Type 0
Stream = ℕ × Option ℕ

abbrev pub stream_of : WebhookDelivery → Stream
stream_of d = (d.payload.bot_id, d.subscription_id)

abbrev pub sub_eq : Option ℕ → Option ℕ → Bool
sub_eq none none = true
sub_eq (some a) (some b) = a == b
sub_eq _ _ = false

abbrev pub stream_eq : Stream → Stream → Bool
stream_eq (a, s) (b, t) = a == b && sub_eq s t

-- `groups.setdefault(key, []).append(item)`, on the dictionary's items in insertion order.
unfoldable pub append_to :
    Stream
    → WebhookDelivery
    → List (Stream × List WebhookDelivery)
    → List (Stream × List WebhookDelivery)
append_to k d [] = (k, d ∷ []) ∷ []
append_to k d ((j, g) ∷ gs) =
    if stream_eq j k then (j, g ++ d ∷ []) ∷ gs else (j, g) ∷ append_to k d gs

unfoldable pub collect :
    List WebhookDelivery
    → List (Stream × List WebhookDelivery)
    → List (Stream × List WebhookDelivery)
collect [] gs = gs
collect (d ∷ ds) gs = collect ds (append_to (stream_of d) d gs)

-- `key=lambda item: (item.sequence, item.id)`
abbrev pub in_order : WebhookDelivery → WebhookDelivery → Bool
in_order a b = ltb a.sequence b.sequence || (a.sequence == b.sequence && leb a.id b.id)

abbrev pub sort_group : Stream × List WebhookDelivery → Stream × List WebhookDelivery
sort_group (k, g) = (k, sort_by in_order g)

unfoldable pub group_by_stream : List WebhookDelivery → List (Stream × List WebhookDelivery)
unfolding collect
group_by_stream items = map sort_group (collect items [])

abbrev pub may_send : DeliveryStatus → Bool
may_send pending = true
may_send retry = true
may_send _ = false

abbrev pub is_due : Instant → WebhookDelivery → Bool
is_due moment d = leb d.next_try_at moment

-- The first delivery of a group, if it may be sent now.
abbrev pub head_if_ready :
    Instant → List WebhookDelivery → List WebhookDelivery → List WebhookDelivery
head_if_ready moment [] rest = rest
head_if_ready moment (d ∷ ds) rest = if may_send d.status && is_due moment d then d ∷ rest else rest

unfoldable pub ready_of_groups :
    Instant → List (Stream × List WebhookDelivery) → List WebhookDelivery
ready_of_groups moment [] = []
ready_of_groups moment ((k, g) ∷ gs) = head_if_ready moment g (ready_of_groups moment gs)

unfoldable pub ready_deliveries : List WebhookDelivery → Instant → List WebhookDelivery
unfolding group_by_stream ready_of_groups
ready_deliveries items moment = ready_of_groups moment (group_by_stream items)
