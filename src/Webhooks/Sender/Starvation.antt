-- ===== src/Webhooks/Sender/Starvation.antt =====
-- Dead deliveries in the batch of `run_once` (src/twin/webhooks/dispatch.py): the query takes them up to
-- its limit, and only then are they left out.
use fakery.Prelude.{
  some, ◌≤◌, ◌≡◌, ◌∙◌, refl, ap, true, false, List, [], ◌∷◌, map, filter, take, sort_by, All,
  length, length-sort_by, arith, filter-All, sort_by-All, take-All, sort_by-split, is_earlier,
  take-append_long,
}
use fakery.Bots.Models.{WebhookDelivery, Instant, Db}
use fakery.Bots.Queue.Leases.{Redis}
use fakery.Webhooks.Streams.{
  in_order, collect, sort_group, may_send, head_if_ready, ready_of_groups, ready_deliveries,
  group_by_stream,
}
use fakery.Webhooks.Streams.Groups.{Groups, is_in, collected}
use fakery.Webhooks.Sender.{select_order, is_selected, select_pending, send_batch, purge}
use fakery.Webhooks.Sender.Rounds.{Answer, zeros, send_streams, run_once}

-- A delivery that is not to be sent again.
abbrev pub Silent : WebhookDelivery → Type 0
Silent d = may_send d.status ≡ false

Silent-head :
    (g rest : List WebhookDelivery) (moment : Instant)
    → All Silent g
    → head_if_ready moment g rest ≡ rest
Silent-head [] rest moment h = refl
Silent-head (d ∷ ds) rest moment h = ground (arith, h.0)

-- Where no delivery may be sent, none is ready.
Silent-groups :
    (gs : Groups) (moment : Instant)
    → All (λ g. All Silent g.1) gs
    → ready_of_groups moment (map sort_group gs) ≡ []
unfolding ready_of_groups
Silent-groups [] moment h = refl
Silent-groups ((k, g) ∷ gs) moment h =
    Silent-head (sort_by in_order g) _ moment (sort_by-All in_order Silent g h.0)
    ∙ Silent-groups gs moment h.1

exact-Silent :
    (items : List WebhookDelivery) (gs : Groups)
    → All Silent items
    → All (λ g. g.1 ≡ filter (is_in g.0) items) gs
    → All (λ g. All Silent g.1) gs
exact-Silent items [] h ex = tt
exact-Silent items ((k, g) ∷ gs) h ex =
    (rw ex.0 (filter-All Silent (is_in k) items h), exact-Silent items gs h ex.1)

Silent-deliveries :
    (items : List WebhookDelivery) (moment : Instant)
    → All Silent items
    → ready_deliveries items moment ≡ []
unfolding ready_deliveries group_by_stream
Silent-deliveries items moment h =
    Silent-groups (collect items []) moment (exact-Silent items _ h (collected items).exact)

select_order_total : (a b : WebhookDelivery) → select_order a b ≡ false → select_order b a ≡ true
select_order_total a b h = ground arith

select_order_trans :
    (a b c : WebhookDelivery)
    → select_order a b ≡ true
    → select_order b c ≡ true
    → select_order a c ≡ true
select_order_trans a b c h k = ground arith

-- The rows of the query that stand before a delivery.
abbrev pub standing_before : WebhookDelivery → Db → List WebhookDelivery
standing_before w db =
    filter (is_earlier select_order w) (filter (λ d. is_selected d.status) db.deliveries)

module _ (moment : Instant) (w : WebhookDelivery) (db : Db)
    (silent : All Silent (standing_before w db))
    (full : send_batch ≤ length (standing_before w db)) where
  batch_before :
      take send_batch (sort_by select_order (filter (λ d. is_selected d.status) db.deliveries))
      ≡ take send_batch (sort_by select_order (standing_before w db))
  batch_before =
      ap (take send_batch) (
        sort_by-split select_order select_order_total select_order_trans w
          (filter (λ d. is_selected d.status) db.deliveries))
      ∙ take-append_long send_batch (sort_by select_order (standing_before w db)) _
          (rw (length-sort_by select_order (standing_before w db)) full)

  none_ready : select_pending moment db ≡ []
  unfolding select_pending
  none_ready =
      ap (λ l. ready_deliveries l moment) batch_before
      ∙ Silent-deliveries _ moment
          (take-All Silent send_batch _ (sort_by-All select_order Silent _ silent))

  -- If a batch of rows that are dead stands before a delivery, and no row before it may be sent, then a
  -- round sends nothing at all, whatever is due: it only purges.
  pub starved :
      (r : Redis) (meanwhile : r.State → r.State) (answers : WebhookDelivery → Answer) (s : r.State)
      → run_once r meanwhile answers moment db s
        ≡ (some (record zeros { purged = (purge moment db).0 }), (purge moment db).1, s)
  unfolding run_once send_streams group_by_stream collect
  starved r meanwhile answers s = rw none_ready refl
