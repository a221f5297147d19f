-- ===== src/Webhooks/Streams/Heads.antt =====
-- What `_ready_deliveries` (src/twin/webhooks/dispatch.py) lets through: heads of streams.
use fakery.Prelude.{
  ◌≡◌, ◌∙◌, refl, sym, Bool, true, false, ◌&&◌, List, [], ◌∷◌, map, filter, sort_by, insert_by, All,
  Bool-cases, inl, inr, arith, filter-passes, sort_by-All, All-map,
}
use fakery.Bots.Models.{WebhookDelivery, Instant}
use fakery.Webhooks.Streams.{
  Stream, stream_of, collect, in_order, sort_group, group_by_stream, may_send, is_due,
  head_if_ready, ready_of_groups, ready_deliveries,
}
use fakery.Webhooks.Streams.Groups.{Groups, is_in, collected, stream_eq_trans}

in_order_refl : (d : WebhookDelivery) → in_order d d ≡ true
in_order_refl d = ground arith

in_order_trans :
    (a b c : WebhookDelivery) → in_order a b ≡ true → in_order b c ≡ true → in_order a c ≡ true
in_order_trans a b c h k = ground arith

in_order_total : (a b : WebhookDelivery) → in_order a b ≡ false → in_order b a ≡ true
in_order_total a b h = ground arith

module _ {κ} (P : WebhookDelivery → Type κ) where
  filter-back :
      (p : WebhookDelivery → Bool) (xs : List WebhookDelivery)
      → All P (filter p xs)
      → All (λ x. p x ≡ true → P x) xs
  filter-back p [] h = tt
  filter-back p (x ∷ xs) h = elim (Bool-cases (p x)) [
    | inl e ↦ let h' : All P (x ∷ filter p xs) = rw e at h in (λ _. h'.0, filter-back p xs h'.1)
    | inr e ↦
        let h' : All P (filter p xs) = rw e at h in
        (λ t. absurd (ground arith), filter-back p xs h')
  ]

-- `d` comes before all of a list.
abbrev Before : WebhookDelivery → List WebhookDelivery → Type 0
Before d xs = All (λ e. in_order d e ≡ true) xs

-- The first of a sorted list comes before all of the list.
abbrev HeadFirst : List WebhookDelivery → List WebhookDelivery → Type 0
HeadFirst [] xs = xs ≡ []
HeadFirst (d ∷ ds) xs = Before d xs

insert_by-HeadFirst :
    (a : WebhookDelivery) (sorted xs : List WebhookDelivery)
    → HeadFirst sorted xs
    → HeadFirst (insert_by in_order a sorted) (a ∷ xs)
unfolding insert_by
insert_by-HeadFirst a [] xs h = (in_order_refl a, rw h tt)
insert_by-HeadFirst a (y ∷ ys) xs h = elim (Bool-cases (in_order a y)) [
  | inl e ↦ rw e (in_order_refl a, All-map xs (λ x k. in_order_trans a y x e k) h)
  | inr e ↦ rw e (in_order_total a y e, h)
]

sort_by-HeadFirst : (xs : List WebhookDelivery) → HeadFirst (sort_by in_order xs) xs
unfolding sort_by
sort_by-HeadFirst [] = refl
sort_by-HeadFirst (x ∷ xs) = insert_by-HeadFirst x (sort_by in_order xs) xs (sort_by-HeadFirst xs)

module _ (items : List WebhookDelivery) (moment : Instant) where
  -- A delivery that may go now: it is pending or to be retried, it is due, and every other delivery
  -- of its stream comes after it.
  pub record IsReady (d : WebhookDelivery) : Type 0 where
    pub sendable : may_send d.status ≡ true
    pub due : is_due moment d ≡ true
    pub first : All (λ e. is_in (stream_of d) e ≡ true → in_order d e ≡ true) items

  head-IsReady :
      (k : Stream) (sorted g : List WebhookDelivery) (rest : List WebhookDelivery)
      → g ≡ filter (is_in k) items
      → HeadFirst sorted g
      → All (λ d. is_in k d ≡ true) sorted
      → All IsReady rest
      → All IsReady (head_if_ready moment sorted rest)
  head-IsReady k [] g rest e h own all = all
  head-IsReady k (d ∷ ds) g rest e h own all =
      elim (Bool-cases (may_send d.status && is_due moment d)) [
        | inl now ↦ rw now (
          record {
            sendable = ground arith;
            due = ground arith;
            first =
                All-map items
                  (λ x f t. f (sym (stream_eq_trans k (stream_of d) (stream_of x) own.0) ∙ t))
                  (filter-back (λ x. in_order d x ≡ true) (is_in k) items (rw e at h));
          },
          all,
        )
        | inr later ↦ rw later all
      ]

  ready_of_groups-IsReady :
      (gs : Groups)
      → All (λ g. g.1 ≡ filter (is_in g.0) items) gs
      → All IsReady (ready_of_groups moment (map sort_group gs))
  unfolding ready_of_groups
  ready_of_groups-IsReady [] ex = tt
  ready_of_groups-IsReady ((k, g) ∷ gs) ex =
      head-IsReady k (sort_by in_order g) g _ ex.0 (sort_by-HeadFirst g)
        (sort_by-All in_order (λ d. is_in k d ≡ true) g (rw ex.0 (filter-passes (is_in k) items)))
        (ready_of_groups-IsReady gs ex.1)

  -- All that `_ready_deliveries` returns may go now: a delivery never overtakes an earlier one of its
  -- stream, and a dead one holds its stream up.
  pub ready_deliveries-IsReady : All IsReady (ready_deliveries items moment)
  unfolding ready_deliveries group_by_stream
  ready_deliveries-IsReady = ready_of_groups-IsReady (collect items []) (collected items).exact
