-- ===== src/Webhooks/Streams/Groups.antt =====
-- What `_group_by_stream` (src/twin/webhooks/dispatch.py) makes of a list: its streams.
use mathlib.Core.List.{append-nil, append_assoc}
use fakery.Prelude.{
  ℕ, ◌≡◌, ◌∙◌, refl, sym, ap, Bool, true, false, Option, none, some, List, [], ◌∷◌, ◌++◌,
  if◌then◌else◌, filter, All, Bool-cases, inl, inr, arith,
}
use fakery.Bots.Models.{WebhookDelivery}
use fakery.Webhooks.Streams.{Stream, stream_of, stream_eq, sub_eq, append_to, collect}

abbrev pub Groups : Type 0
Groups = List (Stream × List WebhookDelivery)

abbrev pub is_in : Stream → WebhookDelivery → Bool
is_in k d = stream_eq k (stream_of d)

filter-append_one :
    (k : Stream) (d : WebhookDelivery) (seen : List WebhookDelivery)
    → filter (is_in k) (seen ++ d ∷ [])
      ≡ (if is_in k d then filter (is_in k) seen ++ d ∷ [] else filter (is_in k) seen)
filter-append_one k d [] = ground arith
filter-append_one k d (x ∷ seen) = ground (arith, filter-append_one k d seen)

-- Each group is what was seen of its stream, no stream has two groups, and none is left out.
abbrev pub Lacks : Stream → Groups → Type 0
Lacks k gs = All (λ g. stream_eq g.0 k ≡ false) gs

abbrev pub Distinct : Groups → Type 0
Distinct [] = Unit
Distinct (g ∷ gs) = All (λ h. stream_eq h.0 g.0 ≡ false) gs × Distinct gs

pub record Holds (seen : List WebhookDelivery) (gs : Groups) : Type 0 where
  pub exact : All (λ g. g.1 ≡ filter (is_in g.0) seen) gs
  pub distinct : Distinct gs
  pub complete : (k : Stream) → Lacks k gs → filter (is_in k) seen ≡ []

sub_eq_trans : (a b c : Option ℕ) → sub_eq a b ≡ true → sub_eq b c ≡ sub_eq a c
sub_eq_trans none none c h = refl
sub_eq_trans none (some b) c h = cc
sub_eq_trans (some a) none c h = cc
sub_eq_trans (some a) (some b) none h = refl
sub_eq_trans (some a) (some b) (some c) h = ground arith

sub_eq_comm : (a b : Option ℕ) → sub_eq a b ≡ sub_eq b a
sub_eq_comm none none = refl
sub_eq_comm none (some b) = refl
sub_eq_comm (some a) none = refl
sub_eq_comm (some a) (some b) = ground arith

pub stream_eq_comm : (j k : Stream) → stream_eq j k ≡ stream_eq k j
stream_eq_comm (a, s) (b, t) = ground (arith, sub_eq_comm s t)

pub stream_eq_trans : (i j k : Stream) → stream_eq i j ≡ true → stream_eq j k ≡ stream_eq i k
stream_eq_trans (a, s) (b, t) (c, u) h = ground (arith, sub_eq_trans s t u)

stream_eq_refl : (k : Stream) → stream_eq k k ≡ true
stream_eq_refl (a, none) = ground arith
stream_eq_refl (a, some s) = ground arith

-- A stream that differs from one of two equal streams differs from the other.
apart : (i j k : Stream) → stream_eq j k ≡ true → stream_eq i j ≡ false → stream_eq i k ≡ false
apart i j k h n = stream_eq_comm i k ∙ stream_eq_trans j k i h ∙ stream_eq_comm j i ∙ n

unchanged :
    (d : WebhookDelivery) (seen : List WebhookDelivery) (gs : Groups)
    → Lacks (stream_of d) gs
    → All (λ g. g.1 ≡ filter (is_in g.0) seen) gs
    → All (λ g. g.1 ≡ filter (is_in g.0) (seen ++ d ∷ [])) gs
unchanged d seen [] l ex = tt
unchanged d seen ((j, g) ∷ gs) l ex =
    (ground (arith, filter-append_one j d seen), unchanged d seen gs l.1 ex.1)

all_apart :
    (j k : Stream) (gs : Groups)
    → stream_eq j k ≡ true
    → All (λ h. stream_eq h.0 j ≡ false) gs
    → Lacks k gs
all_apart j k [] h a = tt
all_apart j k (g ∷ gs) h a = (apart g.0 j k h a.0, all_apart j k gs h a.1)

append_to-exact :
    (d : WebhookDelivery) (seen : List WebhookDelivery) (gs : Groups)
    → Distinct gs
    → All (λ g. g.1 ≡ filter (is_in g.0) seen) gs
    → (Lacks (stream_of d) gs → filter (is_in (stream_of d)) seen ≡ [])
    → All (λ g. g.1 ≡ filter (is_in g.0) (seen ++ d ∷ [])) (append_to (stream_of d) d gs)
unfolding append_to
append_to-exact d seen [] di ex co =
    (sym (filter-append_one (stream_of d) d seen ∙ rw (stream_eq_refl (stream_of d), co tt)), tt)
append_to-exact d seen ((j, g) ∷ gs) di ex co = elim (Bool-cases (stream_eq j (stream_of d))) [
  | inl e ↦ rw e (
    rw (filter-append_one j d seen, e) (ap (λ l. l ++ d ∷ []) ex.0),
    unchanged d seen gs (all_apart j (stream_of d) gs e di.0) ex.1,
  )
  | inr e ↦ rw e (
    rw (filter-append_one j d seen, e) ex.0,
    append_to-exact d seen gs di.1 ex.1 (λ l. co (e, l)),
  )
]

append_to-Lacks :
    (k j : Stream) (d : WebhookDelivery) (gs : Groups)
    → stream_eq k j ≡ false
    → All (λ h. stream_eq h.0 j ≡ false) gs
    → All (λ h. stream_eq h.0 j ≡ false) (append_to k d gs)
unfolding append_to
append_to-Lacks k j d [] n a = (n, tt)
append_to-Lacks k j d ((i, g) ∷ gs) n a = elim (Bool-cases (stream_eq i k)) [
  | inl e ↦ rw e (a.0, a.1)
  | inr e ↦ rw e (a.0, append_to-Lacks k j d gs n a.1)
]

append_to-Distinct :
    (k : Stream) (d : WebhookDelivery) (gs : Groups) → Distinct gs → Distinct (append_to k d gs)
unfolding append_to
append_to-Distinct k d [] di = (tt, tt)
append_to-Distinct k d ((i, g) ∷ gs) di = elim (Bool-cases (stream_eq i k)) [
  | inl e ↦ rw e (di.0, di.1)
  | inr e ↦
      rw e (append_to-Lacks k i d gs (stream_eq_comm k i ∙ e) di.0, append_to-Distinct k d gs di.1)
]

Lacks-before :
    (k j : Stream) (d : WebhookDelivery) (gs : Groups)
    → Lacks j (append_to k d gs)
    → Lacks j gs × (stream_eq k j ≡ false)
unfolding append_to
Lacks-before k j d [] l = (tt, l.0)
Lacks-before k j d ((i, g) ∷ gs) l = elim (Bool-cases (stream_eq i k)) [
  | inl e ↦
      let l' : All (λ h. stream_eq h.0 j ≡ false) ((i, g ++ d ∷ []) ∷ gs) = rw e at l in
      ((l'.0, l'.1), stream_eq_trans i k j e ∙ l'.0)
  | inr e ↦
      let l' : All (λ h. stream_eq h.0 j ≡ false) ((i, g) ∷ append_to k d gs) = rw e at l in
      let (rest, n) = Lacks-before k j d gs l'.1 in ((l'.0, rest), n)
]

append_to-Holds :
    (d : WebhookDelivery) (seen : List WebhookDelivery) (gs : Groups)
    → Holds seen gs
    → Holds (seen ++ d ∷ []) (append_to (stream_of d) d gs)
append_to-Holds d seen gs h = record {
  exact = append_to-exact d seen gs h.distinct h.exact (h.complete (stream_of d));
  distinct = append_to-Distinct (stream_of d) d gs h.distinct;
  complete = λ k l.
      let (before, n) = Lacks-before (stream_of d) k d gs l in
      filter-append_one k d seen ∙ rw (stream_eq_comm k (stream_of d), n) (h.complete k before);
}

collect-Holds :
    (ds seen : List WebhookDelivery) (gs : Groups)
    → Holds seen gs
    → Holds (seen ++ ds) (collect ds gs)
unfolding collect
collect-Holds [] seen gs h = rw (append-nil seen) h
collect-Holds (d ∷ ds) seen gs h =
    rw (sym (append_assoc seen (d ∷ []) ds)) (
      collect-Holds ds (seen ++ d ∷ []) (append_to (stream_of d) d gs)
        (append_to-Holds d seen gs h))

-- The groups of a list are its streams, each with all of its deliveries.
pub collected : (items : List WebhookDelivery) → Holds items (collect items [])
collected items =
    collect-Holds items [] [] (record { exact = tt; distinct = tt; complete = λ k l. refl })
