-- ===== src/Tracker/Beacon/Numbers.antt =====
-- The requests of a hit are numbered one after the other.
use demolition_app.Base.{
  ℕ, suc, ◌+◌, ◌≡◌, refl, sym, ◌∙◌, ◌==◌, Bool, true, false, not, ◌||◌, if_cases, if_elim, subst,
  String, List, [], ◌∷◌, length, length-append, arith,
}
use demolition_app.Tracker.Visit.{HitType, page, event, var, trans, social, feedback}
use demolition_app.Tracker.Beacon.{
  count_hit, Sent, one, then_send, send_items, send_orders, plain_query, item_query, order_query,
  unless_local, requests,
}
use demolition_app.Tracker.Request.{Query, Item, Order, Sender}

module _ (print : ℕ → String) (encode trim : String → String) where
  -- As many hits were counted as there are requests, and the mode is the same.
  record IsCounted (s : Sender) (a : Sent print encode trim) : Type 0 where
    hits : a.sender.hits ≡ s.hits + length a.queries
    mode : a.sender.mode ≡ s.mode

  -- The hits of these are counted.
  abbrev pub Counts : Bool → ℕ → Type 0
  Counts local mode = local || not (mode == 2) ≡ true

  count_hit-hits :
      (local : Bool) (s : Sender) → Counts local s.mode → (count_hit local s).hits ≡ suc s.hits
  unfolding count_hit
  count_hit-hits local s h =
      if_cases (λ (t : Sender). t.hits ≡ suc s.hits) (local || not (s.mode == 2)) _ _ (λ _. refl)
        (λ e. absurd (ground (arith, h, e)))

  count_hit-mode : (local : Bool) (s : Sender) → (count_hit local s).mode ≡ s.mode
  unfolding count_hit
  count_hit-mode local s =
      if_elim (λ (t : Sender). t.mode ≡ s.mode) (local || not (s.mode == 2)) _ _ refl refl

  one-IsCounted :
      (local : Bool) (query : Sender → Query) (s : Sender)
      → Counts local s.mode
      → IsCounted s (one print encode trim local query s)
  unfolding one
  one-IsCounted local query s h = record {
    hits = omega (arith, count_hit-hits local s h);
    mode = count_hit-mode local s;
  }

  then_send-IsCounted :
      (s : Sender) (a b : Sent print encode trim)
      → IsCounted s a
      → IsCounted a.sender b
      → IsCounted s (then_send print encode trim a b)
  unfolding then_send
  then_send-IsCounted s a b h k = record {
    hits = omega (arith, h.hits, k.hits, length-append a.queries b.queries);
    mode = k.mode ∙ h.mode;
  }

  Counts-after :
      (local : Bool) (s : Sender) (a : Sent print encode trim)
      → IsCounted s a
      → Counts local s.mode
      → Counts local a.sender.mode
  Counts-after local s a k h = subst (Counts local) (sym k.mode) h

  send_items-IsCounted :
      (is : List Item) (local : Bool) (s : Sender)
      → Counts local s.mode
      → IsCounted s (send_items print encode trim local is s)
  unfolding send_items
  send_items-IsCounted [] local s h = record { hits = omega arith; mode = refl }
  send_items-IsCounted (i ∷ is) local s h =
      let a = one print encode trim local (item_query print encode trim local i) s in
      let k = one-IsCounted local (item_query print encode trim local i) s h in
      then_send-IsCounted s a (send_items print encode trim local is a.sender) k
        (send_items-IsCounted is local a.sender (Counts-after local s a k h))

  send_orders-IsCounted :
      (os : List Order) (local : Bool) (s : Sender)
      → Counts local s.mode
      → IsCounted s (send_orders print encode trim local os s)
  unfolding send_orders
  send_orders-IsCounted [] local s h = record { hits = omega arith; mode = refl }
  send_orders-IsCounted (o ∷ os) local s h =
      let a = one print encode trim local (order_query print encode trim local o) s in
      let k = one-IsCounted local (order_query print encode trim local o) s h in
      let b = send_items print encode trim local o.items a.sender in
      let ha = Counts-after local s a k h in
      let m = send_items-IsCounted o.items local a.sender ha in
      then_send-IsCounted s a _ k (
        then_send-IsCounted a.sender b (send_orders print encode trim local os b.sender) m
          (send_orders-IsCounted os local b.sender (Counts-after local a.sender b m ha)))

  unless_local-IsCounted :
      (local : Bool) (a : Sent print encode trim) (s : Sender)
      → IsCounted s a
      → IsCounted s (unless_local print encode trim local a s)
  unfolding unless_local
  unless_local-IsCounted true a s k = record { hits = omega arith; mode = refl }
  unless_local-IsCounted false a s k = k

  requests-IsCounted :
      (type : HitType) (local : Bool) (s : Sender)
      → Counts local s.mode
      → IsCounted s (requests print encode trim local type s)
  unfolding requests
  requests-IsCounted trans local s h = send_orders-IsCounted s.orders local s h
  requests-IsCounted social local s h =
      unless_local-IsCounted local _ s
        (one-IsCounted local (plain_query print encode trim social local) s h)
  requests-IsCounted feedback local s h =
      unless_local-IsCounted local _ s
        (one-IsCounted local (plain_query print encode trim feedback local) s h)
  requests-IsCounted page local s h =
      one-IsCounted local (plain_query print encode trim page local) s h
  requests-IsCounted event local s h =
      one-IsCounted local (plain_query print encode trim event local) s h
  requests-IsCounted var local s h =
      one-IsCounted local (plain_query print encode trim var local) s h

  -- Where the hits of a request are counted, a hit of any type counts as many as it sends requests,
  -- also where these are of several orders and their items.
  pub requests-hits :
      (type : HitType) (local : Bool) (s : Sender)
      → Counts local s.mode
      → (requests print encode trim local type s).sender.hits
        ≡ s.hits + length (requests print encode trim local type s).queries
  requests-hits type local s h = (requests-IsCounted type local s h).hits
