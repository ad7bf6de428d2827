-- ===== src/Tracker/Orders/Distinct.antt =====
-- No two orders have an id, and no two items of an order a sku.
use demolition_app.Base.{
  ◌≡◌, subst, false, if_cases, if_elim, String, str_eq, eq_iff, List, [], ◌∷◌, All, arith,
}
use demolition_app.Tracker.Orders.{
  add_order, has_order, put_item, put_in, bare_order, add_item, Call, order, item, clear, step, run,
}
use demolition_app.Tracker.Request.{Item, Order}

abbrev IsOther : String → Item → Type 0
IsOther sku j = str_eq j.sku sku ≡ false

-- The items have different skus.
unfoldable pub DistinctItems : List Item → Type 0
DistinctItems [] = Unit
DistinctItems (i ∷ is) = All (IsOther i.sku) is × DistinctItems is

abbrev IsElse : String → Order → Type 0
IsElse id p = str_eq p.id id ≡ false

-- The orders have different ids, and each different items.
unfoldable pub DistinctOrders : List Order → Type 0
unfolding DistinctItems
DistinctOrders [] = Unit
DistinctOrders (o ∷ os) = All (IsElse o.id) os × DistinctItems o.items × DistinctOrders os

put_item-IsOther :
    (i : Item) (sku : String) (js : List Item)
    → str_eq i.sku sku ≡ false
    → All (IsOther sku) js
    → All (IsOther sku) (put_item i js)
unfolding put_item
put_item-IsOther i sku [] e h = (e, tt)
put_item-IsOther i sku (j ∷ js) e (a, h) =
    if_elim (All (IsOther sku)) (str_eq j.sku i.sku) _ _ (e, h) (a, put_item-IsOther i sku js e h)

str_eq-false : (s t : String) → str_eq s t ≡ false → str_eq t s ≡ false
str_eq-false s t e = ground (arith, e, eq_iff s t, eq_iff t s)

put_item-DistinctItems :
    (i : Item) (js : List Item) → DistinctItems js → DistinctItems (put_item i js)
unfolding put_item DistinctItems
put_item-DistinctItems i [] h = (tt, tt)
put_item-DistinctItems i (j ∷ js) (a, h) =
    if_cases DistinctItems (str_eq j.sku i.sku) (i ∷ js) (j ∷ put_item i js)
      (λ e. (subst (λ s. All (IsOther s) js) ((eq_iff j.sku i.sku).0 e) a, h))
      (λ e.
        (put_item-IsOther i j.sku js (str_eq-false j.sku i.sku e) a, put_item-DistinctItems i js h))

add_order-IsElse :
    (o : Order) (id : String) (ps : List Order)
    → str_eq o.id id ≡ false
    → All (IsElse id) ps
    → All (IsElse id) (add_order o ps)
unfolding add_order
add_order-IsElse o id [] e h = (e, tt)
add_order-IsElse o id (p ∷ ps) e (a, h) =
    if_elim (All (IsElse id)) (str_eq p.id o.id) _ _ (e, h) (a, add_order-IsElse o id ps e h)

add_order-DistinctOrders :
    (o : Order) (ps : List Order) → DistinctOrders ps → DistinctOrders (add_order o ps)
unfolding add_order DistinctOrders DistinctItems
add_order-DistinctOrders o [] h = (tt, tt, tt)
add_order-DistinctOrders o (p ∷ ps) (a, d, h) =
    if_cases DistinctOrders (str_eq p.id o.id) (record o { items = p.items } ∷ ps)
      (p ∷ add_order o ps) (λ e. (subst (λ s. All (IsElse s) ps) ((eq_iff p.id o.id).0 e) a, d, h))
      (λ e. (
        add_order-IsElse o p.id ps (str_eq-false p.id o.id e) a,
        d,
        add_order-DistinctOrders o ps h,
      ))

put_in-IsElse :
    (i : Item) (id : String) (ps : List Order) → All (IsElse id) ps → All (IsElse id) (put_in i ps)
unfolding put_in
put_in-IsElse i id [] h = tt
put_in-IsElse i id (p ∷ ps) (a, h) =
    if_elim (All (IsElse id)) (str_eq p.id i.trans_id) _ _ (a, h) (a, put_in-IsElse i id ps h)

put_in-DistinctOrders :
    (i : Item) (ps : List Order) → DistinctOrders ps → DistinctOrders (put_in i ps)
unfolding put_in DistinctOrders
put_in-DistinctOrders i [] h = tt
put_in-DistinctOrders i (p ∷ ps) (a, d, h) =
    if_elim DistinctOrders (str_eq p.id i.trans_id) (record p { items = put_item i p.items } ∷ ps)
      (p ∷ put_in i ps) (a, put_item-DistinctItems i p.items d, h)
      (put_in-IsElse i p.id ps a, d, put_in-DistinctOrders i ps h)

step-DistinctOrders : (c : Call) (os : List Order) → DistinctOrders os → DistinctOrders (step c os)
unfolding step add_item DistinctOrders
step-DistinctOrders (order o) os h = add_order-DistinctOrders o os h
step-DistinctOrders (item i) os h = put_in-DistinctOrders i _ (
    if_elim DistinctOrders (has_order i.trans_id os) os (add_order (bare_order i.trans_id) os) h
      (add_order-DistinctOrders (bare_order i.trans_id) os h))
step-DistinctOrders clear os h = tt

-- If it was so before, then whatever orders and items are added and cleared, no two orders have the same
-- id, and no two items of an order the same sku.
pub run-DistinctOrders :
    (cs : List Call) (os : List Order) → DistinctOrders os → DistinctOrders (run cs os)
unfolding run
run-DistinctOrders [] os h = h
run-DistinctOrders (c ∷ cs) os h = run-DistinctOrders cs (step c os) (step-DistinctOrders c os h)
