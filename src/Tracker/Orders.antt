-- ===== src/Tracker/Orders.antt =====
-- The orders and items that a page adds to a tracker: `fe`, `ge`, `ee`.
pub mod Distinct
mod Examples
use demolition_app.Base.{Bool, true, false, if◌then◌else◌, String, str_eq, List, [], ◌∷◌, ◌++◌}
use demolition_app.Tracker.Request.{Item, Order}

-- Where an order of the id is there, it gets the other values and keeps its items; else it is added.
unfoldable pub add_order : Order → List Order → List Order
add_order o [] = record o { items = [] } ∷ []
add_order o (p ∷ ps) =
    let rest = add_order o ps in
    if str_eq p.id o.id then record o { items = p.items } ∷ ps else p ∷ rest

-- `ee`, as whether there is such an order.
unfoldable pub has_order : String → List Order → Bool
has_order id [] = false
has_order id (p ∷ ps) = let rest = has_order id ps in if str_eq p.id id then true else rest

-- The item of the same sku is replaced, or the item is added.
unfoldable pub put_item : Item → List Item → List Item
put_item i [] = i ∷ []
put_item i (j ∷ js) = let rest = put_item i js in if str_eq j.sku i.sku then i ∷ js else j ∷ rest

-- The item is put into the first order of its id.
unfoldable pub put_in : Item → List Order → List Order
unfolding put_item
put_in i [] = []
put_in i (p ∷ ps) =
    let rest = put_in i ps in
    if str_eq p.id i.trans_id then record p { items = put_item i p.items } ∷ ps else p ∷ rest

-- The order that an item makes when there is none of its id.
abbrev pub bare_order : String → Order
bare_order id = record {
  id = id;
  affiliation = "";
  total = "0";
  tax = "0";
  shipping = "0";
  city = "";
  state = "";
  country = "";
  items = [];
}

-- `ge`
unfoldable pub add_item : Item → List Order → List Order
unfolding has_order put_in add_order
add_item i os =
    put_in i (if has_order i.trans_id os then os else add_order (bare_order i.trans_id) os)

pub data Call : Type 0 where
  order : Order → Call
  item : Item → Call
  clear : Call

-- `$`, `Y`, `ea`
unfoldable pub step : Call → List Order → List Order
unfolding add_order add_item
step (order o) os = add_order o os
step (item i) os = add_item i os
step clear os = []

unfoldable pub run : List Call → List Order → List Order
unfolding step
run [] os = os
run (c ∷ cs) os = run cs (step c os)
