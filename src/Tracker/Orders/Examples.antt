-- ===== src/Tracker/Orders/Examples.antt =====
-- Items that make their order, and an item that is added again.
use demolition_app.Base.{List, [], ◌∷◌}
use demolition_app.Tracker.Orders.{Call, order, item, clear, run, bare_order}
use demolition_app.Tracker.Orders.Distinct.{DistinctOrders, run-DistinctOrders}
use demolition_app.Tracker.Request.{Item}

abbrev cap : Item
cap = record {
  trans_id = "7";
  sku = "c1";
  name = "cap";
  category = "";
  price = "5";
  quantity = "1";
}

abbrev calls : List Call
calls =
    clear
    ∷ item cap
    ∷ order (bare_order "7")
    ∷ item (record cap { quantity = "2" })
    ∷ item (record cap { sku = "c2" })
    ∷ order (bare_order "8")
    ∷ []

run-DistinctOrders_example : DistinctOrders (run calls [])
unfolding DistinctOrders
run-DistinctOrders_example = run-DistinctOrders calls [] tt
