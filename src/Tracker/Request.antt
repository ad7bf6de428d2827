-- ===== src/Tracker/Request.antt =====
-- What the queries of a hit are made of: the orders, the browser, and the fields of a tracker that are sent.
use demolition_app.Base.{ℕ, Bool, String, Option, List}

-- `qe`: the names and values of a query.
abbrev pub Query : Type 0
Query = List (String × String)

-- What `ge` keeps of an item.
pub record Item : Type 0 where
  pub trans_id : String
  pub sku : String
  pub name : String
  pub category : String
  pub price : String
  pub quantity : String

-- What `fe` keeps of an order.
pub record Order : Type 0 where
  pub id : String
  pub affiliation : String
  pub total : String
  pub tax : String
  pub shipping : String
  pub city : String
  pub state : String
  pub country : String
  pub items : List Item

-- What the browser tells: `Qb`, `Lb`, `Rb`, `Mb`, `Pb`, `Nb`, `Ob`.
pub record Client : Type 0 where
  pub charset : String
  pub screen : String
  pub viewport : String
  pub colors : String
  pub language : String
  pub java : String
  pub flash : String

-- `cc`, printed by `print`; `xb`; the host, the rate `vb`, random numbers and the time; `Wa`, `Oc`, `vc`,
-- `of`, `Ic`; the cookies of `ff` by their names; whether `aip` is sent; `Kc`, `Yb`; whether there are
-- several accounts; the flags; `Fc`; `ib`, `lb`, `Ib`, `Kb`, the referrer, the page as `encodeURI` writes it; `Eb` with what is
-- added to it; `Gb`; `Cb`; `Ac`, `Bc` and `Cc`; `Gc` and `Hc`.
pub record Sender : Type 0 where
  pub hits : ℕ
  pub mode : ℕ
  pub host : String
  pub rate : String
  pub random : String
  pub time : String
  pub account : String
  pub experiment : String
  pub quiet : Bool
  pub container : String
  pub dev_ids : List String
  pub cookies : List (String × String)
  pub anonymous : Bool
  pub join_id : Option String
  pub redirect : String
  pub several : Bool
  pub flags : String
  pub groups : List String
  pub tells_client : Bool
  pub client : Client
  pub tells_title : Bool
  pub title : String
  pub page_id : String
  pub referrer : String
  pub path : String
  pub extension : Option String
  pub currency : String
  pub orders : List Order
  pub network : String
  pub deed : String
  pub target : String
  pub feedback_id : String
  pub feedback_text : String
