-- ===== src/Tracker/Beacon.antt =====
-- The requests that a hit is sent as: `Ae` and what it adds to a query. The values that are kept as texts
-- are printed already; the script's encoding of a text is a parameter.
pub mod Numbers
mod Examples
use Prim.Native.String.{◌++◌ as str_append}
use demolition_app.Base.{
  ℕ, suc, ◌==◌, Bool, true, false, not, ◌&&◌, ◌||◌, if◌then◌else◌, String, str_eq, Option, none,
  some, List, [], ◌∷◌, ◌++◌,
}
use demolition_app.Tracker.Visit.{HitType, page, event, var, trans, social, feedback}
use demolition_app.Tracker.Request.{Query, Item, Order, Sender}

pub join : String → List String → String
join sep [] = ""
join sep (s ∷ []) = s
join sep (s ∷ t ∷ ts) = str_append s (str_append sep (join sep (t ∷ ts)))

-- `F`, for a text.
pub is_unset : String → Bool
is_unset s = str_eq s "" || str_eq s "-"

pub given : String → String → Query
given name value = if str_eq value "" then [] else (name, value) ∷ []

pub mark : String → Bool → Query
mark name b = if b then (name, "1") ∷ [] else []

-- `re`
pub count_hit : Bool → Sender → Sender
count_hit local s = if local || not (s.mode == 2) then record s { hits = suc s.hits } else s

-- The cookies that have a value, as `ff` writes them.
pub cookie_texts : List (String × String) → List String
cookie_texts [] = []
cookie_texts ((name, value) ∷ cs) =
    let rest = cookie_texts cs in
    if str_eq value "" then rest else str_append name (str_append "=" (str_append value ";")) ∷ rest

pub joined : String → String → List String → Query
unfolding join
joined name sep [] = []
joined name sep (s ∷ ss) = (name, join sep (s ∷ ss)) ∷ []

module _ (print : ℕ → String) (encode trim : String → String) where
  pub given_encoded : String → String → Query
  given_encoded name value = if str_eq value "" then [] else (name, encode value) ∷ []

  -- `se`
  pub version : Sender → Query
  unfolding is_unset
  version s =
      ("utmwv", "5.7.2")
        ∷ ("utms", print s.hits)
        ∷ ("utmn", s.random)
        ∷ (if is_unset s.host then [] else ("utmhn", encode s.host) ∷ [])
      ++ (if str_eq s.rate "100" then [] else ("utmsp", encode s.rate) ∷ [])

  -- `ff`
  pub cookies : Sender → Query
  unfolding join cookie_texts
  cookies s = ("utmcc", encode (join "+" (cookie_texts s.cookies))) ∷ []

  pub join_id : Option String → Query
  join_id none = []
  join_id (some id) = ("utmjid", encode id) ∷ []

  -- `te`
  pub tracking : Sender → Query
  unfolding given_encoded mark joined cookies join_id
  tracking s =
      ("utmht", s.time) ∷ ("utmac", trim s.account) ∷ given_encoded "utmxkey" s.experiment
      ++ mark "utmni" s.quiet
      ++ given_encoded "utmgtm" s.container
      ++ joined "utmdid" "." s.dev_ids
      ++ cookies s
      ++ mark "aip" s.anonymous
      ++ join_id s.join_id
      ++ (if str_eq s.redirect "0" then [] else ("utmredir", s.redirect) ∷ [])
      ++ mark "utmmt" s.several
      ++ ("utmu", s.flags) ∷ []

  -- `ue`
  pub groups : Sender → Query
  unfolding joined
  groups s = joined "utmpg" "," s.groups

  -- `ve`
  pub client : Sender → Query
  unfolding given
  client s =
      if s.tells_client
      then ("utmcs", encode s.client.charset)
          ∷ ("utmsr", s.client.screen)
          ∷ given "utmvp" s.client.viewport
        ++ ("utmsc", s.client.colors)
          ∷ ("utmul", s.client.language)
          ∷ ("utmje", s.client.java)
          ∷ ("utmfl", encode s.client.flash)
          ∷ []
      else []

  -- `we`
  pub document : Sender → Query
  document s =
      (if s.tells_title && not (str_eq s.title "") then ("utmdt", encode s.title) ∷ [] else [])
      ++ ("utmhid", s.page_id) ∷ ("utmr", encode s.referrer) ∷ ("utmp", encode s.path) ∷ []

  -- `xe`, with the text that the extension data is written as.
  pub extension : Option String → Query
  extension none = []
  extension (some x) = ("utme", encode x) ∷ []

  -- What all but the hits of a variable end with; only some of it where the request is local.
  pub ending : Bool → Sender → Query
  unfolding extension client document groups tracking
  ending local s =
      extension s.extension
      ++ client s
      ++ document s
      ++ (if local then [] else groups s ++ tracking s)

  -- What `ye` and `ze` end with, with the currency.
  pub ending_priced : Bool → Sender → Query
  unfolding extension client document groups tracking given_encoded
  ending_priced local s =
      extension s.extension
      ++ client s
      ++ document s
      ++ given_encoded "utmcu" s.currency
      ++ (if local then [] else groups s ++ tracking s)

  -- `ye`
  pub order_query : Bool → Order → Sender → Query
  unfolding version ending_priced
  order_query local o s =
      version s
      ++ ("utmt", "tran")
        ∷ ("utmtid", encode o.id)
        ∷ ("utmtst", encode o.affiliation)
        ∷ ("utmtto", encode o.total)
        ∷ ("utmttx", encode o.tax)
        ∷ ("utmtsp", encode o.shipping)
        ∷ ("utmtci", encode o.city)
        ∷ ("utmtrg", encode o.state)
        ∷ ("utmtco", encode o.country)
        ∷ ending_priced local s

  -- `ze`
  pub item_query : Bool → Item → Sender → Query
  unfolding version ending_priced
  item_query local i s =
      version s
      ++ ("utmt", "item")
        ∷ ("utmtid", encode i.trans_id)
        ∷ ("utmipc", encode i.sku)
        ∷ ("utmipn", encode i.name)
        ∷ ("utmiva", encode i.category)
        ∷ ("utmipr", encode i.price)
        ∷ ("utmiqt", encode i.quantity)
        ∷ ending_priced local s

  -- The queries of a hit and the sender after them.
  pub record Sent : Type 0 where
    pub queries : List Query
    pub sender : Sender

  pub one : Bool → (Sender → Query) → Sender → Sent
  unfolding count_hit
  one local query s = record {
    queries = query (count_hit local s) ∷ [];
    sender = count_hit local s;
  }

  pub then_send : Sent → Sent → Sent
  then_send a b = record { queries = a.queries ++ b.queries; sender = b.sender }

  pub send_items : Bool → List Item → Sender → Sent
  unfolding one item_query then_send
  send_items local [] s = record { queries = []; sender = s }
  send_items local (i ∷ is) s =
      let a = one local (item_query local i) s in then_send a (send_items local is a.sender)

  -- The orders, each with its items.
  pub send_orders : Bool → List Order → Sender → Sent
  unfolding one order_query then_send send_items
  send_orders local [] s = record { queries = []; sender = s }
  send_orders local (o ∷ os) s =
      let a = one local (order_query local o) s in
      let b = send_items local o.items a.sender in
      then_send a (then_send b (send_orders local os b.sender))

  -- The query of a hit that is neither of orders, nor social, nor feedback.
  pub plain_query : HitType → Bool → Sender → Query
  unfolding version ending tracking
  plain_query event local s = version s ++ ("utmt", "event") ∷ ending local s
  plain_query var local s = version s ++ ("utmt", "var") ∷ (if local then [] else tracking s)
  plain_query social local s =
      version s
      ++ ("utmt", "social")
        ∷ ("utmsn", encode s.network)
        ∷ ("utmsa", encode s.deed)
        ∷ ("utmsid", encode s.target)
        ∷ ending local s
  plain_query feedback local s =
      version s
      ++ ("utmt", "feedback")
        ∷ ("utmfbid", encode s.feedback_id)
        ∷ ("utmfbpr", encode s.feedback_text)
        ∷ ending local s
  plain_query page local s = version s ++ ending local s
  plain_query trans local s = version s ++ ending local s

  pub unless_local : Bool → Sent → Sender → Sent
  unless_local true a s = record { queries = []; sender = s }
  unless_local false a s = a

  -- `Ae`; the first argument is whether the request goes to the server of the page.
  pub requests : Bool → HitType → Sender → Sent
  unfolding send_orders one plain_query unless_local
  requests local trans s = send_orders local s.orders s
  requests local social s = unless_local local (one local (plain_query social local) s) s
  requests local feedback s = unless_local local (one local (plain_query feedback local) s) s
  requests local page s = one local (plain_query page local) s
  requests local event s = one local (plain_query event local) s
  requests local var s = one local (plain_query var local) s
