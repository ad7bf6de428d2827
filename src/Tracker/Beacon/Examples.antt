-- ===== src/Tracker/Beacon/Examples.antt =====
-- An order of two items, after five hits.
use demolition_app.Base.{◌+◌, ◌≡◌, refl, true, false, none, [], ◌∷◌, length}
use demolition_app.Tracker.Visit.{trans}
use demolition_app.Tracker.Beacon.{requests}
use demolition_app.Tracker.Beacon.Numbers.{requests-hits}
use demolition_app.Tracker.Request.{Item, Order, Client, Sender}

abbrev cap : Item
cap = record {
  trans_id = "7";
  sku = "c1";
  name = "cap";
  category = "";
  price = "5";
  quantity = "1";
}

abbrev order : Order
order = record {
  id = "7";
  affiliation = "";
  total = "12";
  tax = "0";
  shipping = "2";
  city = "Ithaca";
  state = "NY";
  country = "USA";
  items = cap ∷ record cap { sku = "c2" } ∷ [];
}

abbrev client : Client
client = record {
  charset = "UTF-8";
  screen = "800x600";
  viewport = "";
  colors = "24-bit";
  language = "en-us";
  java = "0";
  flash = "-";
}

abbrev sender : Sender
sender = record {
  hits = 5;
  mode = 1;
  host = "example.com";
  rate = "100";
  random = "4";
  time = "1000";
  account = "UA-1-1";
  experiment = "";
  quiet = false;
  container = "";
  dev_ids = [];
  cookies = ("__utma", "1.7.3.4.5.3") ∷ [];
  anonymous = false;
  join_id = none;
  redirect = "0";
  several = false;
  flags = "q~";
  groups = [];
  tells_client = true;
  client = client;
  tells_title = true;
  title = "Shop";
  page_id = "9";
  referrer = "-";
  path = "/shop";
  extension = none;
  currency = "";
  orders = order ∷ [];
  network = "";
  deed = "";
  target = "";
  feedback_id = "";
  feedback_text = "";
}

requests-hits_example :
    (requests (λ n. "n") (λ s. s) (λ s. s) false trans sender).sender.hits
    ≡ 5 + length (requests (λ n. "n") (λ s. s) (λ s. s) false trans sender).queries
requests-hits_example = requests-hits (λ n. "n") (λ s. s) (λ s. s) trans false sender refl
