-- ===== src/Tracker/Sending.antt =====
-- How a query is sent: `Sa` and the ways it tries, and what it makes of the answer.
pub mod Answers
mod Examples
use demolition_app.Base.{
  ℕ, suc, ltb, leb, ◌==◌, Bool, true, false, not, ◌&&◌, ◌||◌, if◌then◌else◌, String, str_eq, Option,
  none, some, List, [], ◌∷◌,
}

-- What the browser has: whether it is Firefox, and whether arrays have `reduce`; a domain request and one
-- with credentials, whether the protocol of the page is that of the server, and a body.
pub record Browser : Type 0 where
  pub firefox : Bool
  pub reduces : Bool
  pub domain_request : Bool
  pub same_protocol : Bool
  pub request : Bool
  pub credentials : Bool
  pub body : Bool

-- An image, a request, a domain request, a frame, a frame that is made once there is a body, or an error
-- with its name.
pub data Way : Type 0 where
  image by_request by_domain_request by_frame by_frame_later : Way
  failed : String → Way

-- `df`
pub by_df : Browser → Bool
by_df b = b.request && b.credentials

-- `ef`
pub by_ef : Browser → Bool
by_ef b = b.same_protocol && b.domain_request

-- `Ee`
pub by_ee : Browser → Way
by_ee b = if b.body then by_frame else by_frame_later

-- `Sa`, for a query of a length; the last argument is whether it is to be an image whatever its length.
pub send : Browser → ℕ → Bool → Way
unfolding by_df by_ef by_ee
send b size always =
    if always || leb size 2036
    then image
    else if leb size 8192
    then if b.firefox && not b.reduces
      then failed "ff2post"
      else if by_df b
      then by_request
      else if by_ef b
      then by_domain_request
      else by_ee b
    else failed "len"

-- What is done after an answer: a request to the other server with the rest of the answer to come, images
-- of addresses, an error that is reported, that there were too many answers, and the call back.
pub data Effect : Type 0 where
  collect called_back : Effect
  audience : String → Effect
  reported : String → String → Effect
  too_many : ℕ → Effect

-- The answer of `df`: its text, its first character, its second, and what follows.
pub record Answer : Type 0 where
  pub size : ℕ
  pub whole : String
  pub first : String
  pub second : String
  pub rest : String

-- Whether the text is one to six small letters or dots is the script's to say.
module _ (is_country : String → Bool) where
  pub audiences : String → List Effect
  audiences rest =
      audience "com"
      ∷ (if str_eq rest ""
          then []
          else if is_country rest
          then audience rest ∷ []
          else reported "tld" rest ∷ [])

  -- `onreadystatechange`; the first argument is how many answers of the hit were followed already.
  pub on_answer : ℕ → Answer → List Effect × ℕ
  unfolding audiences
  on_answer n a =
      if ltb a.size 1 || not (str_eq a.first "1")
      then (reported "ver" a.whole ∷ called_back ∷ [], n)
      else if ltb 3 n
      then (too_many (suc n) ∷ called_back ∷ [], suc n)
      else if a.size == 1
      then (called_back ∷ [], suc n)
      else if str_eq a.second "d"
      then (collect ∷ [], suc n)
      else if str_eq a.second "g"
      then (audiences a.rest, suc n)
      else (reported "brc" a.second ∷ called_back ∷ [], suc n)

  pub collects : List Effect → Bool
  collects [] = false
  collects (collect ∷ es) = true
  collects (called_back ∷ es) = collects es
  collects (audience s ∷ es) = collects es
  collects (reported s t ∷ es) = collects es
  collects (too_many n ∷ es) = collects es

  -- How many requests to the other server come of a hit, each after the answer to the one before.
  pub follow : List Answer → ℕ → ℕ
  unfolding on_answer collects
  follow [] n = 0
  follow (a ∷ answers) n =
      let rest = follow answers (on_answer n a).1 in
      if collects (on_answer n a).0 then suc rest else 0
