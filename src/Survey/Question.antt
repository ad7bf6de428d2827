-- ===== src/Survey/Question.antt =====
-- The question `Y`, on which all others are built: what an answer to it leads to.
pub mod Verdict
mod Examples
use Prim.Native.String.{◌++◌ as str_append}
use demolition_app.Base.Dict.{has_text}
use demolition_app.Base.{
  ℕ, ◌-◌, ltb, Bool, true, false, not, ◌&&◌, ◌||◌, if◌then◌else◌, String, str_eq, Option, none,
  some, List, [], ◌∷◌, ◌++◌,
}

-- What `Qb` and `Jj` give: a text, or a list of texts.
pub data Value : Type 0 where
  one : String → Value
  many : List String → Value

pub data QuestionEvent : Type 0 where
  spammy_click failed_threshold : QuestionEvent
  response : Option (List String) → QuestionEvent

-- `type`, `sa`, `qc`, `payload.truth_answer`, `fe`, `allowFraudWarning`, `Uc`; `V.d`, `V.sc`;
-- `response.r`, `response.i`; and what was dispatched. No threshold is the empty list, and no truth
-- the empty text.
pub record Question : Type 0 where
  pub type : String
  pub answers : List String
  pub threshold : List String
  pub truth : String
  pub fresh : Bool
  pub allow_warning : Bool
  pub shown_at : ℕ
  pub decided_after : Option ℕ
  pub warned_after : Option ℕ
  pub given : Option Value
  pub index : Option Value
  pub events : List QuestionEvent

pub joined : List String → String
joined [] = ""
joined (t ∷ []) = t
joined (t ∷ u ∷ ts) = str_append t (str_append "," (joined (u ∷ ts)))

-- The text to which a value is compared.
pub text_of : Value → String
unfolding joined
text_of (one t) = t
text_of (many ts) = joined ts

pub as_list : Value → List String
as_list (one t) = t ∷ []
as_list (many ts) = ts

-- `reset`
pub reset : ℕ → Question → Question
reset now q = record q { shown_at = now }

-- The threshold answers among the values.
pub met : List String → List String → List String
met [] values = []
met (t ∷ ts) values = let rest = met ts values in if has_text values t then t ∷ rest else rest

-- `vs`
pub has_threshold : List String → Bool
has_threshold [] = false
has_threshold (t ∷ ts) = true

pub is_empty : List String → Bool
is_empty [] = true
is_empty (t ∷ ts) = false

-- `Sk`, of any question but one with several answers.
pub fails : List String → List String → List String → Bool
unfolding has_threshold is_empty
fails threshold values met_values = has_threshold threshold && is_empty met_values

-- `Ds.prototype.Sk`: no answer at all passes where "None of the above" is a threshold answer.
pub fails_select : List String → List String → List String → Bool
unfolding fails is_empty
fails_select threshold values met_values =
    if fails threshold values met_values
      && is_empty values
      && has_text threshold "None of the above"
    then false
    else fails threshold values met_values

-- The types whose answers can be put into later questions.
pub is_choice : String → Bool
is_choice type =
    str_eq type "multi"
    || str_eq type "multi-with-image"
    || str_eq type "multi-select"
    || str_eq type "multi-select-with-image"
    || str_eq type "dropdown-with-image"

-- The values that `ua` keeps.
pub kept : List String → List String → List String
unfolding has_threshold met
kept threshold values = if has_threshold threshold then met threshold values else values

-- The warning of `ua`.
pub warn : ℕ → Question → Question
warn now q = record q {
  fresh = false;
  warned_after = some (now - q.shown_at);
  events = q.events ++ spammy_click ∷ [];
}

pub any_mentions : (String → Bool) → List String → Bool
any_mentions mentions [] = false
any_mentions mentions (a ∷ answers) = mentions a || any_mentions mentions answers

-- Whether `mr` matches a text is the first argument, and `Sk` the second.
module _ (mentions : String → Bool) (misses : List String → List String → List String → Bool) where
  -- What `ua` dispatches once the answer is taken.
  pub verdict : Question → List String → QuestionEvent
  unfolding is_choice kept any_mentions
  verdict q values =
      let kept_values = kept q.threshold values in
      if misses q.threshold values kept_values
      then failed_threshold
      else response (
          if is_choice q.type && not (any_mentions mentions q.answers)
          then some kept_values
          else none)

  pub take : ℕ → Value → Value → Question → Question
  unfolding verdict as_list
  take now value index q = record q {
    decided_after = some (now - q.shown_at);
    given = some value;
    index = some index;
    events = q.events ++ verdict q (as_list value) ∷ [];
  }

  -- Whether `ua` warns: the answer came too soon, or is not the true one.
  pub is_suspicious : Bool → ℕ → Value → Question → Bool
  unfolding text_of
  is_suspicious force now value q =
      (q.fresh && q.allow_warning && ltb (now - q.shown_at) 1500 || force)
      || (q.fresh && not (str_eq q.truth "") && not (str_eq q.truth (text_of value)))

  -- `ua`; `force` is `_402.forceSpammyClick`.
  pub answer : Bool → ℕ → Value → Value → Question → Question
  unfolding is_suspicious warn take
  answer force now value index q =
      if is_suspicious force now value q then warn now q else take now value index q
