-- ===== src/Tracker/Campaign.antt =====
-- Where a visit comes from: `Sd` with `Xe`, `Qd`, `Od`, `Pd` and `Rd`. The addresses are read already, and
-- their values decoded; what makes small letters of a text is a parameter.
pub mod Untagged
mod Examples
use Prim.Native.Char.{code}
use Prim.Native.String.{◌++◌ as str_append, slice, len}
use Prim.Native.String
use text.Mathlib.Text.{find?, starts_with}
use demolition_app.Base.{
  ℕ, suc, ◌==◌, Bool, true, false, not, ◌&&◌, ◌||◌, if◌then◌else◌, String, str_eq, Option, none,
  some, List, [], ◌∷◌,
}
use demolition_app.Tracker.Source.{Campaign, Referrer, Engine, Tags, Source}

-- `F`, where a missing value is unset.
unfoldable pub is_unset : Option String → Bool
is_unset none = true
is_unset (some s) = str_eq s "-" || str_eq s ""

-- `c(…, d)` of `Xe`: an empty value and "-" give way.
unfoldable pub or_text : Option String → String → String
or_text none d = d
or_text (some s) d = if str_eq s "" || str_eq s "-" then d else s

pub has_text : String → String → Bool
has_text s part = elim (find? s part) [ none ↦ false | some i ↦ true ]

pub member : String → List String → Bool
member s [] = false
member s (t ∷ ts) = str_eq s t || member s ts

-- What `Od` finds: the source, the words, and whether these are ignored.
pub record Found : Type 0 where
  pub source : String
  pub words : String
  pub ignored : Bool

pub head_text : List String → String
head_text [] = ""
head_text (s ∷ ss) = s

pub part_fits : Option String → String → Bool
unfolding has_text
part_fits none url = true
part_fits (some p) url = str_eq p "" || has_text url p

pub text_or : Option String → String → String
text_or none d = d
text_or (some s) d = if str_eq s "" then d else s

module _ (lower : String → String) where
  pub found : Engine → List String → Referrer → String → Found
  unfolding text_or member
  found e ignored r f = record {
    source = text_or e.name e.site;
    words = f;
    ignored = member (lower f) ignored;
  }

  -- One turn of the loop of `Od`, with the words of the key.
  pub match : Engine → List String → Referrer → Option (List String) → Option Found
  unfolding head_text part_fits has_text found
  match e ignored r none = none
  match e ignored r (some values) =
      let first = head_text values in
      let f = if str_eq first "" && has_text r.host "google." then "(not provided)" else first in
      if part_fits e.part r.url then some (found e ignored r f) else none

  pub or_found : Option Found → Option Found → Option Found
  or_found none b = b
  or_found (some f) b = some f

  -- `Od`
  unfoldable pub find_engine : List Engine → List String → Referrer → Option Found
  unfolding match has_text or_found
  find_engine [] ignored r = none
  find_engine (e ∷ es) ignored r =
      let rest = find_engine es ignored r in
      if has_text r.host (lower e.site)
      then or_found (match e ignored r (r.words e.key)) rest
      else rest

  -- The source and the term of `Xe`, where an engine may say more.
  pub told_source : Bool → Option Found → String → String
  told_source asks none s = s
  told_source asks (some f) s =
      if asks && not (str_eq f.words "" || str_eq f.words "-") && not f.ignored then f.source else s

  pub told_term : Bool → Option Found → String → String
  told_term asks none s = s
  told_term asks (some f) s =
      if asks && not (str_eq f.words "" || str_eq f.words "-") && not f.ignored then f.words else s

  unfoldable pub is_tagged : Tags → Bool
  unfolding is_unset
  is_tagged g =
      not (is_unset g.id && is_unset g.click && is_unset g.display_click && is_unset g.source)

  unfoldable pub keep_click : Tags → Source → Source
  unfolding is_unset
  keep_click g s = record s {
    ad_click = if is_unset g.click then s.ad_click else g.click;
    ad_source = if is_unset g.click_source then s.ad_source else g.click_source;
  }

  -- `Xe`, of an address with tags.
  pub take_tags : Tags → Referrer → Source → Source
  unfolding is_unset or_text find_engine told_source told_term
  take_tags g r s =
      let clicked = not (is_unset g.click) && not (is_unset g.click_source) in
      let asks = is_unset g.source && (not (is_unset g.display_click) || clicked) in
      let f = find_engine s.engines s.ignored_words r in
      record s {
        campaign = record {
          id = some (or_text g.id "-");
          source = some (told_source asks f (or_text g.source "-"));
          click = some (or_text g.click "-");
          click_source = some (or_text g.click_source "-");
          display_click = some (or_text g.display_click "-");
          name = some (or_text g.name "(not set)");
          medium = some (or_text g.medium "(not set)");
          term = some (told_term (is_unset g.term) f (or_text g.term "-"));
          content = some (or_text g.content "-");
        };
      }

  abbrev pub plain_campaign : String → String → String → Option String → Option String → Campaign
  plain_campaign source name medium term content = record {
    id = none;
    source = some source;
    click = none;
    click_source = none;
    display_click = none;
    name = some name;
    medium = some medium;
    term = term;
    content = content;
  }

  pub is_ignored_site : String → List String → Bool
  unfolding has_text
  is_ignored_site host [] = false
  is_ignored_site host (t ∷ ts) = has_text host t || is_ignored_site host ts

  -- `Ka`, for a host in small letters.
  pub without_www : String → String
  without_www h = if starts_with h "www." then slice h 4 (len h) else h

  -- The rest of `Qd`, for what `Od` found: the campaign, where there is one.
  unfoldable pub referred : Option Found → Referrer → Source → Option Campaign
  unfolding is_ignored_site without_www
  referred none r s =
      let host = without_www r.host in
      if not s.begun || is_ignored_site host s.ignored_sites
      then none
      else some (plain_campaign host "(referral)" "referral" none (some (str_append "/" r.path)))
  referred (some f) r s =
      if f.ignored
      then none
      else some (plain_campaign f.source "(organic)" "organic" (some f.words) none)

  -- `Qd`
  unfoldable pub of_referrer : Referrer → Source → Option Campaign
  unfolding referred find_engine
  of_referrer r s =
      let c = referred (find_engine s.engines s.ignored_words r) r s in
      if not r.valid || r.site_search then none else c

  -- What becomes of the spaces and signs of a value before `Rd` compares it.
  pub escaped : String → String
  escaped Prim.Native.String.[] = ""
  escaped (Prim.Native.String.◌∷◌ c s) =
      let rest = escaped s in
      if code c == 43 || code c == 32 then str_append "%20" rest else Prim.Native.String.◌∷◌ c rest

  pub differs : Option String → Option String → Bool
  unfolding escaped text_or
  differs a b = not (str_eq (escaped (text_or a "-")) (escaped (text_or b "-")))

  pub same_click : Option String → Option String → Bool
  unfolding text_or
  same_click new old = not (str_eq (text_or new "") "") && str_eq (text_or new "") (text_or old "")

  -- `Rd`
  unfoldable pub is_changed : Campaign → Campaign → Bool
  unfolding differs same_click
  is_changed new old =
      not (same_click new.click old.click || same_click new.display_click old.display_click)
      && (differs old.name new.name
          || differs old.id new.id
          || differs old.click new.click
          || differs old.display_click new.display_click
          || differs old.source new.source
          || differs old.medium new.medium
          || differs old.term new.term
          || differs old.content new.content)

  unfoldable pub has_campaign : Campaign → Bool
  unfolding is_unset
  has_campaign c =
      not (is_unset c.id)
      || not (is_unset c.source)
      || not (is_unset c.click)
      || not (is_unset c.display_click)

  abbrev pub is_some_text : Option String → String → Bool
  is_some_text o t = elim o [ none ↦ false | some s ↦ str_eq s t ]

  abbrev pub is_direct : Campaign → Bool
  is_direct c =
      is_some_text c.source "(direct)"
      && is_some_text c.name "(direct)"
      && is_some_text c.medium "(none)"

  -- The end of `Sd`: the campaign before, and the visit with the new one.
  unfoldable pub respond : Campaign → Source → Source
  unfolding is_changed
  respond old s =
      let changed = is_changed s.campaign old in
      let t = record s { changed = changed } in
      let counted = record t { since = s.now; visit = s.visits; responses = suc s.responses } in
      if changed || s.begun && not (is_direct s.campaign) then counted else t

  abbrev pub direct : Campaign
  direct = plain_campaign "(direct)" "(direct)" "(none)" none none

  -- Where neither the address nor the referrer tells of a campaign.
  unfoldable pub or_direct : Source → Source
  unfolding has_campaign respond
  or_direct s =
      if has_campaign s.campaign || not s.begun
      then s
      else respond s.campaign (record s { campaign = direct })

  unfoldable pub respond_to : Option Campaign → Source → Source
  unfolding respond or_direct
  respond_to none s = or_direct s
  respond_to (some c) s = respond s.campaign (record s { campaign = c })

  -- `Sd`
  unfoldable pub track : Tags → Referrer → Source → Source
  unfolding is_tagged take_tags of_referrer respond respond_to has_campaign keep_click
  track g r s₀ =
      let s = keep_click g s₀ in
      let kept = is_some_text g.no_override "1" && has_campaign s₀.campaign in
      let followed =
        if is_tagged g
        then respond s.campaign (take_tags g r s)
        else respond_to (of_referrer r s) s in
      if s₀.tracks && not s₀.linked then if kept then s₀ else followed else s₀
