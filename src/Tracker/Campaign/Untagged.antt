-- ===== src/Tracker/Campaign/Untagged.antt =====
-- What becomes of a campaign where nothing tells of another.
use demolition_app.Base.{
  ◌≡◌, refl, sym, subst, ap, ◌∙◌, Bool, true, false, not, ◌&&◌, ◌||◌, if◌then◌else◌, if_cases,
  if_elim, String, str_eq, Option, none, some, arith,
}
use demolition_app.Tracker.Campaign.{
  is_some_text, is_unset, is_tagged, keep_click, of_referrer, has_campaign, respond, respond_to,
  or_direct, direct, track,
}
use demolition_app.Tracker.Source.{Campaign, Referrer, Tags, Source}

-- A value that says something.
abbrev pub is_given : Option String → Bool
is_given none = false
is_given (some s) = not (str_eq s "" || str_eq s "-")

-- A campaign that has a number, a source or a click.
abbrev pub is_known : Campaign → Bool
is_known c = is_given c.id || is_given c.source || is_given c.click || is_given c.display_click

-- An address without tags.
pub record IsUntagged (g : Tags) : Type 0 where
  pub id : is_given g.id ≡ false
  pub source : is_given g.source ≡ false
  pub click : is_given g.click ≡ false
  pub click_source : is_given g.click_source ≡ false
  pub display_click : is_given g.display_click ≡ false

module _ (lower : String → String) where
  is_unset-is_given : (o : Option String) → is_unset o ≡ not (is_given o)
  unfolding is_unset
  is_unset-is_given none = refl
  is_unset-is_given (some s) = ground arith

  has_campaign-is_known : (c : Campaign) → has_campaign lower c ≡ is_known c
  unfolding has_campaign
  has_campaign-is_known c = ground (
    arith,
    is_unset-is_given c.id,
    is_unset-is_given c.source,
    is_unset-is_given c.click,
    is_unset-is_given c.display_click,
  )

  is_tagged-IsUntagged : (g : Tags) → IsUntagged g → is_tagged lower g ≡ false
  unfolding is_tagged
  is_tagged-IsUntagged g u = ground (
    arith,
    is_unset-is_given g.id,
    is_unset-is_given g.source,
    is_unset-is_given g.click,
    is_unset-is_given g.display_click,
    u.id,
    u.source,
    u.click,
    u.display_click,
  )

  keep_click-IsUntagged : (g : Tags) (s : Source) → IsUntagged g → keep_click lower g s ≡ s
  unfolding keep_click
  keep_click-IsUntagged g s u =
      let k : is_unset g.click ≡ true = ground (arith, is_unset-is_given g.click, u.click) in
      let c : is_unset g.click_source ≡ true =
        ground (arith, is_unset-is_given g.click_source, u.click_source) in
      rw (k, c) refl

  of_referrer-none : (r : Referrer) (s : Source) → r.valid ≡ false → of_referrer lower r s ≡ none
  unfolding of_referrer
  of_referrer-none r s v = rw v refl

  respond-campaign : (old : Campaign) (s : Source) → (respond lower old s).campaign ≡ s.campaign
  unfolding respond
  respond-campaign old s = if_elim (λ (t : Source). t.campaign ≡ s.campaign) _ _ _ refl refl

  or_direct-campaign :
      (s : Source)
      → s.begun ≡ true
      → (or_direct lower s).campaign ≡ (if is_known s.campaign then s.campaign else direct lower)
  unfolding or_direct
  or_direct-campaign s b =
      let Goal : Source → Type 0 =
        λ t. t.campaign ≡ (if is_known s.campaign then s.campaign else direct lower) in
      if_cases Goal (has_campaign lower s.campaign || not s.begun) _ _
        (λ e.
          let k : is_known s.campaign ≡ true =
            ground (arith, e, b, has_campaign-is_known s.campaign) in
          rw k refl)
        (λ e.
          let k : is_known s.campaign ≡ false =
            ground (arith, e, has_campaign-is_known s.campaign) in
          rw k (respond-campaign s.campaign (record s { campaign = direct lower })))

  -- Where campaigns are followed and a visit begins, the address has no tags and the referrer is no address,
  -- a campaign that has a number, a source or a click stays as it is, and any other becomes the direct one.
  pub track-untagged :
      (g : Tags) (r : Referrer) (s : Source)
      → IsUntagged g
      → r.valid ≡ false
      → s.tracks ≡ true
      → s.linked ≡ false
      → s.begun ≡ true
      → (track lower g r s).campaign ≡ (
          if is_known s.campaign then s.campaign else record {
            id = none;
            source = some "(direct)";
            click = none;
            click_source = none;
            display_click = none;
            name = some "(direct)";
            medium = some "(none)";
            term = none;
            content = none;
          })
  unfolding track respond_to
  track-untagged g r s u v t l b =
      let Goal : Source → Type 0 =
        λ x. x.campaign ≡ (if is_known s.campaign then s.campaign else direct lower) in
      let followed : Goal
          (respond_to lower (of_referrer lower r (keep_click lower g s)) (keep_click lower g s)) =
        subst Goal
          (sym (
            ap (λ x. respond_to lower (of_referrer lower r x) x) (keep_click-IsUntagged g s u)
            ∙ ap (λ o. respond_to lower o s) (of_referrer-none r s v)))
          (or_direct-campaign s b) in
      if_cases Goal (s.tracks && not s.linked) _ _
        (λ _.
          if_cases Goal (is_some_text lower g.no_override "1" && has_campaign lower s.campaign) _ _
            (λ e.
              let k : is_known s.campaign ≡ true =
                ground (arith, e, has_campaign-is_known s.campaign) in
              rw k refl)
            (λ _.
              if_cases Goal (is_tagged lower g) _ _
                (λ e. absurd (ground (arith, e, is_tagged-IsUntagged g u))) (λ _. followed)))
        (λ e. absurd (ground (arith, e, t, l)))
