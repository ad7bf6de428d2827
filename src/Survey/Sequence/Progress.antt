-- ===== src/Survey/Sequence/Progress.antt =====
-- The number of the question that is asked never exceeds its total.
use demolition_app.Base.{
  ℕ, ◌+◌, ◌≤◌, ◌≡◌, refl, Bool, true, false, not, ◌&&◌, if◌then◌else◌, if_elim, if_cases, str_eq,
  List, [], ◌∷◌, length, All, arith,
}
use demolition_app.Survey.Sequence.{
  Item, Prompt, send, send_partial, send_accepted, close, finish, show_question, turn_page, fade_to,
  send_between, depart, go_on, go_on_extra, start_group, next_group, advance, on_response,
  on_failed_threshold, on_view, on_unload, on_no_thanks, Input, response, failed_threshold, faded,
  view, unload, no_thanks, thanks, is_asking, step, run,
}
use demolition_app.Survey.Sequence.Numbering.{IsNumbered, lengths}

-- How many supplemental questions are still to come.
abbrev pub to_come : Bool → List Item → List (List Item) → ℕ
to_come in_main items groups = if in_main then lengths groups else length items + lengths groups

record Placed (item : Item) (items : List Item) (in_main : Bool) (groups : List (List Item))
    : Type 0 where
  here : item.position + to_come in_main items groups ≤ item.total
  ahead : in_main ≡ true → All (IsNumbered (lengths groups)) items

-- The number of the question, with those still to come, is within its total.
abbrev IsPlaced : Prompt → Type 0
IsPlaced s = Placed s.current s.following s.in_main s.later

turn_page-IsPlaced : (s : Prompt) → IsPlaced s → IsPlaced (turn_page s)
unfolding turn_page show_question send
turn_page-IsPlaced s p = if_elim IsPlaced s.keeps_view _ _ p p

depart-IsPlaced : (b : Bool) (s : Prompt) → IsPlaced s → IsPlaced (depart b s)
unfolding depart
depart-IsPlaced true s p = turn_page-IsPlaced s p
depart-IsPlaced false s p = p

go_on-IsPlaced :
    (item : Item) (items : List Item) (s : Prompt)
    → s.in_main ≡ true
    → All (IsNumbered (lengths s.later)) (item ∷ items)
    → IsPlaced (go_on item items s)
unfolding go_on fade_to send_between
go_on-IsPlaced item items s m (k, ks) =
    depart-IsPlaced (str_eq s.current.type "permissions")
      (fade_to true item items (record (send_between s) { index = s.index + 1 }))
      (record { here = rw m k.1; ahead = λ _. ks })

start_group-IsPlaced :
    (group : List Item) (groups : List (List Item)) (s : Prompt)
    → s.current.position + (length group + lengths groups) ≤ s.current.total
    → IsPlaced (start_group group groups s)
unfolding start_group send_accepted send go_on_extra fade_to
start_group-IsPlaced [] groups s h = record {
  here = omega (arith, h);
  ahead = λ e. absurd (ground (arith, e));
}
start_group-IsPlaced (item ∷ items) groups s h = record {
  here = omega (arith, h);
  ahead = λ e. absurd (ground (arith, e));
}

next_group-IsPlaced :
    (groups : List (List Item)) (s : Prompt)
    → s.current.position + lengths groups ≤ s.current.total
    → groups ≡ s.later
    → IsPlaced s
    → IsPlaced (next_group groups s)
unfolding next_group finish send_accepted send lengths
next_group-IsPlaced [] s h e p = p
next_group-IsPlaced (group ∷ groups) s h e p = start_group-IsPlaced group groups s h

Placed-later :
    (item : Item) (items : List Item) (m : Bool) (groups : List (List Item))
    → Placed item items m groups
    → item.position + lengths groups ≤ item.total
Placed-later item items m groups p = ground (arith, p.here)

advance-IsPlaced :
    (items : List Item) (s : Prompt)
    → s.following ≡ items
    → Placed s.current items s.in_main s.later
    → IsPlaced (advance items s)
unfolding advance go_on_extra fade_to
advance-IsPlaced [] s e p =
    next_group-IsPlaced s.later s (Placed-later _ [] _ _ p) refl
      (record { here = ground (arith, p.here); ahead = λ m. simp e (p.ahead m) })
advance-IsPlaced (item ∷ items) s e p =
    if_cases IsPlaced s.in_main _ _ (λ m. go_on-IsPlaced item items s m (p.ahead m))
      (λ m. record { here = ground (arith, m, p.here); ahead = λ g. absurd (ground (arith, m, g)) })

-- The question and the groups of the prompt are as before.
on_view-IsPlaced :
    (page_visible legible within : Bool) (s : Prompt)
    → IsPlaced s
    → IsPlaced (on_view page_visible legible within s)
unfolding on_view finish send_accepted send
on_view-IsPlaced page_visible legible within s p =
    if_elim IsPlaced (s.active && s.watching && page_visible) _ _
      (if_elim IsPlaced legible _ _ (if_elim IsPlaced within _ _ p p) p) p

step-IsPlaced : (i : Input) (s : Prompt) → IsPlaced s → IsPlaced (step i s)
unfolding step on_response on_failed_threshold on_unload on_no_thanks close send send_partial
step-IsPlaced response s p =
    if_elim IsPlaced (is_asking s) _ _
      (advance-IsPlaced s.following (record s { answered = s.answered + 1 }) refl p) p
step-IsPlaced failed_threshold s p =
    if_elim IsPlaced (is_asking s) _ _
      (if_elim IsPlaced s.active _ _
        (if_elim IsPlaced s.hats _ _ p (
          next_group-IsPlaced s.later (record s { answered = s.answered + 1 })
            (Placed-later _ _ _ _ p) refl p))
        p)
      p
step-IsPlaced faded s p = if_elim IsPlaced s.fading _ _ (turn_page-IsPlaced s p) p
step-IsPlaced (view page_visible legible within) s p =
    on_view-IsPlaced page_visible legible within s p
step-IsPlaced unload s p = if_elim IsPlaced (s.active && not s.left) _ _ p p
step-IsPlaced no_thanks s p = if_elim IsPlaced s.active _ _ p p
step-IsPlaced thanks s p = if_elim IsPlaced s.promoting _ _ p p

-- In a prompt that asks the first question of a numbered payload, the number of the question that is
-- asked is at most its total, whatever is answered, fails its threshold or happens to the page.
pub run-position :
    (is : List Input) (s : Prompt)
    → s.in_main ≡ true
    → All (IsNumbered (lengths s.later)) (s.current ∷ s.following)
    → (run is s).current.position ≤ (run is s).current.total
unfolding run
run-position is s m (k, ks) =
    placed is s (record { here = ground (arith, m, k.1); ahead = λ _. ks })
  where
    placed :
        (js : List Input) (t : Prompt)
        → IsPlaced t
        → (run js t).current.position ≤ (run js t).current.total
    placed [] t p = omega (arith, p.here)
    placed (j ∷ js) t p = placed js (step j t) (step-IsPlaced j t p)
