-- ===== src/Survey/Sequence/Beacons.antt =====
-- How much is sent about the answers.
use demolition_app.Base.{
  ℕ, ◌+◌, ◌%◌, ◌==◌, ◌≤◌, ◌≡◌, Bool, true, false, not, ◌&&◌, ◌||◌, if◌then◌else◌, if_elim, str_eq,
  List, [], ◌∷◌, arith,
}
use demolition_app.Survey.Sequence.{
  Item, Prompt, Beacon, BeaconType, accepted, extra, partial, dismissed, unanswered, seen, is_held,
  send, send_partial, send_accepted, close, finish, show_question, turn_page, fade_to, send_between,
  depart, go_on, go_on_extra, start_group, next_group, advance, on_response, on_failed_threshold,
  on_view, on_unload, on_no_thanks, Input, response, failed_threshold, faded, view, unload,
  no_thanks, thanks, is_asking, step, run,
}

-- The beacons that bring answers, of the whole survey, of a further question or of a part.
abbrev pub brings_answers : BeaconType → Bool
brings_answers type = elim type [ accepted ↦ true | extra ↦ true | partial ↦ true | _ ↦ false ]

abbrev pub told : List Beacon → ℕ
told [] = 0
told (b ∷ bs) = (if brings_answers b.type then 1 else 0) + told bs

-- There is room for another one only when none was sent since the question is shown.
abbrev IsSparing : Prompt → Type 0
IsSparing s = told s.beacons + (if s.sent then 0 else 1) ≤ s.shown

send-IsSparing :
    (type : BeaconType) (g : Bool) (s : Prompt) → IsSparing s → IsSparing (send type g s)
unfolding send is_held
send-IsSparing accepted g s p = ground (arith, p)
send-IsSparing extra g s p = ground (arith, p)
send-IsSparing partial g s p = ground (arith, p)
send-IsSparing dismissed g s p = ground (arith, p)
send-IsSparing unanswered g s p = ground (arith, p)
send-IsSparing seen g s p = ground (arith, p)

turn_page-IsSparing : (s : Prompt) → IsSparing s → IsSparing (turn_page s)
unfolding turn_page show_question
turn_page-IsSparing s p =
    let shown : Prompt =
      show_question (record s { fading = false; viewed = true; watching = true }) in
    let q : IsSparing shown = ground (arith, p) in
    if_elim IsSparing s.keeps_view _ _ q (send-IsSparing seen false shown q)

depart-IsSparing : (b : Bool) (s : Prompt) → IsSparing s → IsSparing (depart b s)
unfolding depart
depart-IsSparing true s p = turn_page-IsSparing s p
depart-IsSparing false s p = p

send_partial-IsSparing : (s : Prompt) → IsSparing s → IsSparing (send_partial s)
unfolding send_partial
send_partial-IsSparing s p = send-IsSparing _ false s p

send_accepted-IsSparing : (s : Prompt) → IsSparing s → IsSparing (send_accepted s)
unfolding send_accepted
send_accepted-IsSparing s p = send-IsSparing _ true s p

finish-IsSparing : (s : Prompt) → IsSparing s → IsSparing (finish s)
unfolding finish
finish-IsSparing s p = send_accepted-IsSparing s p

send_between-IsSparing : (s : Prompt) → IsSparing s → IsSparing (send_between s)
unfolding send_between
send_between-IsSparing s p =
    let room : Prompt → Type 0 = λ t. told t.beacons + (if t.sent then 0 else 1) ≤ s.shown in
    if_elim room (s.long && (s.index + 1 == s.free)) _ _ (send-IsSparing accepted true s p)
      (if_elim room (s.every || s.index % 3 == 2) _ _ (send_partial-IsSparing s p) p)

go_on-IsSparing :
    (item : Item) (items : List Item) (s : Prompt) → IsSparing s → IsSparing (go_on item items s)
unfolding go_on fade_to
go_on-IsSparing item items s p =
    depart-IsSparing (str_eq s.current.type "permissions")
      (fade_to true item items (record (send_between s) { index = s.index + 1 }))
      (send_between-IsSparing s p)

next_group-IsSparing :
    (groups : List (List Item)) (s : Prompt) → IsSparing s → IsSparing (next_group groups s)
unfolding next_group start_group go_on_extra fade_to
next_group-IsSparing [] s p = finish-IsSparing s p
next_group-IsSparing ([] ∷ groups) s p = send_accepted-IsSparing s p
next_group-IsSparing ((item ∷ items) ∷ groups) s p = send_accepted-IsSparing s p

advance-IsSparing : (items : List Item) (s : Prompt) → IsSparing s → IsSparing (advance items s)
unfolding advance go_on_extra fade_to
advance-IsSparing [] s p = next_group-IsSparing s.later s p
advance-IsSparing (item ∷ items) s p =
    if_elim IsSparing s.in_main _ _ (go_on-IsSparing item items s p) p

step-IsSparing : (i : Input) (s : Prompt) → IsSparing s → IsSparing (step i s)
unfolding step on_response on_failed_threshold on_unload on_no_thanks on_view close
step-IsSparing response s p =
    if_elim IsSparing (is_asking s) _ _
      (advance-IsSparing s.following (record s { answered = s.answered + 1 }) p) p
step-IsSparing failed_threshold s p =
    let t : Prompt = record s { answered = s.answered + 1 } in
    if_elim IsSparing (is_asking s) _ _
      (if_elim IsSparing s.active _ _
        (if_elim IsSparing s.hats _ _ (send-IsSparing accepted true t p)
          (next_group-IsSparing s.later t p))
        p)
      p
step-IsSparing faded s p = if_elim IsSparing s.fading _ _ (turn_page-IsSparing s p) p
step-IsSparing (view page_visible legible within) s p =
    if_elim IsSparing (s.active && s.watching && page_visible) _ _
      (if_elim IsSparing legible _ _
        (if_elim IsSparing within _ _
          (send-IsSparing seen false (record s { viewed = true; watching = false }) p) p)
        (finish-IsSparing s p))
      p
step-IsSparing unload s p =
    if_elim IsSparing (s.active && not s.left) _ _
      (send_partial-IsSparing (record s { left = true }) p) p
step-IsSparing no_thanks s p = if_elim IsSparing s.active _ _ (send-IsSparing partial true s p) p
step-IsSparing thanks s p = if_elim IsSparing s.promoting _ _ p p

-- In a prompt that has sent nothing and shows its first question, whatever happens, there are at
-- most as many beacons that bring answers, of all or a part or of a further question, as questions were shown.
pub run-told :
    (is : List Input) (s : Prompt)
    → s.beacons ≡ []
    → 1 ≤ s.shown
    → told (run is s).beacons ≤ (run is s).shown
unfolding run
run-told is s e h = sparing is s (rw e (ground (arith, h)))
  where
    sparing :
        (js : List Input) (t : Prompt) → IsSparing t → told (run js t).beacons ≤ (run js t).shown
    sparing [] t p = omega (arith, p)
    sparing (j ∷ js) t p = sparing js (step j t) (step-IsSparing j t p)
