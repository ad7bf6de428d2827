-- ===== src/Survey/Sequence/Ending.antt =====
-- A prompt whose questions are answered comes to its end.
use demolition_app.Base.{
  ℕ, zero, suc, ◌+◌, ◌<◌, ◌≡◌, refl, subst, ◌⊎◌, inl, inr, Bool, true, false, ◌||◌, if_elim,
  if_cases, str_eq, List, [], ◌∷◌, length, arith,
}
use demolition_app.Survey.Sequence.{
  Item, Prompt, send, send_accepted, finish, show_question, turn_page, fade_to, send_between,
  depart, go_on, go_on_extra, start_group, next_group, advance, on_response, response, faded,
  is_asking, step,
}

abbrev pub turns : List (List Item) → ℕ
turns [] = 0
turns (group ∷ groups) = suc (length group) + turns groups

-- The questions after this one, and one more for each supplemental group.
abbrev pub ahead : Prompt → ℕ
ahead s = length s.following + turns s.later

-- The promotion is shown, or the prompt is closed.
abbrev pub is_over : Prompt → Bool
is_over s = s.promoting || s.closed

-- The user answers, and the question fades out if it does.
pub answer_page : Prompt → Prompt
answer_page s = step faded (step response s)

pub answer_pages : ℕ → Prompt → Prompt
answer_pages zero s = s
answer_pages (suc n) s = answer_pages n (answer_page s)

-- It is over, or fewer questions are ahead and the prompt asks the next one or fades to it.
Moves : ℕ → Prompt → Type 0
Moves n t = (is_over t ≡ true) ⊎ ((is_over t ≡ false) × (ahead t < n))

turn_page-Moves : (n : ℕ) (s : Prompt) → Moves n s → Moves n (turn_page s)
unfolding Moves turn_page show_question send
turn_page-Moves n s p = if_elim (Moves n) s.keeps_view _ _ p p

depart-Moves : (n : ℕ) (b : Bool) (s : Prompt) → Moves n s → Moves n (depart b s)
unfolding depart
depart-Moves n true s p = turn_page-Moves n s p
depart-Moves n false s p = p

finish-is_over : (s : Prompt) → is_over (finish s) ≡ true
unfolding finish send_accepted send
finish-is_over s = ground arith

next_group-Moves :
    (groups : List (List Item)) (s : Prompt)
    → is_over s ≡ false
    → Moves (turns groups) (next_group groups s)
unfolding Moves next_group start_group go_on_extra fade_to send_accepted send
next_group-Moves [] s o = inl (finish-is_over s)
next_group-Moves ([] ∷ groups) s o = inr (o, omega arith)
next_group-Moves ((item ∷ items) ∷ groups) s o = inr (o, omega arith)

advance-Moves :
    (items : List Item) (s : Prompt)
    → is_over s ≡ false
    → Moves (length items + turns s.later) (advance items s)
unfolding Moves advance go_on go_on_extra fade_to send_between
advance-Moves [] s o =
    let e : turns s.later ≡ 0 + turns s.later = omega arith in
    subst (λ k. Moves k (next_group s.later s)) e (next_group-Moves s.later s o)
advance-Moves (item ∷ items) s o =
    let n = length (item ∷ items) + turns s.later in
    if_elim (Moves n) s.in_main _ _
      (depart-Moves n (str_eq s.current.type "permissions")
        (fade_to true item items (record (send_between s) { index = s.index + 1 }))
        (inr (o, omega arith)))
      (inr (o, omega arith))

-- It is over, or asks with fewer questions ahead.
abbrev Arrives : ℕ → Prompt → Type 0
Arrives n t = (is_over t ≡ true) ⊎ ((is_asking t ≡ true) × (ahead t < n))

arrive : (n : ℕ) (t : Prompt) → t.fading ≡ false → Moves n t → Arrives n t
unfolding Moves is_asking
arrive n t f (inl o) = inl o
arrive n t f (inr (o, h)) = inr (ground (arith, f, o), h)

turn_page-fading : (s : Prompt) → (turn_page s).fading ≡ false
unfolding turn_page show_question send
turn_page-fading s = if_elim (λ (t : Prompt). t.fading ≡ false) s.keeps_view _ _ refl refl

-- Once the page is turned the next question is asked.
turned-Arrives : (n : ℕ) (t : Prompt) → Moves n t → Arrives n (step faded t)
unfolding step
turned-Arrives n t m =
    if_cases (Arrives n) t.fading _ _
      (λ _. arrive n (turn_page t) (turn_page-fading t) (turn_page-Moves n t m))
      (λ f. arrive n t f m)

asking_not_over : (s : Prompt) → is_asking s ≡ true → is_over s ≡ false
unfolding is_asking
asking_not_over s a = ground (arith, a)

answer_page-Arrives : (s : Prompt) → is_asking s ≡ true → Arrives (ahead s) (answer_page s)
unfolding answer_page step on_response
answer_page-Arrives s a = turned-Arrives (ahead s) (step response s) (
    if_cases (Moves (ahead s)) (is_asking s) _ _
      (λ _.
        advance-Moves s.following (record s { answered = s.answered + 1 }) (asking_not_over s a))
      (λ e. absurd (ground (arith, e, a))))

over-answer_page : (s : Prompt) → is_over s ≡ true → is_over (answer_page s) ≡ true
unfolding answer_page step turn_page show_question send
over-answer_page s o =
    let over : Prompt → Type 0 = λ t. is_over t ≡ true in
    let r : over (step response s) =
      if_cases over (is_asking s) _ _ (λ a. absurd (ground (arith, asking_not_over s a, o)))
        (λ _. o) in
    if_elim over (step response s).fading _ _ (if_elim over (step response s).keeps_view _ _ r r) r

over-answer_pages : (n : ℕ) (s : Prompt) → is_over s ≡ true → is_over (answer_pages n s) ≡ true
unfolding answer_pages
over-answer_pages zero s o = o
over-answer_pages (suc n) s o = over-answer_pages n (answer_page s) (over-answer_page s o)

-- However many groups of questions there are, a prompt that asks a question is over once it was
-- answered as often as there are questions and groups left, and one time more.
pub answer_pages-is_over :
    (n : ℕ) (s : Prompt) → is_asking s ≡ true → ahead s < n → is_over (answer_pages n s) ≡ true
unfolding answer_pages
answer_pages-is_over zero s a h = absurd (omega (arith, h))
answer_pages-is_over (suc n) s a h = elim (answer_page-Arrives s a) [
  | inl o ↦ over-answer_pages n (answer_page s) o
  | inr (b, k) ↦ answer_pages-is_over n (answer_page s) b (omega (arith, h, k))
]
