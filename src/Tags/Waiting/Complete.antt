-- ===== src/Tags/Waiting/Complete.antt =====
-- What waits is called once, and some of it too early.
use demolition_app.Base.{
  ℕ, suc, ◌+◌, ◌≡◌, refl, sym, subst, ltb, Bool, true, false, not, ◌&&◌, ◌||◌, if_cases, if_elim,
  List, [], ◌∷◌, ◌++◌, length, length-append, arith,
}
use demolition_app.Tags.Waiting.{
  ReadyState, interactive, is_complete, is_interactive, Page, on_event, push, when_ready, poll,
  Input, event, polled, asked, step, run, asked_count,
}

-- The functions of a page: those that wait are called once it is ready, the others are called already.
pub record Holds (n : ℕ) (p : Page) : Type 0 where
  pub before : p.ready ≡ false → length p.scheduled + length p.waiting + length p.called ≡ n
  pub after : p.ready ≡ true → length p.scheduled + length p.called ≡ n
  pub is_replaced : p.ready ≡ true → p.replaced ≡ true

on_event-Holds :
    (n : ℕ) (c : Bool) (s : ReadyState) (p : Page) → Holds n p → Holds n (on_event c s p)
unfolding on_event
on_event-Holds n c s p h =
    if_cases (Holds n) p.ready _ _ (λ _. h)
      (λ e.
        if_elim (Holds n) (not c || is_complete s || not p.old_browser && is_interactive s) _ _
          (record {
            before = λ f. absurd (ground (arith, f));
            after = λ _. omega (arith, h.before e, length-append p.scheduled p.waiting);
            is_replaced = λ _. refl;
          })
          (record { before = h.before; after = h.after; is_replaced = λ _. refl }))

when_ready-Holds : (n f : ℕ) (p : Page) → Holds n p → Holds (suc n) (when_ready f p)
unfolding when_ready push
when_ready-Holds n f p h =
    if_cases (Holds (suc n)) p.ready _ _
      (λ e. record {
        before = λ g. absurd (ground (arith, e, g));
        after = λ _. omega (arith, h.after e, length-append p.called (f ∷ []));
        is_replaced = h.is_replaced;
      })
      (λ e.
        if_elim (Holds (suc n)) p.replaced _ _
          (record {
            before = λ _. omega (arith, h.before e, length-append p.scheduled (f ∷ []));
            after = λ g. absurd (ground (arith, e, g));
            is_replaced = h.is_replaced;
          })
          (record {
            before = λ _. omega (arith, h.before e, length-append p.waiting (f ∷ []));
            after = λ g. absurd (ground (arith, e, g));
            is_replaced = h.is_replaced;
          }))

poll-Holds : (n : ℕ) (b : Bool) (s : ReadyState) (p : Page) → Holds n p → Holds n (poll b s p)
unfolding poll
poll-Holds n b s p h =
    let q : Page = record p { tries = suc p.tries } in
    let k : Holds n q = record {
      before = h.before;
      after = h.after;
      is_replaced = h.is_replaced;
    } in
    if_elim (Holds n) (not p.ready && ltb p.tries 140) _ _
      (if_elim (Holds n) b _ _ (on_event-Holds n false s q k) k) h

plus_zero : (n : ℕ) → n ≡ n + 0
plus_zero n = omega arith

plus_one : (n : ℕ) → suc n ≡ n + 1
plus_one n = omega arith

step-Holds :
    (i : Input) (n : ℕ) (p : Page) → Holds n p → Holds (n + asked_count (i ∷ [])) (step i p)
unfolding step asked_count
step-Holds (event c s) n p h =
    subst (λ m. Holds m (on_event c s p)) (plus_zero n) (on_event-Holds n c s p h)
step-Holds (polled b s) n p h =
    subst (λ m. Holds m (poll b s p)) (plus_zero n) (poll-Holds n b s p h)
step-Holds (asked f) n p h =
    subst (λ m. Holds m (when_ready f p)) (plus_one n) (when_ready-Holds n f p h)

asked_count-cons :
    (i : Input) (is : List Input) (n : ℕ)
    → (n + asked_count (i ∷ [])) + asked_count is ≡ n + asked_count (i ∷ is)
unfolding asked_count
asked_count-cons (event c s) is n = omega arith
asked_count-cons (polled b s) is n = omega arith
asked_count-cons (asked f) is n = omega arith

-- If the functions that were called, are scheduled or, while the page is not ready, wait are so many,
-- then after whatever events, tries and functions that come they are so many and those that came.
pub run-Holds :
    (is : List Input) (n : ℕ) (p : Page) → Holds n p → Holds (n + asked_count is) (run is p)
unfolding run asked_count
run-Holds [] n p h = subst (λ m. Holds m p) (plus_zero n) h
run-Holds (i ∷ is) n p h =
    subst (λ m. Holds m (run is (step i p))) (asked_count-cons i is n)
      (run-Holds is (n + asked_count (i ∷ [])) (step i p) (step-Holds i n p h))

on_event-early :
    (p : Page)
    → p.old_browser ≡ true
    → p.ready ≡ false
    → on_event true interactive p ≡ record p { replaced = true }
unfolding on_event
on_event-early p b r =
    let P : Page → Type 0 = λ x. x ≡ record p { replaced = true } in
    if_cases P p.ready _ _ (λ e. absurd (ground (arith, r, e)))
      (λ _.
        if_cases P (not p.old_browser && true) _ _ (λ e. absurd (ground (arith, b, e))) (λ _. refl))

-- In a browser with `createEventObject`, once the event of a page that is not ready has come, a function
-- that is to wait is scheduled at once, though the page is still not ready.
pub when_ready-early :
    (f : ℕ) (p : Page)
    → p.old_browser ≡ true
    → p.ready ≡ false
    → ((when_ready f (on_event true interactive p)).scheduled ≡ p.scheduled ++ f ∷ [])
      × ((when_ready f (on_event true interactive p)).ready ≡ false)
unfolding when_ready push
when_ready-early f p b r =
    let Early : Page → Type 0 = λ x. (x.scheduled ≡ p.scheduled ++ f ∷ []) × (x.ready ≡ false) in
    subst (λ x. Early (when_ready f x)) (sym (on_event-early p b r))
      (if_cases Early p.ready _ _ (λ e. absurd (ground (arith, r, e))) (λ _. (refl, r)))
