-- ===== src/Tags/Rules/Conditions.antt =====
-- The conditions of a rule, and the rule, hold as they are computed, whatever was computed before.
use demolition_app.Base.{
  ℕ, ◌≡◌, refl, sym, ap, ◌∙◌, ==_iff, subst, ◌==◌, Bool, true, false, not, ◌&&◌, if◌then◌else◌,
  if_cases, Option, none, some, List, [], ◌∷◌, Bool-cases, inl, inr, arith,
}
use demolition_app.Tags.Masks.{Rule}
use demolition_app.Tags.Rules.{
  Event, known_result, Result, of_known, compute, fails_at, holds_at, no_exception, all_hold,
  passes,
}

none-some : {b : Bool} → none ≡ some b → ⊥
none-some e = cc (e)

some_injective : {a b : Bool} → some a ≡ some b → b ≡ a
some_injective e = cc (e)

and_assoc : (a b c : Bool) → (a && (b && c)) ≡ ((a && b) && c)
and_assoc true b c = refl
and_assoc false b c = refl

module _ (holds : ℕ → Bool) where
  -- What is kept of the conditions is right.
  abbrev pub Right : List (ℕ × Bool) → Type 0
  Right ks = (n : ℕ) (b : Bool) → known_result n ks ≡ some b → b ≡ holds n

  -- A result for an event, which adds and blocks nothing.
  pub record Agrees (v : Bool) (e : Event) (r : Result holds) : Type 0 where
    pub value : r.value ≡ v
    pub known : Right r.event.known
    pub added : r.event.added ≡ e.added
    pub blocked : r.event.blocked ≡ e.blocked

  put-Right : (m : ℕ) (ks : List (ℕ × Bool)) → Right ks → Right ((m, holds m) ∷ ks)
  unfolding known_result
  put-Right m ks r n b e = elim (Bool-cases (m == n)) [
    | inl t ↦
        subst (λ i. b ≡ holds i) ((==_iff m n).0 t)
          (some_injective (sym (ap (λ c. if c then some (holds m) else known_result n ks) t) ∙ e))
    | inr t ↦ r n b (sym (ap (λ c. if c then some (holds m) else known_result n ks) t) ∙ e)
  ]

  of_known-Agrees :
      (o : Option Bool) (n : ℕ) (e : Event)
      → known_result n e.known ≡ o
      → Right e.known
      → Agrees (holds n) e (of_known holds o n e)
  unfolding of_known
  of_known-Agrees (some b) n e k r = record {
    value = r n b k;
    known = r;
    added = refl;
    blocked = refl;
  }
  of_known-Agrees none n e k r = record {
    value = refl;
    known = put-Right n e.known r;
    added = refl;
    blocked = refl;
  }

  compute-Agrees : (n : ℕ) (e : Event) → Right e.known → Agrees (holds n) e (compute holds n e)
  unfolding compute
  compute-Agrees n e r = of_known-Agrees (known_result n e.known) n e refl r

  fails_at-Agrees :
      (v w : Bool) (e : Event) (r rest : Result holds)
      → Agrees v e r
      → Agrees w r.event rest
      → Agrees (v && w) e (fails_at holds r rest)
  unfolding fails_at
  fails_at-Agrees v w e r rest a b =
      if_cases (Agrees (v && w) e) r.value _ _
        (λ t. record {
          value = ground (arith, t, a.value, b.value);
          known = b.known;
          added = b.added ∙ a.added;
          blocked = b.blocked ∙ a.blocked;
        })
        (λ t. record {
          value = ground (arith, t, a.value);
          known = a.known;
          added = a.added;
          blocked = a.blocked;
        })

  holds_at-Agrees :
      (v w : Bool) (e : Event) (r rest : Result holds)
      → Agrees v e r
      → Agrees w r.event rest
      → Agrees (not v && w) e (holds_at holds r rest)
  unfolding holds_at
  holds_at-Agrees v w e r rest a b =
      if_cases (Agrees (not v && w) e) r.value _ _
        (λ t. record {
          value = ground (arith, t, a.value);
          known = a.known;
          added = a.added;
          blocked = a.blocked;
        })
        (λ t. record {
          value = ground (arith, t, a.value, b.value);
          known = b.known;
          added = b.added ∙ a.added;
          blocked = b.blocked ∙ a.blocked;
        })

  -- No exception holds; all conditions hold.
  unfoldable none_of : List ℕ → Bool
  none_of [] = true
  none_of (n ∷ ns) = not (holds n) && none_of ns

  unfoldable all_of : List ℕ → Bool
  all_of [] = true
  all_of (n ∷ ns) = holds n && all_of ns

  no_exception-Agrees :
      (ns : List ℕ) (e : Event) → Right e.known → Agrees (none_of ns) e (no_exception holds ns e)
  unfolding no_exception none_of
  no_exception-Agrees [] e r = record { value = refl; known = r; added = refl; blocked = refl }
  no_exception-Agrees (n ∷ ns) e r =
      let a = compute-Agrees n e r in
      holds_at-Agrees (holds n) (none_of ns) e (compute holds n e) _ a
        (no_exception-Agrees ns (compute holds n e).event a.known)

  -- A rule holds.
  unfoldable pub rule_holds : Rule → Bool
  unfolding none_of all_of
  rule_holds rule = all_of rule.conditions && none_of rule.exceptions

  all_hold-Agrees :
      (ns exceptions : List ℕ) (e : Event)
      → Right e.known
      → Agrees (all_of ns && none_of exceptions) e (all_hold holds ns exceptions e)
  unfolding all_hold all_of
  all_hold-Agrees [] exceptions e r = no_exception-Agrees exceptions e r
  all_hold-Agrees (n ∷ ns) exceptions e r =
      let a = compute-Agrees n e r in
      let b =
        fails_at-Agrees (holds n) (all_of ns && none_of exceptions) e (compute holds n e) _ a
          (all_hold-Agrees ns exceptions (compute holds n e).event a.known) in
      subst (λ v. Agrees v e (all_hold holds (n ∷ ns) exceptions e)) (and_assoc (holds n) _ _) b

  pub passes-Agrees :
      (rule : Rule) (e : Event) → Right e.known → Agrees (rule_holds rule) e (passes holds rule e)
  unfolding passes rule_holds
  passes-Agrees rule e r = all_hold-Agrees rule.conditions rule.exceptions e r

  pub empty-Right : Right []
  unfolding known_result
  empty-Right n b e = absurd (none-some e)
