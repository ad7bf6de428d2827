-- ===== src/Tags/Rules/Fired.antt =====
-- Which tags are resolved is what the rules say, whatever was computed before and in which order.
use demolition_app.Base.{
  ℕ, zero, suc, ◌+◌, ◌≡◌, refl, ap, ◌∙◌, ==_iff, ltb, leb, ◌==◌, Bool, true, false, not, ◌&&◌, ◌||◌,
  if◌then◌else◌, List, [], ◌∷◌, ◌++◌, Bool-cases, inl, inr, arith,
}
use demolition_app.Tags.Masks.{Rule}
use demolition_app.Tags.Rules.{
  member, Event, passes, note_rule, try_rules, resolved, no_event, resolve_event,
}
use demolition_app.Tags.Rules.Conditions.{Right, rule_holds, passes-Agrees, empty-Right}

member-append : (n : ℕ) (xs ys : List ℕ) → member n (xs ++ ys) ≡ (member n xs || member n ys)
unfolding member
member-append n [] ys = refl
member-append n (x ∷ xs) ys = ground (arith, member-append n xs ys)

leb-zero : (n : ℕ) → leb 0 n ≡ true
leb-zero n = ground arith

module _ (holds : ℕ → Bool) where
  -- Some rule that holds adds the tag; some rule that holds blocks it.
  unfoldable pub is_added : ℕ → List Rule → Bool
  unfolding rule_holds member
  is_added n [] = false
  is_added n (rule ∷ rules) = rule_holds holds rule && member n rule.tags || is_added n rules

  unfoldable pub is_blocked : ℕ → List Rule → Bool
  unfolding rule_holds member
  is_blocked n [] = false
  is_blocked n (rule ∷ rules) = rule_holds holds rule && member n rule.blocked || is_blocked n rules

  -- What the event says of a tag.
  record Tells (n : ℕ) (a b : Bool) (e : Event) : Type 0 where
    added : member n e.added ≡ a
    blocked : member n e.blocked ≡ b

  member_if :
      (v : Bool) (n : ℕ) (xs ys : List ℕ)
      → member n (if v then xs ++ ys else ys) ≡ (v && member n xs || member n ys)
  member_if true n xs ys = member-append n xs ys
  member_if false n xs ys = refl

  or_swap : (a b c : Bool) → ((a || b) || c) ≡ (b || (a || c))
  or_swap true true c = refl
  or_swap true false c = refl
  or_swap false true c = refl
  or_swap false false c = refl

  or_false : (a : Bool) → a ≡ (a || false)
  or_false true = refl
  or_false false = refl

  -- What a rule adds to a list, where its result and the list are known.
  member-joined :
      (v w : Bool) (n : ℕ) (xs ys zs : List ℕ) (rest : Bool)
      → v ≡ w
      → ys ≡ zs
      → (member n (if v then xs ++ ys else ys) || rest)
        ≡ (member n zs || (w && member n xs || rest))
  member-joined v w n xs ys zs rest e f =
      ap (λ (b : Bool). b || rest) (member_if v n xs ys)
      ∙ ap (λ (y : List ℕ). (v && member n xs || member n y) || rest) f
      ∙ ap (λ (u : Bool). (u && member n xs || member n zs) || rest) e
      ∙ or_swap (w && member n xs) (member n zs) rest

  try_rules-Tells :
      (rules : List Rule) (n : ℕ) (e : Event)
      → Right holds e.known
      → Tells n
          (member n e.added || is_added n rules)
          (member n e.blocked || is_blocked n rules)
          (try_rules holds rules e)
  unfolding try_rules note_rule is_added is_blocked
  try_rules-Tells [] n e r = record { added = or_false _; blocked = or_false _ }
  try_rules-Tells (rule ∷ rules) n e r =
      let k = passes-Agrees holds rule e r in
      let p = passes holds rule e in
      let t = try_rules-Tells rules n (note_rule holds rule p) k.known in
      record {
        added =
            t.added
            ∙ member-joined p.value (rule_holds holds rule) n rule.tags p.event.added e.added
                (is_added n rules) k.value k.added;
        blocked =
            t.blocked
            ∙ member-joined p.value (rule_holds holds rule) n rule.blocked p.event.blocked e.blocked
                (is_blocked n rules) k.value k.blocked;
      }

  member-cons_if :
      (v : Bool) (n c : ℕ) (xs : List ℕ)
      → member n (if v then c ∷ xs else xs) ≡ (v && (c == n) || member n xs)
  unfolding member
  member-cons_if true n c xs = refl
  member-cons_if false n c xs = refl

  window :
      (f : ℕ → Bool) (k c n : ℕ) (rest : Bool)
      → rest ≡ (leb (suc c) n && ltb n (suc c + k) && f n)
      → (f c && (c == n) || rest) ≡ (leb c n && ltb n (c + suc k) && f n)
  window f k c n rest h = elim (Bool-cases (c == n)) [
    | inl t ↦ ground (arith, h, t, ap f ((==_iff c n).0 t))
    | inr t ↦ ground (arith, h, t)
  ]

  -- The tags from `c` on that the event says to fire.
  member-resolved :
      (denied : ℕ → Bool) (k c n : ℕ) (e : Event)
      → member n (resolved holds denied k c e) ≡ (
          leb c n
          && ltb n (c + k)
          && (member n e.added && not (member n e.blocked) && not (denied n)))
  unfolding resolved member
  member-resolved denied zero c n e = ground arith
  member-resolved denied (suc k) c n e =
      let f : ℕ → Bool = λ m. member m e.added && not (member m e.blocked) && not (denied m) in
      member-cons_if (f c) n c (resolved holds denied k (suc c) e)
      ∙ window f k c n (member n (resolved holds denied k (suc c) e))
          (member-resolved denied k (suc c) n e)

  -- A tag is among those that an event resolves exactly when it is one of the 97, some rule that holds adds
  -- it, none that holds blocks it, and it is not denied, whichever conditions the rules share.
  pub member-resolve_event :
      (denied : ℕ → Bool) (rules : List Rule) (n : ℕ)
      → member n (resolve_event holds denied rules)
        ≡ (ltb n 97 && (is_added n rules && not (is_blocked n rules) && not (denied n)))
  unfolding resolve_event no_event member
  member-resolve_event denied rules n =
      let t = try_rules-Tells rules n (no_event holds) (empty-Right holds) in
      member-resolved denied 97 0 n (try_rules holds rules (no_event holds))
      ∙ ap
          (λ (z : Bool).
            z
            && ltb n 97
            && (member n (try_rules holds rules (no_event holds)).added
                && not (member n (try_rules holds rules (no_event holds)).blocked)
                && not (denied n)))
          (leb-zero n)
      ∙ ap
          (λ (a : Bool).
            ltb n 97
            && (a
                && not (member n (try_rules holds rules (no_event holds)).blocked)
                && not (denied n)))
          t.added
      ∙ ap (λ (b : Bool). ltb n 97 && (is_added n rules && not b && not (denied n))) t.blocked
