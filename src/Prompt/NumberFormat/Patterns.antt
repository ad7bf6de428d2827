-- ===== src/Prompt/NumberFormat/Patterns.antt =====
-- What the settings of a pattern satisfy.
use demolition_app.Base.{
  ℕ, suc, ◌+◌, ◌≡◌, ◌≤◌, ◌⊎◌, inl, inr, refl, sym, subst, ◌∙◌, Bool, true, false, ◌&&◌, ◌==◌,
  Option, some, none, List, [], ◌∷◌, ◌++◌, All, ltb, leb, if◌then◌else◌, ◌>>=◌, if_elim, if_cases,
  Option-cases, arith,
}
use demolition_app.Prompt.NumberFormat.{
  Scan, start, count_group, close_group, Reading, ends, fails, reads, read_hash, read_zero,
  read_comma, read_point, read_unit, read_exponent, read_sign, scan, adjust, adjust_at,
  is_malformed, Format, format_of, parse_pattern,
}

-- The point stands within what was read, no digit follows a "#" but a "0", and the groups that were
-- closed are not empty.
record IsSound (s : Scan) : Type 0 where
  pub point_within : (d : ℕ) → s.point ≡ some d → d ≤ s.lead + s.zeros + s.tail
  pub tail_last : 1 ≤ s.tail → 1 ≤ s.zeros
  pub positive : All (λ k. 1 ≤ k) s.groups
  pub ungrouped : s.group ≡ none → s.groups ≡ []

reading-IsSound : Reading → Type 0
reading-IsSound ends = Unit
reading-IsSound fails = Unit
reading-IsSound (reads s) = IsSound s

count_group-none : (s : Scan) → count_group s ≡ none → s.group ≡ none
unfolding count_group
count_group-none s h = ground (arith, h)

All-snoc : (k : ℕ) (ks : List ℕ) → 1 ≤ k → All (λ k. 1 ≤ k) ks → All (λ k. 1 ≤ k) (ks ++ k ∷ [])
All-snoc k [] p a = (p, tt)
All-snoc k (j ∷ ks) p (q, a) = (q, All-snoc k ks p a)

read_hash-IsSound : (s : Scan) → IsSound s → IsSound (read_hash s)
unfolding read_hash
read_hash-IsSound s v = record {
  point_within = λ d e. ground (arith, e, v.point_within d);
  tail_last = λ h. ground (arith, h, v.tail_last);
  positive = v.positive;
  ungrouped = λ e. v.ungrouped (count_group-none s e);
}

close_group-positive :
    (o : Option ℕ) (ks : List ℕ) → All (λ k. 1 ≤ k) ks → All (λ k. 1 ≤ k) (close_group o ks)
unfolding close_group
close_group-positive none ks a = a
close_group-positive (some k) ks a =
    if_cases (All (λ k. 1 ≤ k)) (ltb 0 k) _ _ (λ e. All-snoc k ks (ground (arith, e)) a) (λ e. a)

read_comma-IsSound : (s : Scan) → IsSound s → IsSound (read_comma s)
unfolding read_comma
read_comma-IsSound s v = record {
  point_within = v.point_within;
  tail_last = v.tail_last;
  positive = close_group-positive s.group s.groups v.positive;
  ungrouped = λ e. absurd (ground (arith, e));
}

read_zero-IsSound : (s : Scan) → IsSound s → reading-IsSound (read_zero s)
unfolding read_zero reading-IsSound
read_zero-IsSound s v = if_elim reading-IsSound (ltb 0 s.tail) _ _ tt (record {
  point_within = λ d e. ground (arith, e, v.point_within d);
  tail_last = λ h. omega arith;
  positive = v.positive;
  ungrouped = λ e. v.ungrouped (count_group-none s e);
})

read_point-IsSound : (s : Scan) → IsSound s → reading-IsSound (read_point s)
unfolding read_point reading-IsSound
read_point-IsSound s v = from_point s.point
  where
    from_point :
        (o : Option ℕ)
        → reading-IsSound (elim o [
          | none ↦ reads (record s { point = some (s.lead + s.zeros + s.tail) })
          | some d ↦ fails
        ])
    from_point none = record {
      point_within = λ d e. ground (arith, e);
      tail_last = v.tail_last;
      positive = v.positive;
      ungrouped = v.ungrouped;
    }
    from_point (some d) = tt

read_unit-IsSound : (c : ℕ) (s : Scan) → IsSound s → reading-IsSound (read_unit c s)
unfolding read_unit reading-IsSound
read_unit-IsSound c s v = if_elim reading-IsSound (c == 35) _ _ (read_hash-IsSound s v) (
    if_elim reading-IsSound (c == 48) _ _ (read_zero-IsSound s v) (
      if_elim reading-IsSound (c == 44) _ _ (read_comma-IsSound s v)
        (if_elim reading-IsSound (c == 46) _ _ (read_point-IsSound s v) tt)))

-- What a part of the loop returns, if it returns, is sound.
abbrev result-IsSound : Option (Scan × List ℕ) → Type 0
result-IsSound none = Unit
result-IsSound (some (s, cs)) = IsSound s

exponent-IsSound :
    (s : Scan) (plus : Bool) (n : ℕ)
    → IsSound s
    → IsSound (record s { exponent = true; plus = plus; exponent_digits = n })
exponent-IsSound s plus n v = record {
  point_within = v.point_within;
  tail_last = v.tail_last;
  positive = v.positive;
  ungrouped = v.ungrouped;
}

read_exponent-IsSound :
    (n : ℕ) (cs : List ℕ) (s : Scan) → IsSound s → result-IsSound (read_exponent n cs s)
unfolding read_exponent
read_exponent-IsSound n [] s v =
    if_elim result-IsSound (leb 1 (s.lead + s.zeros) && leb 1 n) _ _ (exponent-IsSound s s.plus n v)
      tt
read_exponent-IsSound n (c ∷ cs) s v =
    if_elim result-IsSound (c == 48) _ _ (read_exponent-IsSound (suc n) cs s v) (
      if_elim result-IsSound (leb 1 (s.lead + s.zeros) && leb 1 n) _ _
        (exponent-IsSound s s.plus n v) tt)

read_sign-IsSound : (cs : List ℕ) (s : Scan) → IsSound s → result-IsSound (read_sign cs s)
unfolding read_sign
read_sign-IsSound [] s v = read_exponent-IsSound 0 [] s v
read_sign-IsSound (c ∷ cs) s v =
    if_elim result-IsSound (c == 43) _ _
      (read_exponent-IsSound 0 cs (record s { plus = true })
        (record {
          point_within = v.point_within;
          tail_last = v.tail_last;
          positive = v.positive;
          ungrouped = v.ungrouped;
        }))
      (read_exponent-IsSound 0 (c ∷ cs) s v)

scan-IsSound : (cs : List ℕ) (s : Scan) → IsSound s → result-IsSound (scan cs s)
unfolding scan reading-IsSound
scan-IsSound [] s v = v
scan-IsSound (c ∷ cs) s v =
    if_elim result-IsSound (c == 69) _ _ (read_sign-IsSound cs s v)
      (further (λ t. scan-IsSound cs t) (read_unit c s) (read_unit-IsSound c s v))
  where
    further :
        ((t : Scan) → IsSound t → result-IsSound (scan cs t))
        → (r : Reading) → reading-IsSound r
        → result-IsSound (elim r [ ends ↦ some (s, c ∷ cs) | fails ↦ none | reads t ↦ scan cs t ])
    further later ends h = v
    further later fails h = tt
    further later (reads t) h = later t h

-- The fraction has room for its digits, a number with an exponent has a digit, and either there is one group, which is empty, or no group
-- is.
pub record IsFit (f : Format) : Type 0 where
  pub fraction : f.min_fraction ≤ f.max_fraction
  pub exponent_room : f.exponent ≡ true → 1 ≤ f.min_integer + f.max_fraction
  pub grouped : (f.groups ≡ 0 ∷ []) ⊎ All (λ k. 1 ≤ k) f.groups

adjust_at-groups :
    (o : Option ℕ) (s : Scan)
    → ((adjust_at o s).group ≡ s.group) × ((adjust_at o s).groups ≡ s.groups)
unfolding adjust_at
adjust_at-groups none s = (refl, refl)
adjust_at-groups (some d) s =
    if_elim (λ (t : Scan). (t.group ≡ s.group) × (t.groups ≡ s.groups))
      (s.zeros == 0 && ltb 0 s.lead) _ _ (refl, refl) (refl, refl)

format_of-IsFit :
    (s : Scan)
    → ((k : ℕ) → s.group ≡ some k → 1 ≤ k)
    → All (λ k. 1 ≤ k) s.groups
    → (s.group ≡ none → s.groups ≡ [])
    → IsFit (format_of s)
unfolding format_of
format_of-IsFit s k p u = record {
  fraction = ground arith;
  exponent_room = λ e. ground (arith, e);
  grouped = elim (Option-cases s.group) [
    | inl n ↦ inl (rw (n, u n) refl)
    | inr (k₀, e) ↦ inr (rw e (All-snoc k₀ s.groups (k k₀ e) p))
  ];
}

wellformed-group : (s : Scan) → is_malformed s ≡ false → (k : ℕ) → s.group ≡ some k → 1 ≤ k
unfolding is_malformed
wellformed-group s h k e = ground (arith, h, e)

abbrev outcome-IsFit : Option (Format × List ℕ) → Type 0
outcome-IsFit none = Unit
outcome-IsFit (some (f, cs)) = IsFit f

finish-IsFit :
    (s : Scan) (rest : List ℕ)
    → IsSound s
    → outcome-IsFit (if is_malformed (adjust s) then none else some (format_of (adjust s), rest))
unfolding adjust
finish-IsFit s rest v =
    let same = adjust_at-groups s.point s in
    if_cases outcome-IsFit (is_malformed (adjust s)) _ _ (λ e. tt)
      (λ e.
        format_of-IsFit (adjust s) (wellformed-group (adjust s) e) (rw same.1 v.positive)
          (λ n. same.1 ∙ v.ungrouped (sym same.0 ∙ n)))

start-IsSound : IsSound start
unfolding start
start-IsSound = record {
  point_within = λ d e. absurd (ground (arith, e));
  tail_last = λ h. absurd (omega (arith, h));
  positive = tt;
  ungrouped = λ e. refl;
}

-- Every pattern that is accepted gives settings where the least number of fraction digits is not
-- above the greatest one, a number with an exponent has a digit, and either there is one group,
-- which is empty, or no group is.
parse_pattern-IsFit :
    (cs : List ℕ) (f : Format) (rest : List ℕ) → parse_pattern cs ≡ some (f, rest) → IsFit f
unfolding parse_pattern
parse_pattern-IsFit cs f rest e =
    subst outcome-IsFit e (outcome (scan cs start) (scan-IsSound cs start start-IsSound))
  where
    outcome :
        (o : Option (Scan × List ℕ))
        → result-IsSound o
        → outcome-IsFit (
            o >>= λ (s, rest).
            if is_malformed (adjust s) then none else some (format_of (adjust s), rest))
    outcome none h = tt
    outcome (some (s, rest)) h = finish-IsFit s rest h
