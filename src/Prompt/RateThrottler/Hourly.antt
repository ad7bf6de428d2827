-- ===== src/Prompt/RateThrottler/Hourly.antt =====
-- How many calls the throttle lets through in an hour.
use demolition_app.Base.{
  ℕ, zero, suc, ◌+◌, ◌≡◌, ◌<◌, ◌≤◌, refl, Bool, true, false, Option, some, none, List, [], ◌∷◌,
  ◌++◌, append-nil, append_assoc, ◌==◌, if◌then◌else◌, length, length-append, get_elem?, arith,
  Bool-cases, if_cases, inl, inr, ap, sym, subst, ◌∙◌,
}
use demolition_app.Prompt.RateThrottler.{
  hour, Throttle, trim, new_throttle, expired, shift, exec, accepted,
}

-- Each time lies more than an hour after the one that is n places before it.
abbrev pub Spaced : ℕ → List ℕ → Type 0
Spaced n ts = (k a b : ℕ) → get_elem? ts k ≡ some a → get_elem? ts (k + n) ≡ some b → a + hour < b

-- The times so far: those that the throttle forgot and those that it holds.
record Tracks (past : List ℕ) (s : Throttle) : Type 0 where
  old : List ℕ
  split : past ≡ old ++ s.times
  fits : length s.times ≤ s.limit
  full : length s.times < s.limit → old ≡ []
  spaced : Spaced s.limit past

module _ {ℓ} {A : Type ℓ} where
  get_elem?-append_left :
      (xs ys : List A) (i : ℕ) → i < length xs → get_elem? (xs ++ ys) i ≡ get_elem? xs i
  get_elem?-append_left [] ys i h = absurd (omega arith)
  get_elem?-append_left (x ∷ xs) ys zero h = refl
  get_elem?-append_left (x ∷ xs) ys (suc i) h = get_elem?-append_left xs ys i (omega arith)

  get_elem?-append_right :
      (xs ys : List A) (i j : ℕ) → j ≡ length xs + i → get_elem? (xs ++ ys) j ≡ get_elem? ys i
  get_elem?-append_right [] ys i j h = ap (λ k. get_elem? ys k) (omega (arith, h))
  get_elem?-append_right (x ∷ xs) ys i zero h = absurd (omega (arith, h))
  get_elem?-append_right (x ∷ xs) ys i (suc j) h =
      get_elem?-append_right xs ys i j (omega (arith, h))

  get_elem?-beyond : (xs : List A) (i : ℕ) (a : A) → get_elem? xs i ≡ some a → i < length xs
  get_elem?-beyond [] i a h = absurd (ground (arith, h))
  get_elem?-beyond (x ∷ xs) zero a h = omega arith
  get_elem?-beyond (x ∷ xs) (suc i) a h = omega (arith, get_elem?-beyond xs i a h)

-- A further time keeps the spacing when the one that is n places before it is old enough.
Spaced-append :
    (n now : ℕ) (ts : List ℕ)
    → Spaced n ts
    → ((k a : ℕ) → k + n ≡ length ts → get_elem? ts k ≡ some a → a + hour < now)
    → (zero < n)
    → Spaced n (ts ++ now ∷ [])
Spaced-append n now ts s h z k a b ea eb =
    let top : length (ts ++ now ∷ []) ≡ length ts + 1 = length-append ts (now ∷ []) in
    let low : k + n < length ts + 1 =
      omega (arith, top, get_elem?-beyond (ts ++ now ∷ []) (k + n) b eb) in
    let ea' : get_elem? ts k ≡ some a =
      sym (get_elem?-append_left ts (now ∷ []) k (omega (arith, low, z))) ∙ ea in
    elim (Bool-cases (k + n == length ts)) [
      | inl e ↦
          let last : k + n ≡ length ts = ground (arith, e) in
          let here : some now ≡ some b =
            sym (get_elem?-append_right ts (now ∷ []) 0 (k + n) (omega (arith, last))) ∙ eb in
          ground (arith, h k a last ea', here)
      | inr e ↦
          let inside : k + n < length ts = ground (arith, e, low) in
          s k a b ea' (sym (get_elem?-append_left ts (now ∷ []) (k + n) inside) ∙ eb)
    ]

-- The cases of a call that is let through.
add-Tracks :
    (past : List ℕ) (s : Throttle) (now : ℕ)
    → Tracks past s
    → length s.times < s.limit
    → Tracks (past ++ now ∷ []) (record s { times = s.times ++ now ∷ [] })
add-Tracks past s now t free =
    let same : past ≡ s.times = t.split ∙ ap (λ o. o ++ s.times) (t.full free) in
    record {
      old = [];
      split = ap (λ p. p ++ now ∷ []) same;
      fits = omega (arith, length-append s.times (now ∷ []), free);
      full = λ h. refl;
      spaced =
          Spaced-append s.limit now past t.spaced
            (λ k a e ea. absurd (omega (arith, e, ap length same, free))) (omega (arith, free));
    }

shift-Tracks :
    (past : List ℕ) (limit oldest now : ℕ) (ts : List ℕ)
    → Tracks past (record { limit = limit; times = oldest ∷ ts })
    → suc (length ts) ≡ limit
    → oldest + hour < now
    → Tracks (past ++ now ∷ []) (record { limit = limit; times = ts ++ now ∷ [] })
shift-Tracks past limit oldest now ts t e late = record {
  old = t.old ++ oldest ∷ [];
  split = ap (λ p. p ++ now ∷ []) t.split ∙ simp append_assoc;
  fits = omega (arith, length-append ts (now ∷ []), e);
  full = λ h. absurd (omega (arith, length-append ts (now ∷ []), e, h));
  spaced =
      Spaced-append limit now past t.spaced
        (λ k a ek ea.
          let here : k ≡ length t.old + 0 =
            omega (arith, ek, ap length t.split, length-append t.old (oldest ∷ ts), e) in
          let first : some oldest ≡ some a =
            sym (get_elem?-append_right t.old (oldest ∷ ts) 0 k here)
            ∙ ap (λ p. get_elem? p k) (sym t.split)
            ∙ ea in
          ground (arith, first, late))
        (omega (arith, e));
}

full-Tracks :
    (past : List ℕ) (limit now : ℕ) (times : List ℕ)
    → Tracks past (record { limit = limit; times = times })
    → length times ≡ limit
    → expired now times ≡ true
    → Tracks (past ++ now ∷ []) (record { limit = limit; times = shift times ++ now ∷ [] })
unfolding expired
full-Tracks past limit now [] t e late = absurd (ground (arith, late))
full-Tracks past limit now (oldest ∷ ts) t e late =
    shift-Tracks past limit oldest now ts t e (ground (arith, late))

-- What a call adds to the times that were let through.
exec-Tracks :
    (past : List ℕ) (s : Throttle) (now : ℕ)
    → Tracks past s
    → Tracks (if (exec now s).1 then past ++ now ∷ [] else past) (exec now s).0
unfolding exec
exec-Tracks past s now t =
    let P : Throttle × Bool → Type 0 = λ r. Tracks (if r.1 then past ++ now ∷ [] else past) r.0 in
    if_cases P (length s.times == s.limit)
      (if expired now s.times
        then (record s { times = shift s.times ++ now ∷ [] }, true)
        else (s, false))
      (record s { times = s.times ++ now ∷ [] }, true)
      (λ e.
        if_cases P (expired now s.times) (record s { times = shift s.times ++ now ∷ [] }, true)
          (s, false) (λ late. full-Tracks past s.limit now s.times t (ground (arith, e)) late)
          (λ early. t))
      (λ e. add-Tracks past s now t (ground (arith, e, t.fits)))

exec-limit : (now : ℕ) (s : Throttle) → (exec now s).0.limit ≡ s.limit
unfolding exec
exec-limit now s = ground arith

Spaced-later :
    (ok : Bool) (n now : ℕ) (past later : List ℕ)
    → Spaced n ((if ok then past ++ now ∷ [] else past) ++ later)
    → Spaced n (past ++ (if ok then now ∷ later else later))
Spaced-later true n now past later h = subst (Spaced n) (append_assoc past (now ∷ []) later) h
Spaced-later false n now past later h = h

Spaced-accepted_from :
    (calls past : List ℕ) (s : Throttle) → Tracks past s → Spaced s.limit (past ++ accepted calls s)
unfolding accepted
Spaced-accepted_from [] past s t = subst (Spaced s.limit) (sym (append-nil past)) t.spaced
Spaced-accepted_from (now ∷ calls) past s t =
    let s' = (exec now s).0 in
    let past' = if (exec now s).1 then past ++ now ∷ [] else past in
    Spaced-later (exec now s).1 s.limit now past (accepted calls s') (
      subst (λ n. Spaced n (past' ++ accepted calls s')) (exec-limit now s)
        (Spaced-accepted_from calls past' s' (exec-Tracks past s now t)))

-- With a stored history that is spaced and not too long, or with none, calls at any times are let
-- through so that each comes more than an hour after the one that is `limit` places before it.
Spaced-accepted :
    (calls : List ℕ) (s : Throttle)
    → length s.times ≤ s.limit
    → Spaced s.limit s.times
    → Spaced s.limit (s.times ++ accepted calls s)
Spaced-accepted calls s fits spaced =
    Spaced-accepted_from calls s.times s
      (record { old = []; split = refl; fits = fits; full = λ h. refl; spaced = spaced })

trim-fits : (limit : ℕ) (ts : List ℕ) → length (trim limit ts) ≤ limit
unfolding trim
trim-fits limit [] = omega arith
trim-fits limit (t ∷ ts) = ground (arith, trim-fits limit ts)

-- Whatever history is stored, a new throttle holds no more times than its limit.
new_throttle-fits :
    (limit : ℕ) (stored : Option (List ℕ)) → length (new_throttle limit stored).times ≤ limit
unfolding new_throttle
new_throttle-fits limit none = omega arith
new_throttle-fits limit (some ts) = trim-fits limit ts
