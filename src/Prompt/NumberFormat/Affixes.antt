-- ===== src/Prompt/NumberFormat/Affixes.antt =====
-- The text before or after the digits of a pattern, which `ll` reads.
use demolition_app.Base.{
  ℕ, ◌≡◌, ◌≢◌, inl, inr, refl, ap, Bool, true, false, not, ◌&&◌, ◌||◌, ◌==◌, Option, some, none,
  List, [], ◌∷◌, ◌++◌, ==_iff, if◌then◌else◌, if_cases, Bool-cases, arith,
}

-- `Gb` and `ge`
pub record Multiplier : Type 0 where
  pub factor : ℕ
  pub inherited : Bool

-- What a code unit does: the text ends before it, it is wrong, or it adds a text, uses up the next
-- one or not, opens or closes a quotation or not, and sets the multiplier.
pub data Effect : Type 0 where
  ends fails : Effect
  adds : List ℕ → Bool → Bool → Multiplier → Effect

pub is_next : ℕ → List ℕ → Bool
is_next c [] = false
is_next c (d ∷ ds) = d == c

-- `case "%"` and the other one of a part of a whole.
pub scale : ℕ → ℕ → Multiplier → Effect
scale c factor m =
    if not m.inherited && not (m.factor == 1)
    then fails
    else if m.inherited && not (m.factor == factor)
    then fails
    else adds (c ∷ []) false false (record { factor = factor; inherited = false })

unfoldable pub is_special : ℕ → Bool
is_special c = c == 35 || c == 48 || c == 44 || c == 46 || c == 59

-- The loop's body; `code` and `sign` are the texts of the currency.
pub effect : List ℕ → List ℕ → ℕ → List ℕ → Bool → Multiplier → Effect
unfolding is_next is_special scale
effect code sign c cs quoted m =
    if c == 39
    then if is_next 39 cs then adds (39 ∷ []) true quoted m else adds [] false (not quoted) m
    else if quoted
    then adds (c ∷ []) false true m
    else if is_special c
    then ends
    else if c == 164
    then if is_next 164 cs then adds code true false m else adds sign false false m
    else if c == 37
    then scale 37 100 m
    else if c == 8240
    then scale 8240 1000 m
    else adds (c ∷ []) false false m

-- A text, the multiplier and what is left, with more text before it.
pub prepend : List ℕ → Option (List ℕ × Multiplier × List ℕ) → Option (List ℕ × Multiplier × List ℕ)
prepend xs none = none
prepend xs (some (ys, m, cs)) = some (xs ++ ys, m, cs)

-- `ll`, from a unit on that is used up already or not; none when it throws.
pub affix :
    List ℕ → List ℕ → List ℕ → Bool → Bool → Multiplier → Option (List ℕ × Multiplier × List ℕ)
unfolding effect prepend
affix code sign [] used quoted m = some ([], m, [])
affix code sign (c ∷ cs) true quoted m = affix code sign cs false quoted m
affix code sign (c ∷ cs) false quoted m = elim (effect code sign c cs quoted m) [
  | ends ↦ some ([], m, c ∷ cs)
  | fails ↦ none
  | adds xs used q n ↦ prepend xs (affix code sign cs used q n)
]

-- A text with its quotes doubled.
pub double_quotes : List ℕ → List ℕ
double_quotes [] = []
double_quotes (c ∷ cs) = let rest = double_quotes cs in if c == 39 then 39 ∷ 39 ∷ rest else c ∷ rest

-- Where a text ends: at the end of the pattern or at a unit with a meaning for digits.
unfoldable pub Stops : List ℕ → Type 0
Stops [] = Unit
Stops (c ∷ cs) = is_special c ≡ true

stop-not_quote : (cs : List ℕ) → Stops cs → is_next 39 cs ≡ false
unfolding Stops is_special is_next
stop-not_quote [] h = refl
stop-not_quote (c ∷ cs) h = ground (arith, h)

not-next :
    (c : ℕ) (t rest : List ℕ) → c ≢ 39 → is_next 39 (double_quotes (c ∷ t) ++ 39 ∷ rest) ≡ false
unfolding is_next double_quotes
not-next c t rest d =
    if_cases (λ cs. is_next 39 (cs ++ 39 ∷ rest) ≡ false) (c == 39) _ _
      (λ e. absurd (d ((==_iff c 39).0 e))) (λ e. e)

module _ (code sign : List ℕ) (m : Multiplier) where
  effect-special :
      (c : ℕ) (cs : List ℕ) → is_special c ≡ true → effect code sign c cs false m ≡ ends
  unfolding effect is_special
  effect-special c cs h = ground (arith, h)

  affix-stop : (cs : List ℕ) → Stops cs → affix code sign cs false false m ≡ some ([], m, cs)
  unfolding affix Stops
  affix-stop [] h = refl
  affix-stop (c ∷ cs) h = rw (affix, effect-special c cs h) refl

  effect-close :
      (cs : List ℕ) (q : Bool)
      → is_next 39 cs ≡ false
      → effect code sign 39 cs q m ≡ adds [] false (not q) m
  unfolding effect
  effect-close cs q h = rw h refl

  effect-other :
      (c : ℕ) (cs : List ℕ)
      → (c == 39) ≡ false
      → effect code sign c cs true m ≡ adds (c ∷ []) false true m
  unfolding effect
  effect-other c cs h = rw h refl

  affix-quoted :
      (t rest : List ℕ)
      → Stops rest
      → affix code sign (double_quotes t ++ 39 ∷ rest) false true m ≡ some (t, m, rest)
  unfolding affix prepend double_quotes
  affix-quoted [] rest h =
      rw (affix, effect-close rest true (stop-not_quote rest h))
        (ap (prepend []) (affix-stop rest h))
  affix-quoted (c ∷ t) rest h = elim (Bool-cases (c == 39)) [
    | inl e ↦ rw e (rw ((==_iff c 39).0 e) (ap (prepend (39 ∷ [])) (affix-quoted t rest h)))
    | inr e ↦ rw e (
        rw (affix, effect-other c (double_quotes t ++ 39 ∷ rest) e)
          (ap (prepend (c ∷ [])) (affix-quoted t rest h)))
  ]

-- A text that does not begin with a quote is read back when it stands in quotes with its own quotes
-- doubled, before the end or a unit with a meaning for digits, and the multiplier stays as it is.
affix-double_quotes :
    (code sign : List ℕ) (m : Multiplier) (c : ℕ) (t rest : List ℕ)
    → c ≢ 39
    → Stops rest
    → affix code sign (39 ∷ double_quotes (c ∷ t) ++ 39 ∷ rest) false false m
      ≡ some (c ∷ t, m, rest)
unfolding affix prepend
affix-double_quotes code sign m c t rest d h =
    rw
      (
        affix,
        effect-close code sign m (double_quotes (c ∷ t) ++ 39 ∷ rest) false (not-next c t rest d),
      )
      (ap (prepend []) (affix-quoted code sign m (c ∷ t) rest h))
