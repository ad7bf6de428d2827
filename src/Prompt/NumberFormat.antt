-- ===== src/Prompt/NumberFormat.antt =====
-- The number format `ml`: how its pattern is read, and what is chosen by a number's size. A text is
-- the list of its code units.
pub mod Patterns
pub mod Affixes
mod Examples
use demolition_app.Base.{
  ℕ, zero, suc, ◌+◌, ◌-◌, ◌%◌, ◌/◌, ◌==◌, String, Bool, true, false, not, ◌&&◌, ◌||◌, Option, some,
  none, List, [], ◌∷◌, ◌++◌, length, ltb, leb, if◌then◌else◌, ◌>>=◌,
}

-- The variables `e`, `g`, `h`, `d` and `k` of `ml`, with none for -1; `Ud`, `Ki`, `Wo` and `Xh`.
pub record Scan : Type 0 where
  pub lead : ℕ
  pub zeros : ℕ
  pub tail : ℕ
  pub point : Option ℕ
  pub group : Option ℕ
  pub groups : List ℕ
  pub exponent : Bool
  pub plus : Bool
  pub exponent_digits : ℕ

pub start : Scan
start = record {
  lead = 0;
  zeros = 0;
  tail = 0;
  point = none;
  group = none;
  groups = [];
  exponent = false;
  plus = false;
  exponent_digits = 0;
}

-- `0<=k&&0>d&&k++`
pub count_group : Scan → Option ℕ
count_group s = elim s.group [
  | none ↦ none
  | some k ↦ elim s.point [ none ↦ some (suc k) | some d ↦ some k ]
]

-- What a code unit does: the pattern ends before it, it is wrong, or it is read.
pub data Reading : Type 0 where
  ends fails : Reading
  reads : Scan → Reading

-- `case "#"`
pub read_hash : Scan → Scan
unfolding count_group
read_hash s = record s {
  lead = if ltb 0 s.zeros then s.lead else suc s.lead;
  tail = if ltb 0 s.zeros then suc s.tail else s.tail;
  group = count_group s;
}

-- `case "0"`
pub read_zero : Scan → Reading
unfolding count_group
read_zero s =
    if ltb 0 s.tail then fails else reads (record s { zeros = suc s.zeros; group = count_group s })

-- `0<k&&Ud.push(k)`
pub close_group : Option ℕ → List ℕ → List ℕ
close_group none ks = ks
close_group (some k) ks = if ltb 0 k then ks ++ k ∷ [] else ks

-- `case ","`
pub read_comma : Scan → Scan
unfolding close_group
read_comma s = record s { groups = close_group s.group s.groups; group = some 0 }

-- `case "."`
pub read_point : Scan → Reading
read_point s = elim s.point [
  | none ↦ reads (record s { point = some (s.lead + s.zeros + s.tail) })
  | some d ↦ fails
]

-- The cases but that of "E".
pub read_unit : ℕ → Scan → Reading
unfolding read_hash read_zero read_comma read_point
read_unit c s =
    if c == 35
    then reads (read_hash s)
    else if c == 48
    then read_zero s
    else if c == 44
    then reads (read_comma s)
    else if c == 46
    then read_point s
    else ends

-- The zeros of the exponent.
pub read_exponent : ℕ → List ℕ → Scan → Option (Scan × List ℕ)
read_exponent n [] s =
    if leb 1 (s.lead + s.zeros) && leb 1 n
    then some (record s { exponent = true; exponent_digits = n }, [])
    else none
read_exponent n (c ∷ cs) s =
    let rest = read_exponent (suc n) cs s in
    if c == 48
    then rest
    else if leb 1 (s.lead + s.zeros) && leb 1 n
    then some (record s { exponent = true; exponent_digits = n }, c ∷ cs)
    else none

-- `case "E"`, with its sign.
pub read_sign : List ℕ → Scan → Option (Scan × List ℕ)
unfolding read_exponent
read_sign [] s = read_exponent 0 [] s
read_sign (c ∷ cs) s =
    if c == 43 then read_exponent 0 cs (record s { plus = true }) else read_exponent 0 (c ∷ cs) s

-- The loop of `ml`; none when it throws.
pub scan : List ℕ → Scan → Option (Scan × List ℕ)
unfolding read_unit read_sign
scan [] s = some (s, [])
scan (c ∷ cs) s =
    let further : Option (Scan × List ℕ) = elim (read_unit c s) [
      | ends ↦ some (s, c ∷ cs)
      | fails ↦ none
      | reads t ↦ scan cs t
    ] in
    if c == 69 then read_sign cs s else further

-- `g=d,0==g&&g++,h=e-g,e=g-1,g=1`
pub adjust_at : Option ℕ → Scan → Scan
adjust_at none s = s
adjust_at (some d) s =
    let g = if d == 0 then 1 else d in
    if s.zeros == 0 && ltb 0 s.lead
    then record s { tail = s.lead - g; lead = g - 1; zeros = 1 }
    else s

pub adjust : Scan → Scan
unfolding adjust_at
adjust s = adjust_at s.point s

-- `0>d&&0<h||0<=d&&(d<e||d>e+g)||0==k`
pub is_malformed : Scan → Bool
is_malformed s =
    let wrong : Bool = elim s.point [
      | none ↦ ltb 0 s.tail
      | some d ↦ ltb d s.lead || ltb (s.lead + s.zeros) d
    ] in
    let open_group : Bool = elim s.group [ none ↦ false | some k ↦ k == 0 ] in wrong || open_group

-- `ce`, `de`, `Ub`, `Ud`, `Ki`, `Xh`, `Wo` and `Cm`.
pub record Format : Type 0 where
  pub max_fraction : ℕ
  pub min_fraction : ℕ
  pub min_integer : ℕ
  pub groups : List ℕ
  pub exponent : Bool
  pub exponent_digits : ℕ
  pub plus : Bool
  pub always_point : Bool

-- The settings that `ml` computes from its variables.
pub format_of : Scan → Format
format_of s =
    let total = s.lead + s.zeros + s.tail in
    let max : ℕ = elim s.point [ none ↦ 0 | some d ↦ total - d ] in
    let min : ℕ = elim s.point [ none ↦ 0 | some d ↦ s.lead + s.zeros - d ] in
    let whole : ℕ = elim s.point [ none ↦ total - s.lead | some d ↦ d - s.lead ] in
    let last : ℕ = elim s.group [ none ↦ 0 | some k ↦ k ] in
    let always : Bool = elim s.point [ none ↦ false | some d ↦ d == 0 || d == total ] in
    record {
      max_fraction = max;
      min_fraction = min;
      min_integer = if s.exponent && max == 0 && whole == 0 then 1 else whole;
      groups = s.groups ++ last ∷ [];
      exponent = s.exponent;
      exponent_digits = s.exponent_digits;
      plus = s.plus;
      always_point = always;
    }

-- `ml` on a pattern after its prefix, with what is left of it.
pub parse_pattern : List ℕ → Option (Format × List ℕ)
unfolding scan adjust is_malformed format_of
parse_pattern cs = do
  (s₀, rest) ← scan cs start
  let s = adjust s₀
  if is_malformed s then none else some (format_of s, rest)
