-- ===== src/Tags/Layer/Ids.antt =====
-- The events that are fired have different numbers.
use demolition_app.Base.{
  ℕ, ◌<◌, ◌≡◌, refl, ap, ◌∙◌, ◌==◌, Bool, true, false, ◌||◌, if_elim, str_eq, Option, none, some,
  List, [], ◌∷◌, All, arith,
}
use demolition_app.Tags.Layer.{
  Value, is_true, Object, Arg, text, object, date, other, Message, function, command, arguments,
  plain, bare, of_event, first_of, numbered_by, set_one, of_set, of_js, of_arguments, Layer,
  put_mark, fire_as, fire, handle_object, handle_option, handle, run,
}

-- The numbers go down from below the bound.
abbrev pub Below : ℕ → List (ℕ × Value) → Type 0
Below n [] = Unit
Below n ((m, e) ∷ es) = (m < n) × Below m es

abbrev pub is_used : ℕ → List ℕ → Bool
is_used k [] = false
is_used k (j ∷ js) = j == k || is_used k js

-- An object without a number of its own, which was not pushed before.
abbrev pub IsNew : List ℕ → ℕ → Object → Type 0
IsNew used k o = (o.id ≡ none) × (is_used k used ≡ false)

abbrev pub IsNewArg : List ℕ → Arg → Type 0
IsNewArg used (object k o) = IsNew used k o
IsNewArg used (text s) = Unit
IsNewArg used (date d) = Unit
IsNewArg used (other b) = Unit

abbrev pub Fresh : List ℕ → Message → Type 0
Fresh used (plain k o) = IsNew used k o
Fresh used (arguments as') = All (IsNewArg used) as'
Fresh used (function f) = Unit
Fresh used (command c) = Unit

-- The objects that were pushed, after a message.
abbrev pub pushed : Message → List ℕ → List ℕ
pushed (plain k o) used = k ∷ used
pushed (arguments as') used = used
pushed (function f) used = used
pushed (command c) used = used

abbrev pub AllFresh : List ℕ → List Message → Type 0
AllFresh used [] = Unit
AllFresh used (m ∷ ms) = Fresh used m × AllFresh (pushed m used) ms

-- Objects that were not pushed have no numbers on them.
abbrev pub IsUnmarked : List ℕ → (ℕ → Option ℕ) → Type 0
IsUnmarked used marks = (k : ℕ) → is_used k used ≡ false → marks k ≡ none

abbrev AllUnnumbered : Option Object → Type 0
AllUnnumbered none = Unit
AllUnnumbered (some o) = o.id ≡ none

of_event-Unnumbered : (as' : List Arg) → AllUnnumbered (of_event as')
unfolding of_event bare
of_event-Unnumbered (text e ∷ []) = refl
of_event-Unnumbered (text e ∷ object k o ∷ []) = refl
of_event-Unnumbered (text e ∷ object k o ∷ a ∷ as') = tt
of_event-Unnumbered (text e ∷ text t ∷ as') = tt
of_event-Unnumbered (text e ∷ date d ∷ as') = tt
of_event-Unnumbered (text e ∷ other b ∷ as') = tt
of_event-Unnumbered (object k o ∷ as') = tt
of_event-Unnumbered (date d ∷ as') = tt
of_event-Unnumbered (other b ∷ as') = tt
of_event-Unnumbered [] = tt

numbered_by-none :
    (used : List ℕ) (marks : ℕ → Option ℕ) (k : ℕ) (o : Object)
    → IsUnmarked used marks
    → IsNew used k o
    → (numbered_by (marks k) o).id ≡ none
unfolding numbered_by first_of
numbered_by-none used marks k o u (i, n) = ap (λ x. first_of x (marks k)) i ∙ u k n

of_set-Unnumbered :
    (used : List ℕ) (marks : ℕ → Option ℕ) (as' : List Arg)
    → IsUnmarked used marks
    → All (IsNewArg used) as'
    → AllUnnumbered (of_set marks as')
unfolding of_set bare set_one
of_set-Unnumbered used marks (object k o ∷ []) u (h, t) = numbered_by-none used marks k o u h
of_set-Unnumbered used marks (text k ∷ a ∷ []) u h = refl
of_set-Unnumbered used marks (text k ∷ a ∷ b ∷ as') u h = tt
of_set-Unnumbered used marks (text k ∷ []) u h = tt
of_set-Unnumbered used marks (object k o ∷ a ∷ as') u h = tt
of_set-Unnumbered used marks (date d ∷ as') u h = tt
of_set-Unnumbered used marks (other b ∷ as') u h = tt
of_set-Unnumbered used marks [] u h = tt

of_js-Unnumbered : (as' : List Arg) → AllUnnumbered (of_js as')
unfolding of_js bare
of_js-Unnumbered (date d ∷ []) = refl
of_js-Unnumbered (date d ∷ a ∷ as') = tt
of_js-Unnumbered (text t ∷ as') = tt
of_js-Unnumbered (object k o ∷ as') = tt
of_js-Unnumbered (other b ∷ as') = tt
of_js-Unnumbered [] = tt

of_arguments-Unnumbered :
    (used : List ℕ) (marks : ℕ → Option ℕ) (as' : List Arg)
    → IsUnmarked used marks
    → All (IsNewArg used) as'
    → AllUnnumbered (of_arguments marks as')
unfolding of_arguments
of_arguments-Unnumbered used marks (text c ∷ as') u (t, h) =
    if_elim AllUnnumbered (str_eq c "event") _ _ (of_event-Unnumbered as') (
      if_elim AllUnnumbered (str_eq c "set") _ _ (of_set-Unnumbered used marks as' u h)
        (if_elim AllUnnumbered (str_eq c "js") _ _ (of_js-Unnumbered as') tt))
of_arguments-Unnumbered used marks (object k o ∷ as') u h = tt
of_arguments-Unnumbered used marks (date d ∷ as') u h = tt
of_arguments-Unnumbered used marks (other b ∷ as') u h = tt
of_arguments-Unnumbered used marks [] u h = tt

-- The numbers of the events that were fired are below the next one, and each is below that of the event
-- after it; and no number is on an object that was not pushed.
record IsNumbered (used : List ℕ) (l : Layer) : Type 0 where
  below : Below l.next l.fired
  unmarked : IsUnmarked used l.marks

some-none : {n : ℕ} → some n ≡ none → ⊥
some-none e = cc (e)

-- The objects that were pushed, with the one of a message.
abbrev with_key : Option ℕ → List ℕ → List ℕ
with_key none used = used
with_key (some k) used = k ∷ used

put_mark-IsUnmarked :
    (key : Option ℕ) (n : ℕ) (used : List ℕ) (marks : ℕ → Option ℕ)
    → IsUnmarked used marks
    → IsUnmarked (with_key key used) (put_mark key n marks)
unfolding put_mark
put_mark-IsUnmarked none n used marks u = u
put_mark-IsUnmarked (some k) n used marks u = λ i h.
    let e : is_used i used ≡ false = ground (arith, h) in
    let f : (k == i) ≡ false = ground (arith, h) in rw f (u i e)

with_key-IsUnmarked :
    (key : Option ℕ) (used : List ℕ) (marks : ℕ → Option ℕ)
    → IsUnmarked used marks
    → IsUnmarked (with_key key used) marks
with_key-IsUnmarked none used marks u = u
with_key-IsUnmarked (some k) used marks u = λ i h. u i (ground (arith, h))

fire_as-IsNumbered :
    (key : Option ℕ) (e : Value) (id : Option ℕ) (used : List ℕ) (l : Layer)
    → id ≡ none
    → IsNumbered used l
    → IsNumbered (with_key key used) (fire_as key e id l)
unfolding fire_as
fire_as-IsNumbered key e (some n) used l z h = absurd (some-none z)
fire_as-IsNumbered key e none used l z h = record {
  below = (omega arith, h.below);
  unmarked = put_mark-IsUnmarked key l.next used l.marks h.unmarked;
}

fire-IsNumbered :
    (key : Option ℕ) (event : Option Value) (id : Option ℕ) (used : List ℕ) (l : Layer)
    → id ≡ none
    → IsNumbered used l
    → IsNumbered (with_key key used) (fire key event id l)
unfolding fire
fire-IsNumbered key none id used l z h = record {
  below = h.below;
  unmarked = with_key-IsUnmarked key used l.marks h.unmarked;
}
fire-IsNumbered key (some e) id used l z h =
    if_elim (IsNumbered (with_key key used)) (is_true e) _ _
      (fire_as-IsNumbered key e id used l z h)
      (record { below = h.below; unmarked = with_key-IsUnmarked key used l.marks h.unmarked })

handle_object-IsNumbered :
    (key : Option ℕ) (o : Object) (used : List ℕ) (l : Layer)
    → o.id ≡ none
    → IsNumbered used l
    → IsNumbered (with_key key used) (handle_object key o l)
unfolding handle_object
handle_object-IsNumbered key o used l z h =
    let f =
      fire-IsNumbered key o.event o.id used _ z
        (record { below = h.below; unmarked = h.unmarked }) in
    record { below = f.below; unmarked = f.unmarked }

handle_option-IsNumbered :
    (o : Option Object) (used : List ℕ) (l : Layer)
    → AllUnnumbered o
    → IsNumbered used l
    → IsNumbered used (handle_option o l)
unfolding handle_option
handle_option-IsNumbered none used l u h = h
handle_option-IsNumbered (some o) used l u h = handle_object-IsNumbered none o used l u h

handle-IsNumbered :
    (m : Message) (used : List ℕ) (l : Layer)
    → Fresh used m
    → IsNumbered used l
    → IsNumbered (pushed m used) (handle m l)
unfolding handle
handle-IsNumbered (function f) used l u h = record { below = h.below; unmarked = h.unmarked }
handle-IsNumbered (command c) used l u h = record { below = h.below; unmarked = h.unmarked }
handle-IsNumbered (arguments as') used l u h =
    handle_option-IsNumbered (of_arguments l.marks as') used (record l { model = none })
      (of_arguments-Unnumbered used l.marks as' h.unmarked u)
      (record { below = h.below; unmarked = h.unmarked })
handle-IsNumbered (plain k o) used l u h =
    handle_object-IsNumbered (some k) (numbered_by (l.marks k) o) used (record l { model = none })
      (numbered_by-none used l.marks k o h.unmarked u)
      (record { below = h.below; unmarked = h.unmarked })

run-Below :
    (ms : List Message) (used : List ℕ) (l : Layer)
    → AllFresh used ms
    → IsNumbered used l
    → Below (run ms l).next (run ms l).fired
unfolding run
run-Below [] used l u h = h.below
run-Below (m ∷ ms) used l (u, us) h =
    run-Below ms (pushed m used) (handle m l) us (handle-IsNumbered m used l u h)

-- If it was so before, and numbers are only on objects that were pushed, then after messages whose objects
-- bring no numbers of their own and are pushed once, each event that was fired has a number below that of
-- the next, so that no two have the same, and all are below the number that comes next.
pub run-IsNumbered :
    (used : List ℕ) (ms : List Message) (l : Layer)
    → AllFresh used ms
    → IsUnmarked used l.marks
    → Below l.next l.fired
    → Below (run ms l).next (run ms l).fired
run-IsNumbered used ms l u m h = run-Below ms used l u (record { below = h; unmarked = m })

-- An object that is pushed again, without a number of its own, fires its event once more with the number of
-- the first time.
pub handle-again :
    (k : ℕ) (o : Object) (e : Value) (l : Layer)
    → o.id ≡ none
    → o.event ≡ some e
    → is_true e ≡ true
    → l.marks k ≡ none
    → (handle (plain k o) (handle (plain k o) l)).fired ≡ ((l.next, e) ∷ (l.next, e) ∷ l.fired)
unfolding handle handle_object numbered_by first_of fire fire_as put_mark
handle-again k o e l i v t m =
    let same : (k == k) ≡ true = ground arith in simp (v, i, m, t, same) refl
