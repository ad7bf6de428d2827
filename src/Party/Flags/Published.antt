-- ===== src/Party/Flags/Published.antt =====
-- What the database holds after the host's `viewDidLoad`.
use demolition_app.Base.Decimal.{decimal}
use demolition_app.Base.{
  ℕ, zero, suc, ◌+◌, String, ◌≡◌, refl, ◌∙◌, inl, inr, ◌⊎◌, some, List, [], ◌∷◌, ◌++◌, Bool, true,
  false, ◌&&◌, str_eq, if◌then◌else◌, length, get_elem?, arith, Bool-cases,
}
use demolition_app.Party.Database.{
  DbPath, text, degrees, Effect, Apart, differ, Firebase, perform_all,
}
use demolition_app.Party.Lobby.{Lobby, global_ref, game_state_ref}
use demolition_app.Party.Flags.{
  Annotation, flag_name, flag_ref, write_flags, first_location, host_view_did_load,
}

-- The `k` names counted from `count` on all differ from `name`.
abbrev differs : String → ℕ → ℕ → Bool
unfolding decimal
differs name count zero = true
differs name count (suc k) =
    if str_eq (flag_name count) name then false else differs name (suc count) k

-- The `k` names counted from `count` on differ from each other.
abbrev names_differ : ℕ → ℕ → Bool
unfolding decimal
names_differ count zero = true
names_differ count (suc k) = differs (flag_name count) (suc count) k && names_differ (suc count) k

module _ (f : Firebase) where
  open f use {get, set, get-set_self, get-set_apart}

  -- A flag's folder as the host writes it.
  abbrev pub FlagIs : f.Store → Lobby → String → Annotation → Type 0
  FlagIs s l name a =
      (get s (flag_ref l name ("Status" ∷ [])) ≡ some (text "Free"))
      × (get s (flag_ref l name ("Location" ∷ "Longitude" ∷ [])) ≡ some (degrees a.longitude))
      × (get s (flag_ref l name ("Location" ∷ "Latitude" ∷ [])) ≡ some (degrees a.latitude))

  abbrev one_flag : f.Store → Lobby → String → Annotation → f.Store
  one_flag s l name a =
      set
        (set (set s (flag_ref l name ("Status" ∷ [])) (text "Free"))
          (flag_ref l name ("Location" ∷ "Longitude" ∷ [])) (degrees a.longitude))
        (flag_ref l name ("Location" ∷ "Latitude" ∷ [])) (degrees a.latitude)

  one_flag-Apart :
      (s : f.Store) (l : Lobby) (name : String) (a : Annotation) (q : DbPath)
      → ((p : DbPath) → Apart (flag_ref l name p) q)
      → get (one_flag s l name a) q ≡ get s q
  one_flag-Apart s l name a q h =
      get-set_apart _ _ q _ (h ("Location" ∷ "Latitude" ∷ []))
      ∙ get-set_apart _ _ q _ (h ("Location" ∷ "Longitude" ∷ []))
      ∙ get-set_apart _ _ q _ (h ("Status" ∷ []))

  one_flag-FlagIs :
      (s : f.Store) (l : Lobby) (name : String) (a : Annotation)
      → FlagIs (one_flag s l name a) l name a
  one_flag-FlagIs s l name a = (
    get-set_apart _ _ _ _ (below (differ "Location" "Status" ("Latitude" ∷ []) [] refl))
        ∙ get-set_apart _ _ _ _ (below (differ "Location" "Status" ("Longitude" ∷ []) [] refl))
        ∙ get-set_self _ _ _,
    get-set_apart _ _ _ _ (below (inr (differ "Latitude" "Longitude" [] [] refl)))
        ∙ get-set_self _ _ _,
    get-set_self _ _ _,
  )
    where
      below : {P Q R S U V : Type 0} → V → P ⊎ Q ⊎ R ⊎ S ⊎ U ⊎ V
      below h = inr (inr (inr (inr (inr h))))

  write_flags-Apart :
      (l : Lobby) (count : ℕ) (order : List Annotation) (s : f.Store) (q : DbPath)
      → ((name : String) (p : DbPath) → Apart (flag_ref l name p) q)
      → get (perform_all f s (write_flags l count order)) q ≡ get s q
  unfolding write_flags
  write_flags-Apart l count [] s q h = refl
  write_flags-Apart l count (a ∷ rest) s q h =
      write_flags-Apart l (suc count) rest _ q h
      ∙ one_flag-Apart s l (flag_name count) a q (h (flag_name count))

  write_flags-kept :
      (l : Lobby) (count : ℕ) (order : List Annotation) (s : f.Store) (name : String) (p : DbPath)
      → differs name count (length order) ≡ true
      → get (perform_all f s (write_flags l count order)) (flag_ref l name p)
        ≡ get s (flag_ref l name p)
  unfolding write_flags decimal
  write_flags-kept l count [] s name p h = refl
  write_flags-kept l count (a ∷ rest) s name p h =
      elim (Bool-cases (str_eq (flag_name count) name)) [
        | inl same ↦ absurd (ground arith)
        | inr other ↦
            write_flags-kept l (suc count) rest _ name p (ground arith)
            ∙ one_flag-Apart s l (flag_name count) a _
                (λ k. inr (inr (inr (inr (differ (flag_name count) name k p other)))))
      ]

  FlagIs-after :
      (l : Lobby) (name : String) (a : Annotation) (s t : f.Store)
      → ((p : DbPath) → get t (flag_ref l name p) ≡ get s (flag_ref l name p))
      → FlagIs s l name a
      → FlagIs t l name a
  FlagIs-after l name a s t same h = (
    same ("Status" ∷ []) ∙ h.0,
    same ("Location" ∷ "Longitude" ∷ []) ∙ h.1,
    same ("Location" ∷ "Latitude" ∷ []) ∙ h.2,
  )

  write_flags-FlagIs :
      (l : Lobby) (count : ℕ) (order : List Annotation) (s : f.Store) (i j : ℕ) (a : Annotation)
      → names_differ count (length order) ≡ true
      → get_elem? order i ≡ some a
      → i + count ≡ j
      → FlagIs (perform_all f s (write_flags l count order)) l (flag_name j) a
  unfolding write_flags decimal
  write_flags-FlagIs l count [] s i j a h e n = absurd (ground arith)
  write_flags-FlagIs l count (b ∷ rest) s zero j a h e n =
      let here : j ≡ count = omega arith in
      let same : b ≡ a = cc in
      rw (here, ← same)
        (FlagIs-after l (flag_name count) b (one_flag s l (flag_name count) b) _
          (λ p. write_flags-kept l (suc count) rest _ (flag_name count) p (ground arith))
          (one_flag-FlagIs s l (flag_name count) b))
  write_flags-FlagIs l count (b ∷ rest) s (suc i) j a h e n =
      write_flags-FlagIs l (suc count) rest _ i j a (ground arith) e (omega arith)

  perform_all-append :
      (es fs : List Effect) (s : f.Store)
      → perform_all f s (es ++ fs) ≡ perform_all f (perform_all f s es) fs
  perform_all-append [] fs s = refl
  perform_all-append (e ∷ es) fs s = perform_all-append es fs _

  -- The player's first location is written apart from the party's "Global" folder.
  first_location-global :
      (l : Lobby) (s : f.Store) (p : DbPath)
      → get (perform_all f s (first_location l)) (global_ref l p) ≡ get s (global_ref l p)
  unfolding first_location
  first_location-global l s p =
      get-set_apart _ _ _ _ (
        inr (inr (differ "Players" "Global" (l.custom_hash ∷ "Location" ∷ "Latitude" ∷ []) p refl)))
      ∙ get-set_apart _ _ _ _ (
          inr (
            inr (differ "Players" "Global" (l.custom_hash ∷ "Location" ∷ "Longitude" ∷ []) p refl)))

  -- After the host's screen has loaded, with six annotations in whatever order the dictionary
  -- yields them, the party is in its lobby, and flag number i + 1 of the database is free and
  -- stands where the i-th annotation of that order does.
  pub host_view_did_load-publishes :
      (s : f.Store) (l : Lobby) (order : List Annotation) (i : ℕ) (a : Annotation)
      → length order ≡ 6
      → get_elem? order i ≡ some a
      → let s' = perform_all f s (host_view_did_load l order) in
        (get s' (game_state_ref l) ≡ some (text "inLobby")) × FlagIs s' l (flag_name (suc i)) a
  unfolding host_view_did_load decimal
  host_view_did_load-publishes s l order i a n e =
      rw (perform_all-append (write_flags l 1 order) (first_location l) _) (
        first_location-global l _ ("gameState" ∷ [])
            ∙ write_flags-Apart l 1 order _ _
                (λ name p. inr (inr (inr (differ "Flags" "gameState" (name ∷ p) [] refl))))
            ∙ get-set_apart _ _ _ _ (
                inr (
                  inr
                    (differ "PlayerStatus" "Global" (l.player_name ∷ []) ("gameState" ∷ []) refl)))
            ∙ get-set_self _ _ _,
        FlagIs-after l (flag_name (suc i)) a _ _
            (λ p. first_location-global l _ ("Flags" ∷ flag_name (suc i) ∷ p))
            (write_flags-FlagIs l 1 order _ i (suc i) a (six (length order) n) e (omega arith)),
      )
    where
      six : (k : ℕ) → k ≡ 6 → names_differ 1 k ≡ true
      six k h = rw h refl
