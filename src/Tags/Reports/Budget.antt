-- ===== src/Tags/Reports/Budget.antt =====
-- How many reports are sent.
use demolition_app.Base.{
  ℕ, ◌+◌, ◌*◌, ◌≤◌, ◌≡◌, refl, ◌∙◌, leb, ◌==◌, Bool, true, false, not, ◌&&◌, ◌||◌, if◌then◌else◌,
  if_cases, if_elim, String, Option, none, some, List, [], ◌∷◌, ◌++◌, arith,
}
use demolition_app.Tags.Reports.{
  Reporter, member, is_nil, send, send_current, flush, is_current, tell, begin, Input, told, begun,
  timeout, second, step, run, seconds,
}

-- What `s` sent more than `r` it took from what is left for the second and at all.
record Spends (r s : Reporter) : Type 0 where
  in_second : s.images + s.second_left ≤ r.images + r.second_left
  in_total : s.images + s.total_left ≡ r.images + r.total_left

same : (r : Reporter) → Spends r r
same r = record { in_second = omega arith; in_total = refl }

spends_twice : (r s t : Reporter) → Spends r s → Spends s t → Spends r t
spends_twice r s t a b = record {
  in_second = omega (arith, a.in_second, b.in_second);
  in_total = b.in_total ∙ a.in_total;
}

send-Spends : (n : ℕ) (r : Reporter) → Spends r (send n r)
unfolding send
send-Spends n r =
    if_cases (Spends r) (r.second_left == 0) _ _
      (λ _. record { in_second = omega arith; in_total = refl })
      (λ e.
        if_cases (Spends r) (r.total_left == 0) _ _
          (λ _. record { in_second = omega arith; in_total = refl })
          (λ f. record { in_second = ground (arith, e); in_total = ground (arith, f) }))

send_current-Spends : (o : Option ℕ) (r : Reporter) → Spends r (send_current o r)
unfolding send_current
send_current-Spends none r = same r
send_current-Spends (some n) r =
    if_elim (Spends r) (member n r.reported && is_nil r.parts) _ _ (same r)
      (if_elim (Spends r) (member n r.dropped) _ _ (same r) (send-Spends n r))

flush-Spends : (r : Reporter) → Spends r (flush r)
unfolding flush
flush-Spends r =
    let s = send_current-Spends r.current (record r { timed = false }) in
    record { in_second = s.in_second; in_total = s.in_total }

module _ (address_size : Reporter → ℕ) (samples : Bool) where
  begin-Spends : (n : ℕ) (r : Reporter) → Spends r (begin address_size samples n r)
  unfolding begin
  begin-Spends n r =
      let s = flush-Spends r in
      if_elim (Spends r) (not samples || r.total_left == 0 || is_current r.current n) _ _ (same r)
        (record { in_second = s.in_second; in_total = s.in_total })

  tell-Spends :
      (n : ℕ) (part : String) (r : Reporter) → Spends r (tell address_size samples n part r)
  unfolding tell
  tell-Spends n part r₀ =
      let r : Reporter =
        if is_current r₀.current n then r₀ else record (flush r₀) { current = some n } in
      let s : Reporter = record r { parts = r.parts ++ part ∷ []; timed = true } in
      let f = flush-Spends r₀ in
      let a : Spends r₀ r =
        if_elim (Spends r₀) (is_current r₀.current n) _ _ (same r₀)
          (record { in_second = f.in_second; in_total = f.in_total }) in
      let b : Spends r₀ s = record { in_second = a.in_second; in_total = a.in_total } in
      if_elim (Spends r₀) (samples && not (member n r₀.dropped)) _ _
        (if_elim (Spends r₀) (leb 2022 (address_size s)) _ _
          (spends_twice r₀ s (flush s) b (flush-Spends s)) b)
        (same r₀)

  -- Whatever is told, begun and timed out, as many reports are sent as are taken from what is left at all,
  -- and at most two for each second that begins, with those that were left in the first.
  pub run-images :
      (is : List (Input address_size samples)) (r : Reporter)
      → ((run address_size samples is r).images + (run address_size samples is r).total_left
          ≡ r.images + r.total_left)
        × ((run address_size samples is r).images
            ≤ r.images + r.second_left + 2 * seconds address_size samples is)
  unfolding run step seconds
  run-images [] r = (refl, omega arith)
  run-images (told n part ∷ is) r =
      let s = tell-Spends n part r in
      let h = run-images is (tell address_size samples n part r) in
      (h.0 ∙ s.in_total, omega (arith, h.1, s.in_second))
  run-images (begun n ∷ is) r =
      let s = begin-Spends n r in
      let h = run-images is (begin address_size samples n r) in
      (h.0 ∙ s.in_total, omega (arith, h.1, s.in_second))
  run-images (timeout ∷ is) r =
      let s = flush-Spends r in
      let h = run-images is (flush r) in (h.0 ∙ s.in_total, omega (arith, h.1, s.in_second))
  run-images (second ∷ is) r =
      let h = run-images is (record r { second_left = 2 }) in (h.0, omega (arith, h.1))
