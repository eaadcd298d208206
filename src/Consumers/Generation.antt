-- ===== src/Consumers/Generation.antt =====
-- The loop of `updateConsumer` that looks for a free handle: how it ends.
use noba_server.Common.Base.{
  ◌≡◌, refl, sym, ap, ◌∙◌, ℕ, zero, suc, ◌+◌, ◌≤◌, ltb, Bool, true, false, not, Option, some, subst,
  if◌then◌else◌, inl, inr, arith,
}
use noba_server.Common.Text.{Text}
use noba_server.Common.Exception.{service, unable_to_process}
use noba_server.Common.Action.{Action, ok, pure, throw_if, ◌>>=◌, ◌>>◌}
use noba_server.Common.Inversion.{Result-cases}
use noba_server.Common.Outcome.{run-eq-ok, eq_ok-run}
use noba_server.Consumers.Environment.{Environment, World}
use noba_server.Consumers.Handles.{analyse_handle}
use noba_server.Consumers.Names.{generate_default_handle-IsAnalysed}
use noba_server.Consumers.Service

module _ {C T N : Type 0} (env : Environment C T N) where
  pub is_handle_available-eq-ok :
      (handle : Text) (w : World C T N) {available : Bool} {w' : World C T N}
      → Service.is_handle_available env handle w ≡ (ok available, w')
      → (w' ≡ w)
        × (analyse_handle env.has_bad_word handle ≡ ok tt)
        × (env.is_handle_taken handle w.table ≡ ok (not available))
  unfolding Service.is_handle_available
  is_handle_available-eq-ok handle w {available} {w'} h =
      elim (Result-cases (analyse_handle env.has_bad_word handle)) [
        | inr (e, p) ↦ absurd (ground arith)
        | inl (u, p) ↦ elim (Result-cases (env.is_handle_taken handle w.table)) [
          | inr (e, q) ↦ absurd (ground arith)
          | inl (true, q) ↦ (ground arith, p, ground arith)
          | inl (false, q) ↦ (ground arith, p, ground arith)
        ]
      ]

  -- A handle that was found: the check of handles accepts it, nobody has it, and nothing
  -- changed but that at most `n` random texts were drawn for it.
  pub record IsFree (n : ℕ) (w : World C T N) (found : Option Text) (w' : World C T N)
      : Type 0 where
    pub handle : Text
    pub is_found : found ≡ some handle
    pub accepted : analyse_handle env.has_bad_word handle ≡ ok tt
    pub not_taken : env.is_handle_taken handle w.table ≡ ok false
    pub same : w' ≡ record w { drawn = w'.drawn }
    pub drawn : w'.drawn ≤ w.drawn + n

  draw_handle_lem :
      (first_name last_name : Text) (w : World C T N)
      → (h : Text) × (Service.draw_handle env first_name last_name w
          ≡ (ok (some h), record w { drawn = suc w.drawn }))
  unfolding Service.draw_handle
  draw_handle_lem first_name last_name w =
      let (h, p, l, m, a, e) =
        generate_default_handle-IsAnalysed first_name last_name (env.random_text w.drawn)
          env.has_bad_word in
      (h, ap (λ r. (ok r, record w { drawn = suc w.drawn })) p)

  -- What is left of the loop where a handle is not free.
  abbrev retry :
      (first_name last_name : Text) (fuel counter : ℕ) → Action (World C T N) (Option Text)
  retry first_name last_name fuel counter =
      throw_if (ltb 5 counter) (service unable_to_process)
      >> (Service.draw_handle env first_name last_name
          >>= Service.find_handle env first_name last_name fuel (counter + 1))

  retry_lem :
      (first_name last_name : Text) (fuel counter : ℕ) (w : World C T N) {found : Option Text}
      {w' : World C T N}
      → retry first_name last_name fuel counter w ≡ (ok found, w')
      → (counter ≤ 5)
        × ((h : Text) × (Service.find_handle env first_name last_name fuel
                (counter + 1)
                (some h)
                (record w { drawn = suc w.drawn })
              ≡ (ok found, w')))
  retry_lem first_name last_name fuel counter w {found} {w'} returned =
      let (u, p, q) = run-eq-ok (throw_if (ltb 5 counter) (service unable_to_process) w) returned in
      let (h, drawn) = draw_handle_lem first_name last_name w in
      let next =
        eq_ok-run (Service.draw_handle env first_name last_name w)
          (Service.find_handle env first_name last_name fuel (counter + 1)) drawn in
      (ground arith, (h, sym next ∙ q))

  -- A round of the loop.
  round_lem :
      (first_name last_name : Text) (fuel counter : ℕ) (h : Text) (w : World C T N)
      {found : Option Text} {w' : World C T N}
      → Service.find_handle env first_name last_name (suc fuel) counter (some h) w ≡ (ok found, w')
      → (available : Bool) × (analyse_handle env.has_bad_word h ≡ ok tt)
        × (env.is_handle_taken h w.table ≡ ok (not available))
        × ((if available then pure (some h) else retry first_name last_name fuel counter) w
            ≡ (ok found, w'))
  unfolding Service.find_handle
  round_lem first_name last_name fuel counter h w {found} {w'} returned =
      let (available, p, q) = run-eq-ok (Service.is_handle_available env h w) returned in
      let (same, accepted, taken) = is_handle_available-eq-ok h w p in
      let at_w =
        subst
          (λ u.
            (if available then pure (some h) else retry first_name last_name fuel counter) u
            ≡ (ok found, w'))
          same q in
      (available, accepted, taken, at_w)

  -- With fuel for as many handles as the counter allows, the loop returns a handle that is free, or
  -- throws.
  step_lem :
      (first_name last_name : Text) (fuel counter : ℕ) (h : Text) (w : World C T N)
      (available : Bool) {found : Option Text} {w' : World C T N}
      → suc fuel + counter ≡ 7
      → analyse_handle env.has_bad_word h ≡ ok tt
      → env.is_handle_taken h w.table ≡ ok (not available)
      → (if available then pure (some h) else retry first_name last_name fuel counter) w
        ≡ (ok found, w')
      → IsFree fuel w found w'
  step_lem first_name last_name fuel counter h w true enough accepted taken q = record {
    handle = h;
    is_found = ground arith;
    accepted = accepted;
    not_taken = taken;
    same = ground arith;
    drawn = ground arith;
  }
  step_lem first_name last_name zero counter h w false enough accepted taken q =
      absurd (omega (arith, (retry_lem first_name last_name zero counter w q).0))
  step_lem first_name last_name (suc fuel) counter h w false enough accepted taken q =
      let (small, (h', next)) = retry_lem first_name last_name (suc fuel) counter w q in
      let again = record w { drawn = suc w.drawn } in
      let (free', accepted', taken', q') =
        round_lem first_name last_name fuel (counter + 1) h' again next in
      let free =
        step_lem first_name last_name fuel (counter + 1) h' again free' (omega arith) accepted'
          taken' q' in
      record {
        handle = free.handle;
        is_found = free.is_found;
        accepted = free.accepted;
        not_taken = free.not_taken;
        same = free.same;
        drawn = omega (arith, free.drawn);
      }

  -- The loop that generates a handle ends by itself, within seven handles: what it returns is a
  -- handle, which the check of handles accepts and nobody has; nothing changes but that at
  -- most seven random texts were drawn.
  pub new_handle-IsFree :
      (first_name last_name : Text) (w : World C T N) {found : Option Text} {w' : World C T N}
      → Service.new_handle env first_name last_name w ≡ (ok found, w')
      → IsFree 7 w found w'
  unfolding Service.new_handle
  new_handle-IsFree first_name last_name w {found} {w'} returned =
      let (h, drawn) = draw_handle_lem first_name last_name w in
      let next =
        eq_ok-run (Service.draw_handle env first_name last_name w)
          (Service.find_handle env first_name last_name 7 0) drawn in
      let after = record w { drawn = suc w.drawn } in
      let (available, accepted, taken, q) =
        round_lem first_name last_name 6 0 h after (sym next ∙ returned) in
      let free = step_lem first_name last_name 6 0 h after available refl accepted taken q in
      record {
        handle = free.handle;
        is_found = free.is_found;
        accepted = free.accepted;
        not_taken = free.not_taken;
        same = free.same;
        drawn = omega (arith, free.drawn);
      }
