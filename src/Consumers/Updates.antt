-- ===== src/Consumers/Updates.antt =====
-- What `updateConsumer` writes, where it returns.
use noba_server.Common.Base.{
  ◌≡◌, subst, refl, sym, ap, ◌∙◌, Bool-cases, true, false, ◌||◌, String, Option, none, some, inl,
  inr, arith,
}
use noba_server.Common.Text.{Text}
use noba_server.Common.Action.{ok}
use noba_server.Common.Inversion.{Result-cases}
use noba_server.Common.Outcome.{run-eq-ok}
use noba_server.Consumers.Domain.{
  Consumer, ConsumerUpdate, is_truthy_text, is_truthy_string, predict_locale, with_updates,
}
use noba_server.Consumers.Environment.{Environment, World}
use noba_server.Consumers.Handles.{analyse_handle}
use noba_server.Consumers.Generation.{new_handle-IsFree}
use noba_server.Consumers.Service

module _ {C T N : Type 0} (env : Environment C T N) where
  -- The handle of an update: the rest is as it was, any handle passes the check of handles, and a
  -- consumer with a name and without a handle gets one that nobody has.
  record IsChosen (consumer : Consumer) (u : ConsumerUpdate) (w : World C T N)
      (chosen : ConsumerUpdate) (w' : World C T N) : Type 0 where
    pub same_rest : chosen ≡ record u { handle = chosen.handle }
    pub accepted : (h : Text) → chosen.handle ≡ some h → analyse_handle env.has_bad_word h ≡ ok tt
    pub is_free :
        Service.needs_handle env consumer ≡ true
        → (h : Text) × (chosen.handle ≡ some h) × (env.is_handle_taken h w.table ≡ ok false)
    pub same : w' ≡ record w { drawn = w'.drawn }

  generated :
      (consumer : Consumer) (u : ConsumerUpdate) (w : World C T N) {chosen : ConsumerUpdate}
      {w' : World C T N}
      → Service.generate_handle env consumer u w ≡ (ok chosen, w')
      → IsChosen consumer u w chosen w'
  unfolding Service.generate_handle
  generated consumer u w {chosen} {w'} h =
      let first_name = Service.or_empty env consumer.first_name in
      let last_name = Service.or_empty env consumer.last_name in
      let (found, p, q) = run-eq-ok (Service.new_handle env first_name last_name w) h in
      let free = new_handle-IsFree env first_name last_name w p in
      let after = (Service.new_handle env first_name last_name w).1 in
      let is_with : Service.with_new env u (some free.handle) after ≡ (ok chosen, w') =
        subst (λ o. Service.with_new env u o after ≡ (ok chosen, w')) free.is_found q in
      record {
        same_rest = ground arith;
        accepted = λ t e. ground (arith, free.accepted);
        is_free = λ needs. (free.handle, ground arith, free.not_taken);
        same = ground (arith, free.same);
      }

  named :
      (consumer : Consumer) (u : ConsumerUpdate) (name : Option Text) (w : World C T N)
      {chosen : ConsumerUpdate} {w' : World C T N}
      → Service.needs_handle env consumer ≡ false
      → u.handle ≡ name
      → Service.check_named env u name w ≡ (ok chosen, w')
      → IsChosen consumer u w chosen w'
  unfolding Service.check_named
  named consumer u none w {chosen} {w'} has e h = record {
    same_rest = ground arith;
    accepted = λ t e'. absurd (ground arith);
    is_free = λ needs. absurd (ground arith);
    same = ground arith;
  }
  named consumer u (some name) w {chosen} {w'} has e h =
      elim (Result-cases (analyse_handle env.has_bad_word name)) [
        | inr (x, p) ↦ absurd (ground arith)
        | inl (x, p) ↦ record {
          same_rest = ground arith;
          accepted = λ t e'. ground arith;
          is_free = λ needs. absurd (ground arith);
          same = ground arith;
        }
      ]

  choose_handle-IsChosen :
      (consumer : Consumer) (u : ConsumerUpdate) (w : World C T N) {chosen : ConsumerUpdate}
      {w' : World C T N}
      → Service.choose_handle env consumer u w ≡ (ok chosen, w')
      → IsChosen consumer u w chosen w'
  unfolding Service.choose_handle
  choose_handle-IsChosen consumer u w {chosen} {w'} h =
      elim (Bool-cases (Service.needs_handle env consumer)) [
        | inl needs ↦ generated consumer u w (ground arith)
        | inr has ↦ named consumer u u.handle w has refl (ground arith)
      ]

  named_locale_lem :
      (locale : Option String) (u : ConsumerUpdate)
      → Service.named_locale locale u ≡ record u { locale = (Service.named_locale locale u).locale }
  named_locale_lem none u = refl
  named_locale_lem (some locale) u = refl

  choose_locale_lem :
      (consumer : Consumer) (u : ConsumerUpdate)
      → Service.choose_locale env consumer u
        ≡ record u { locale = (Service.choose_locale env consumer u).locale }
  unfolding Service.choose_locale
  choose_locale_lem consumer u =
      elim (Bool-cases (is_truthy_string (with_updates consumer u).locale)) [
        | inl named ↦ ground arith
        | inr unnamed ↦
            ground (arith, named_locale_lem (predict_locale (with_updates consumer u)) u)
      ]

  create_consumer-eq-ok :
      (c : Consumer) (w : World C T N) {w' : World C T N}
      → Service.create_consumer env c w ≡ (ok tt, w')
      → (w' ≡ w) × (is_truthy_text c.phone || is_truthy_text c.email ≡ true)
  unfolding Service.create_consumer
  create_consumer-eq-ok c w {w'} h = (ground arith, ground arith)

  -- What an update that returned has written: the contacts that were asked for, a handle that
  -- passes the check of handles, one that nobody has where it was generated, to a consumer that
  -- can be reached.
  pub record IsWritten (asked : ConsumerUpdate) (w : World C T N) (returned : Consumer)
      (w' : World C T N) : Type 0 where
    pub consumer : Consumer
    pub written : ConsumerUpdate
    pub found : env.get_consumer asked.id w.table ≡ ok (some consumer)
    pub phone : written.phone ≡ asked.phone
    pub email : written.email ≡ asked.email
    pub accepted : (h : Text) → written.handle ≡ some h → analyse_handle env.has_bad_word h ≡ ok tt
    pub is_free :
        Service.needs_handle env consumer ≡ true
        → (h : Text) × (written.handle ≡ some h) × (env.is_handle_taken h w.table ≡ ok false)
    pub is_reachable :
        (is_truthy_text (with_updates consumer written).phone
          || is_truthy_text (with_updates consumer written).email)
        ≡ true
    pub stored : env.update_consumer consumer.id written w.table ≡ (ok returned, w'.table)
    pub same_otps : w'.otps ≡ w.otps

  store_update-eq-ok :
      (consumer : Consumer) (u : ConsumerUpdate) (w : World C T N) {returned : Consumer}
      {w' : World C T N}
      → Service.store_update env consumer u w ≡ (ok returned, w')
      → (env.update_consumer consumer.id u w.table ≡ (ok returned, w'.table)) × (w'.otps ≡ w.otps)
  unfolding Service.store_update
  store_update-eq-ok consumer u w {returned} {w'} h =
      elim (Result-cases (env.update_consumer consumer.id u w.table).0) [
        | inl (r, p) ↦ (ground arith, ground arith)
        | inr (e, p) ↦ absurd (ground arith)
      ]

  found_lem :
      (asked : ConsumerUpdate) (consumer : Consumer) (w : World C T N) {returned : Consumer}
      {w' : World C T N}
      → env.get_consumer asked.id w.table ≡ ok (some consumer)
      → Service.update_found env asked (some consumer) w ≡ (ok returned, w')
      → IsWritten asked w returned w'
  found_lem asked consumer w {returned} {w'} found h =
      let trimmed = Service.trim_consumer_props asked in
      let x1 = Service.choose_handle env consumer trimmed w in
      let (chosen, p1, q1) = run-eq-ok x1 h in
      let choice = choose_handle-IsChosen consumer trimmed w p1 in
      let u = Service.choose_locale env consumer chosen in
      let local = choose_locale_lem consumer chosen in
      let x2 = Service.create_consumer env (with_updates consumer u) x1.1 in
      let (t, p2, q2) = run-eq-ok x2 q1 in
      let (same, reachable) = create_consumer-eq-ok (with_updates consumer u) x1.1 p2 in
      let (stored, otps) = store_update-eq-ok consumer u x2.1 q2 in
      let handles : u.handle ≡ chosen.handle = ap ConsumerUpdate.handle local in
      let table : x2.1.table ≡ w.table = ap World.table (same ∙ choice.same) in
      record {
        consumer = consumer;
        written = u;
        found = found;
        phone = ap ConsumerUpdate.phone local ∙ ap ConsumerUpdate.phone choice.same_rest;
        email = ap ConsumerUpdate.email local ∙ ap ConsumerUpdate.email choice.same_rest;
        accepted = λ handle e. choice.accepted handle (sym handles ∙ e);
        is_free =
            λ needs. let (handle, e, free) = choice.is_free needs in (handle, handles ∙ e, free);
        is_reachable = reachable;
        stored = sym (ap (env.update_consumer consumer.id u) table) ∙ stored;
        same_otps = otps ∙ ap World.otps (same ∙ choice.same);
      }

  -- An update that returns writes the phone number and the email address that it names. Any handle
  -- that it writes passes the check of handles; a consumer with a first and a last name and without
  -- a handle is given one that nobody has; the consumer has a phone number or an email address
  -- then. The one-time passwords are as they were.
  pub update_consumer-IsWritten :
      (asked : ConsumerUpdate) (w : World C T N) {returned : Consumer} {w' : World C T N}
      → Service.update_consumer env asked w ≡ (ok returned, w')
      → IsWritten asked w returned w'
  unfolding Service.update_consumer
  update_consumer-IsWritten asked w {returned} {w'} h =
      elim (Result-cases (env.get_consumer asked.id w.table)) [
        | inr (e, p) ↦ absurd (ground arith)
        | inl (none, p) ↦ absurd (ground arith)
        | inl (some consumer, p) ↦ found_lem asked consumer w p (ground arith)
      ]
