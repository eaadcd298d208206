-- ===== src/Circle/SampleLaws.antt =====
-- The sample bank and table satisfy what is assumed of Circle and of the database.
use noba_server.Common.Base.{
  ◌≡◌, ◌≢◌, refl, sym, ap, subst, ◌∙◌, String, ℕ, true, false, Option, none, some, arith, str_eq,
  str_eq_iff, ◌+◌, ◌-◌, ◌/◌, ◌≤◌,
}
use mathlib.Core.Option
use noba_server.Common.Int.{pos, negsuc, pos_part, ◌+ℤ◌, ◌-ℤ◌}
use noba_server.Common.Amount.{Amount, cents, IsCents}
use noba_server.Common.Exception.{Exception}
use noba_server.Common.Action.{ok, err}
use noba_server.Circle.Domain.{
  Circle, CircleCreateRequest, CircleUpdateRequest, TransferStatusEnum, TransferErrorCode, Transfer,
  CreateTransferRequest, CreateTransferReply,
}
use noba_server.Circle.Assumptions.{IsSame, IsMoved, IsNamed, CircleLaws, TableLaws}
use noba_server.Circle.Sample.{
  Bank, Rows, replace, made_by, move, is_cents, create_in, update_in, environment, ledger,
}

cents-IsCents : (n : ℕ) → IsCents (cents n)
cents-IsCents n = omega arith

cents_sub :
    (n : ℕ) (a : Amount)
    → is_cents a ≡ true
    → pos_part a / 100 ≤ n
    → cents (n - pos_part a / 100) ≡ cents n -ℤ a
unfolding ◌-ℤ◌
cents_sub n (pos a) c h = ground arith
cents_sub n (negsuc a) c h = cc

cents_add : (n : ℕ) (a : Amount) → is_cents a ≡ true → cents (n + pos_part a / 100) ≡ cents n +ℤ a
unfolding ◌+ℤ◌
cents_add n (pos a) c = ground arith
cents_add n (negsuc a) c = cc

replace_self {ℓ} : {A : Type ℓ} (f : String → A) (k : String) (a : A) → replace f k a k ≡ a
replace_self f k a = let same : str_eq k k ≡ true = (str_eq_iff k k).1 refl in rw same

replace_ne {ℓ} :
    {A : Type ℓ} (f : String → A) (k : String) (a : A) (j : String) → j ≢ k → replace f k a j ≡ f j
replace_ne f k a j h = let other : str_eq j k ≡ false = ground (arith, str_eq_iff j k) in rw other

-- What an accepted request with a new key has met, and done.
record Accepted (r : CreateTransferRequest) (e e' : Bank) : Type 0 where
  whole : is_cents r.amount ≡ true
  covered : pos_part r.amount / 100 ≤ e.held r.source
  held : e'.held ≡ move e.held r.source r.destination (pos_part r.amount / 100)

module _ (r : CreateTransferRequest) (e : Bank) {e' : Bank} {reply : CreateTransferReply}
    (h : create_in e r ≡ (ok reply, e')) where
  accepted :
      e.made r.idempotency_key ≡ none
      → reply.transfer.status ≢ TransferStatusEnum.failed
      → Accepted r e e'
  accepted fresh passed = record {
    whole = ground arith;
    covered = ground arith;
    held = ground arith;
  }

  answer : e.made r.idempotency_key ≡ none → reply.transfer ≡ made_by r
  answer fresh = ground arith

  made : e.made r.idempotency_key ≡ none → e'.made ≡ replace e.made r.idempotency_key (some r)
  made fresh = ground arith

  failed :
      reply.transfer.status ≡ TransferStatusEnum.failed
      → IsNamed reply.transfer.error_code × (e'.held ≡ e.held)
  failed fails =
      let code : reply.transfer.error_code ≡ some TransferErrorCode.insufficient_funds =
        ground arith in
      (subst IsNamed (sym code) tt, ground arith)

replayed :
    (r t : CreateTransferRequest) (e : Bank) {e' : Bank} {reply : CreateTransferReply}
    → create_in e r ≡ (ok reply, e')
    → e.made r.idempotency_key ≡ some t
    → (reply.transfer ≡ made_by t) × (e' ≡ e)
replayed r t e h used = (ground arith, ground arith)

module _ (r : CreateTransferRequest) (e : Bank) {e' : Bank} (a : Accepted r e e') where
  taken : String → ℕ
  taken = replace e.held r.source (e.held r.source - pos_part r.amount / 100)

  held_at :
      (u : String)
      → e'.held u ≡ replace taken r.destination (taken r.destination + pos_part r.amount / 100) u
  unfolding taken
  held_at u = ap (λ (f : String → ℕ). f u) a.held

  taken_ne : (u : String) → u ≢ r.source → taken u ≡ e.held u
  unfolding taken
  taken_ne u h = replace_ne e.held r.source (e.held r.source - pos_part r.amount / 100) u h

  taken_self : taken r.source ≡ e.held r.source - pos_part r.amount / 100
  unfolding taken
  taken_self = replace_self e.held r.source (e.held r.source - pos_part r.amount / 100)

  given : ℕ
  given = taken r.destination + pos_part r.amount / 100

  Accepted-IsMoved : IsMoved ledger r e e'
  unfolding given
  Accepted-IsMoved = record {
    source = λ distinct.
        ap cents
          (held_at r.source ∙ replace_ne taken r.destination given r.source distinct ∙ taken_self)
        ∙ cents_sub (e.held r.source) r.amount a.whole a.covered;
    destination = λ distinct.
        ap cents (
          held_at r.destination
          ∙ replace_self taken r.destination given
          ∙ ap (λ (n : ℕ). n + pos_part r.amount / 100)
              (taken_ne r.destination (λ same. distinct (sym same))))
        ∙ cents_add (e.held r.destination) r.amount a.whole;
    others =
        λ u s d. ap cents (held_at u ∙ replace_ne taken r.destination given u d ∙ taken_ne u s);
  }

new_key : (o : Option CreateTransferRequest) → Option.map made_by o ≡ none → o ≡ none
new_key none h = refl
new_key (some t) h = cc

used_key :
    (o : Option CreateTransferRequest) {t : Transfer}
    → Option.map made_by o ≡ some t
    → (r : CreateTransferRequest) × (o ≡ some r) × (made_by r ≡ t)
used_key none h = cc
used_key (some r) h = (r, refl, cc)

same : (e e' : Bank) → e' ≡ e → IsSame ledger e e'
same e e' h = record {
  balance = λ v. ap (ledger.balance v) h;
  recorded = λ k. ap (ledger.recorded k) h;
}

answered :
    (r : CreateTransferRequest) (e e' : Bank) (reply : CreateTransferReply)
    → reply.transfer ≡ made_by r
    → e'.made ≡ replace e.made r.idempotency_key (some r)
    → (reply.transfer.source ≡ r.source)
      × (reply.transfer.destination ≡ r.destination)
      × (reply.transfer.amount ≡ r.amount)
      × (ledger.recorded r.idempotency_key e' ≡ some reply.transfer)
answered r e e' reply shown kept = (
  ap (λ (t : Transfer). t.source) shown,
  ap (λ (t : Transfer). t.destination) shown,
  ap (λ (t : Transfer). t.amount) shown,
  ap (λ (f : String → Option CreateTransferRequest). Option.map made_by (f r.idempotency_key)) kept
      ∙ ap (Option.map made_by) (replace_self e.made r.idempotency_key (some r))
      ∙ ap some (sym shown),
)

pub circle_laws : CircleLaws environment ledger
circle_laws = record {
  get_wallet = λ v e h. (cc h, same _ _ (cc h));
  cents = λ v e. cents-IsCents (e.held v);
  create_transfer =
      λ r e h fresh passed. Accepted-IsMoved r e (accepted r e h (new_key _ fresh) passed);
  answered = λ r e {e'} {reply} h fresh.
      answered r e e' reply (answer r e h (new_key _ fresh)) (made r e h (new_key _ fresh));
  replayed = λ r e h used.
      let (t, found, shown) = used_key _ used in
      let (answer, still) = replayed r t e h found in (answer ∙ shown, same _ _ still);
  failed = λ r e h fails.
      let (named, still) = failed r e h fails in
      (named, λ v. ap (λ (f : String → ℕ). cents (f v)) still);
}

created :
    (r : CircleCreateRequest) (d : Rows) {d' : Rows} {row : Circle}
    → environment.create r d ≡ (ok row, d')
    → (row.wallet_id ≡ r.wallet_id) × (environment.find_unique r.consumer_id d' ≡ ok (some row))
created r d h = (ground arith, ground (arith, str_eq_iff r.consumer_id r.consumer_id))

updated :
    (v : String) (r : CircleUpdateRequest) (d : Rows) {d' : Rows} {row : Circle}
    → update_in v r d ≡ (ok row, d')
    → (environment.find_first v d' ≡ ok (some row)) × (row.current_balance ≡ r.current_balance)
updated v r d h = (ground (arith, str_eq_iff v v), ground arith)

updated_others :
    (v u : String) (r : CircleUpdateRequest) (d : Rows) {d' : Rows} {row : Circle}
    → update_in v r d ≡ (ok row, d')
    → u ≢ v
    → environment.find_first u d' ≡ environment.find_first u d
updated_others v u r d h other = ground (arith, str_eq_iff u v)

not_updated :
    (v : String) (r : CircleUpdateRequest) (d : Rows) {d' : Rows} {x : Exception}
    → update_in v r d ≡ (err x, d')
    → d' ≡ d
not_updated v r d h = ground arith

pub table_laws : TableLaws environment
table_laws = record {
  create = λ r d h. created r d h;
  update = λ v r d h. updated v r d h;
  update_others = λ v u r d h other. updated_others v u r d h other;
  update_failed = λ v r d h. not_updated v r d h;
}
