-- ===== src/Pomelo/Guards.antt =====
-- What the two webhooks check before they work on a call, and that they answer whatever fails after.
use noba_server.Common.Base.{
  ◌≡◌, ◌≢◌, refl, ℕ, String, Bool, true, false, List, [], ◌∷◌, ◌++◌, some, ◌⊎◌, inl, inr, arith,
  str_eq, str_eq_iff, Bool-cases,
}
use noba_server.Common.Action.{Result, ok, err, Action}
use noba_server.Common.Inversion.{Result-cases}
use noba_server.Common.Exception.{Exception}
use noba_server.Common.Outcome.{Ensures, try_catch-Ensures, any-Ensures, not_thrown}
use noba_server.Pomelo.Domain.{
  SignedCall, PomeloTransaction, PomeloTransactionSaveRequest, PomeloTransactionAuthzDetailStatus,
  PomeloTransactionAuthzResponse,
}
use noba_server.Pomelo.Environment.{Environment, World}
use noba_server.Pomelo.Assumptions.{CryptoLaws}
use noba_server.Pomelo.Answers.{prepare_authorization_response}
use noba_server.Pomelo.Signature.{
  codes, strip_prefix, starts_with, remove_first, compute_signature, verify_signature,
}
use noba_server.Pomelo.Steps

abbrev pub scheme : List ℕ
scheme = codes "hmac-sha256 "

strip_prefix-append : (prefix s : List ℕ) → strip_prefix prefix (prefix ++ s) ≡ some s
unfolding strip_prefix
strip_prefix-append [] s = refl
strip_prefix-append (c ∷ prefix) s = ground (arith, strip_prefix-append prefix s)

-- What is left of a signature by its scheme is the hash.
remove_first-scheme : (s : List ℕ) → remove_first scheme (scheme ++ s) ≡ s
unfolding remove_first
remove_first-scheme s = ground (arith, strip_prefix-append scheme s)

starts_with-scheme : (s : List ℕ) → starts_with (scheme ++ s) (codes "hmac-sha256") ≡ true
unfolding starts_with strip_prefix
starts_with-scheme s = refl

module _ {S P : Type 0} (env : Environment S P) where
  -- The received signature holds the HMAC of timestamp, endpoint and body under the secret.
  abbrev pub IsAuthentic : String → SignedCall → Type 0
  IsAuthentic endpoint call =
      (call.endpoint ≡ endpoint)
      × (env.from_base64 (remove_first scheme (codes call.raw_signature))
          ≡ env.from_base64 (
              env.hmac_sha256_base64 env.pomelo_api_secret (
                env.from_utf8 call.unix_timestamp_seconds
                ++ env.from_utf8 endpoint
                ++ call.raw_body_buffer)))

  -- Neither the services nor the table were touched.
  abbrev pub IsUntouched : World S P → World S P → Type 0
  IsUntouched w w' = (w'.services ≡ w.services) × (w'.table ≡ w.table) × (w'.drawn ≡ w.drawn)

  abbrev pub other : PomeloTransactionAuthzResponse
  other = prepare_authorization_response PomeloTransactionAuthzDetailStatus.other

  verify-eq-true :
      CryptoLaws env
      → (received hash : List ℕ) (w : World S P)
      → (verify_signature env received (scheme ++ hash) w).0 ≡ ok true
      → env.from_base64 (remove_first scheme received) ≡ env.from_base64 hash
  unfolding verify_signature
  verify-eq-true laws received hash w h = ground (
    arith,
    remove_first-scheme hash,
    laws.sound (env.from_base64 (remove_first scheme received)) (env.from_base64 hash),
  )

  verify-IsUntouched :
      (received expected : List ℕ) (w : World S P)
      → IsUntouched w (verify_signature env received expected w).1
  unfolding verify_signature
  verify-IsUntouched received expected w = ground arith

  pub guarded-IsAuthentic :
      CryptoLaws env
      → (endpoint : String) (call : SignedCall)
        (work : Action (World S P) PomeloTransactionAuthzResponse) (w : World S P) {w' : World S P}
        {r : PomeloTransactionAuthzResponse}
      → Steps.guarded env endpoint call work w ≡ (ok r, w')
      → ((r ≡ other) × IsUntouched w w') ⊎ IsAuthentic endpoint call
  unfolding Steps.guarded compute_signature
  guarded-IsAuthentic laws endpoint call work w h =
      let hash : List ℕ = env.hmac_sha256_base64 env.pomelo_api_secret (
        env.from_utf8 call.unix_timestamp_seconds
        ++ env.from_utf8 endpoint
        ++ call.raw_body_buffer) in
      let received = codes call.raw_signature in
      let same = verify-IsUntouched received (scheme ++ hash) w in
      elim (Bool-cases (str_eq call.endpoint endpoint)) [
        | inr differs ↦ inl (ground arith, ground arith)
        | inl matches ↦ elim (Result-cases (verify_signature env received (scheme ++ hash) w).0) [
          | inr (e, p) ↦ absurd (ground arith)
          | inl (false, p) ↦ inl (ground arith, ground (arith, same))
          | inl (true, p) ↦
              inr (
                (str_eq_iff call.endpoint endpoint).0 matches,
                verify-eq-true laws received hash w p,
              )
        ]
      ]

  -- The body of both webhooks catches every exception.
  pub process_answers :
      (saving : String → PomeloTransactionSaveRequest)
      (work : PomeloTransaction → Action (World S P) PomeloTransactionAuthzResponse) (w : World S P)
      {e : Exception}
      → (Steps.process env saving work w).0 ≢ err e
  unfolding Steps.process
  process_answers saving work w =
      let caught : Ensures (λ _. Unit {0}) (Steps.process env saving work) (λ _ _. Unit {0})
          (λ _. ⊥) =
        try_catch-Ensures {m = Steps.attempt env saving work} {f = Steps.on_failure env}
          (any-Ensures (Steps.attempt env saving work)) (λ e. record { apply = λ s p. tt }) in
      not_thrown (Steps.process env saving work w) (caught.apply w tt)

  verify-scheme :
      CryptoLaws env
      → (hash : List ℕ) (w : World S P)
      → verify_signature env (scheme ++ hash) (scheme ++ hash) w ≡ (ok true, w)
  unfolding verify_signature
  verify-scheme laws hash w =
      ground (arith, remove_first-scheme hash, laws.same (env.from_base64 hash))

  pub compute-verify :
      CryptoLaws env
      → (timestamp endpoint : String) (body : List ℕ) (w : World S P)
      → let signature = compute_signature env timestamp endpoint body in
        verify_signature env signature signature w ≡ (ok true, w)
  unfolding compute_signature
  compute-verify laws timestamp endpoint body w =
      verify-scheme laws
        (env.hmac_sha256_base64 env.pomelo_api_secret
          (env.from_utf8 timestamp ++ env.from_utf8 endpoint ++ body))
        w

  -- Decoding what was received, and what was expected, and comparing them.
  abbrev pub comparison : String → SignedCall → Result Bool
  comparison endpoint call =
      env.timing_safe_equal (env.from_base64 (remove_first scheme (codes call.raw_signature))) (
        env.from_base64 (
          env.hmac_sha256_base64 env.pomelo_api_secret (
            env.from_utf8 call.unix_timestamp_seconds
            ++ env.from_utf8 endpoint
            ++ call.raw_body_buffer)))

  pub guarded-eq-err :
      (endpoint : String) (call : SignedCall)
      (work : Action (World S P) PomeloTransactionAuthzResponse) (w : World S P) {e : Exception}
      → ((u : World S P) (e' : Exception) → (work u).0 ≢ err e')
      → (Steps.guarded env endpoint call work w).0 ≡ err e
      → comparison endpoint call ≡ err e
  unfolding Steps.guarded compute_signature verify_signature
  guarded-eq-err endpoint call work w {e} answers h =
      let hash : List ℕ = env.hmac_sha256_base64 env.pomelo_api_secret (
        env.from_utf8 call.unix_timestamp_seconds
        ++ env.from_utf8 endpoint
        ++ call.raw_body_buffer) in
      let received = codes call.raw_signature in
      ground (
        arith,
        remove_first-scheme hash,
        answers w e,
        answers (verify_signature env received (scheme ++ hash) w).1 e,
      )

  -- An answer other than OTHER is that of the work, and the guard lets the same call through again.
  pub guarded-eq-ok :
      (endpoint : String) (call : SignedCall)
      (work : Action (World S P) PomeloTransactionAuthzResponse) (w : World S P) {w' : World S P}
      {r : PomeloTransactionAuthzResponse}
      → Steps.guarded env endpoint call work w ≡ (ok r, w')
      → r.detailed_status ≢ PomeloTransactionAuthzDetailStatus.other
      → (work w ≡ (ok r, w')) × (Steps.guarded env endpoint call work w' ≡ work w')
  unfolding Steps.guarded verify_signature prepare_authorization_response
  guarded-eq-ok endpoint call work w h settled = (ground arith, ground arith)

  -- An answer other than SYSTEM_ERROR is that of the `try`.
  pub process-eq-ok :
      (saving : String → PomeloTransactionSaveRequest)
      (work : PomeloTransaction → Action (World S P) PomeloTransactionAuthzResponse) (w : World S P)
      {w' : World S P} {r : PomeloTransactionAuthzResponse}
      → Steps.process env saving work w ≡ (ok r, w')
      → r.detailed_status ≢ PomeloTransactionAuthzDetailStatus.system_error
      → Steps.attempt env saving work w ≡ (ok r, w')
  unfolding Steps.process prepare_authorization_response
  process-eq-ok saving work w h processed = ground arith
