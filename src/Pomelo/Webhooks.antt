-- ===== src/Pomelo/Webhooks.antt =====
-- The two webhooks on any call: who may call them, and what escapes from them.
use noba_server.Common.Base.{◌≡◌, ℕ, String, true, List, none, some, ◌⊎◌}
use noba_server.Common.Action.{ok, err}
use noba_server.Common.Exception.{Exception}
use noba_server.Pomelo.Domain.{
  PomeloTransactionAuthzRequest, PomeloTransactionAdjustmentRequest, PomeloTransactionAuthzResponse,
  PomeloAdjustmentType,
}
use noba_server.Pomelo.Environment.{Environment, World}
use noba_server.Pomelo.Assumptions.{CryptoLaws}
use noba_server.Pomelo.Signature.{
  compute_signature, verify_signature, sign_transaction_authorization_response,
  sign_transaction_adjustment_response, transaction_authz_endpoint, transaction_adjustment_endpoint,
}
use noba_server.Pomelo.Guards.{
  IsAuthentic, IsUntouched, other, comparison, guarded-IsAuthentic, guarded-eq-err, process_answers,
  compute-verify,
}
use noba_server.Pomelo.Steps
use noba_server.Pomelo.Authorize.{authorize_transaction, authorize_pending}
use noba_server.Pomelo.Adjust.{adjust_transaction, adjust_pending}

module _ {S P : Type 0} (env : Environment S P) where
  module _ (laws : CryptoLaws env) where
    -- Where `timingSafeEqual` is sound, a request to authorize that returns either came to the
    -- endpoint with the HMAC of timestamp, endpoint and body under the secret, or was answered OTHER
    -- with the services, the table and the UUIDs left as they were.
    pub authorize_transaction-IsAuthentic :
        (request : PomeloTransactionAuthzRequest) (w : World S P) {w' : World S P}
        {r : PomeloTransactionAuthzResponse}
        → authorize_transaction env request w ≡ (ok r, w')
        → ((r ≡ other env) × IsUntouched env w w')
          ⊎ IsAuthentic env transaction_authz_endpoint request.call
    unfolding authorize_transaction
    authorize_transaction-IsAuthentic request w h =
        guarded-IsAuthentic env laws transaction_authz_endpoint request.call
          (Steps.process env (Steps.save_request env request.call none request.details)
            (authorize_pending env request.details))
          w h

    -- The same of a request to adjust, whose endpoint ends in the type of the adjustment.
    pub adjust_transaction-IsAuthentic :
        (request : PomeloTransactionAdjustmentRequest) (w : World S P) {w' : World S P}
        {r : PomeloTransactionAuthzResponse}
        → adjust_transaction env request w ≡ (ok r, w')
        → ((r ≡ other env) × IsUntouched env w w')
          ⊎ IsAuthentic env (transaction_adjustment_endpoint request.adjustment_type) request.call
    unfolding adjust_transaction
    adjust_transaction-IsAuthentic request w h =
        guarded-IsAuthentic env laws (transaction_adjustment_endpoint request.adjustment_type)
          request.call
          (Steps.process env
            (Steps.save_request env request.call (some request.pomelo_original_transaction_id)
              request.details)
            (adjust_pending env request))
          w h

    -- Where `timingSafeEqual` is true of equal bytes, what either signing method makes for a
    -- timestamp and a body is accepted by `verifySignature` against the signature that the webhook of
    -- that endpoint computes, and nothing is changed or reported.
    pub sign-verify :
        (timestamp : String) (body : List ℕ) (type : PomeloAdjustmentType) (w : World S P)
        → (verify_signature env
              (sign_transaction_authorization_response env timestamp body)
              (compute_signature env timestamp transaction_authz_endpoint body)
              w
            ≡ (ok true, w))
          × (verify_signature env
                (sign_transaction_adjustment_response env timestamp body type)
                (compute_signature env timestamp (transaction_adjustment_endpoint type) body)
                w
              ≡ (ok true, w))
    unfolding sign_transaction_authorization_response sign_transaction_adjustment_response
    sign-verify timestamp body type w = (
      compute-verify env laws timestamp transaction_authz_endpoint body w,
      compute-verify env laws timestamp (transaction_adjustment_endpoint type) body w,
    )

  -- An exception leaves the authorization only if `timingSafeEqual` throws it, on the received and
  -- the expected signature: those of the services, the repository and Joi are all answered.
  pub authorize_transaction-eq-err :
      (request : PomeloTransactionAuthzRequest) (w : World S P) {e : Exception}
      → (authorize_transaction env request w).0 ≡ err e
      → comparison env transaction_authz_endpoint request.call ≡ err e
  unfolding authorize_transaction
  authorize_transaction-eq-err request w h =
      let saving = Steps.save_request env request.call none request.details in
      let work = authorize_pending env request.details in
      guarded-eq-err env transaction_authz_endpoint request.call (Steps.process env saving work) w
        (λ u e'. process_answers env saving work u {e = e'}) h

  -- The same of an adjustment.
  pub adjust_transaction-eq-err :
      (request : PomeloTransactionAdjustmentRequest) (w : World S P) {e : Exception}
      → (adjust_transaction env request w).0 ≡ err e
      → comparison env (transaction_adjustment_endpoint request.adjustment_type) request.call
        ≡ err e
  unfolding adjust_transaction
  adjust_transaction-eq-err request w h =
      let saving =
        Steps.save_request env request.call (some request.pomelo_original_transaction_id)
          request.details in
      let work = adjust_pending env request in
      guarded-eq-err env (transaction_adjustment_endpoint request.adjustment_type) request.call
        (Steps.process env saving work) w (λ u e'. process_answers env saving work u {e = e'}) h
