-- ===== src/Common/Alert.antt =====
-- common/alerts: what the service raises for its operators. Messages are left out.
pub data AlertKey : Type 0 where
  temporal_down stale_fx_rates exchange_rate_update_failed mono_transaction_not_found : AlertKey
  webhook_consumer_not_found transaction_failed unmatched_account_credited_mono_event : AlertKey
  payroll_expired unexpected_transfer_check circle_balance_update_failed : AlertKey
  possible_data_corruption : AlertKey

-- `AlertService.raiseError` and `AlertService.raiseCriticalAlert`.
pub data Alert : Type 0 where
  error : Alert
  critical : AlertKey → Alert
