-- ===== src/Examples/Messaging.antt =====
-- A partition whose program is busy for four deliveries in a row.
use program_capacity_invoice.Prelude.{◌≡◌, false, ◌*◌, ◌^◌, min, [], codes, refl}
use program_capacity_invoice.Errors.{ok, capacity_busy}
use program_capacity_invoice.Capacity.Messaging.{
  process, is_permanent, failed, succeeded, redelivered, after_failures, default_retry_policy,
  backoff_doubles,
}

busy_temporary : is_permanent capacity_busy ≡ false
unfolding is_permanent
busy_temporary = refl

backoff_doubles_example :
    (process default_retry_policy (codes "treasury[0]") (failed capacity_busy) (ok tt) (
      after_failures default_retry_policy
        (codes "treasury[0]")
        capacity_busy
        (ok tt)
        3
        (process default_retry_policy (codes "treasury[0]") succeeded (ok tt) []).1)).0
    ≡ redelivered (min (200 * 2 ^ 3) 10000)
backoff_doubles_example =
    backoff_doubles default_retry_policy (codes "treasury[0]") capacity_busy (ok tt) 3 []
      busy_temporary
