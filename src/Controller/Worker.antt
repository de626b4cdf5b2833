-- ===== src/Controller/Worker.antt =====
-- What a turn of a worker leaves of its key in the queue.
use asty.Common.{
  ℕ, suc, ◌+◌, ◌≡◌, ap, ◌∙◌, Bool, false, some, List, Text, arith, if◌then◌else◌, same_refl,
}
use asty.Common.Map.{has, has-del, insert, lookup-insert, lookup-erase, count_of}
use asty.Types.Node.{NodeInfo}
use asty.Types.Service.{ServiceDefinition}
use asty.Kv.Store.{Store}
use asty.Scheduler.Helpers.{Config}
use asty.Workqueue.{
  Workqueue, got, get, done, add_rate_limited, add_after, add_locked, forget, rate_limited_delay,
}
use asty.Controller.Dispatch.{World}
use asty.Controller.Pass.{reconcile, settle_key, worked, work_once}

done-processing : (q : Workqueue) (key : Text) → has key (done q key).processing ≡ false
unfolding done
done-processing q key = ground (arith, has-del key key q.processing, same_refl key)

done-failures : (q : Workqueue) (key : Text) → (done q key).failures ≡ q.failures
unfolding done
done-failures q key = ground arith

add_after-failures :
    (q : Workqueue) (key : Text) (delay now : ℕ) → (add_after q key delay now).failures ≡ q.failures
unfolding add_after add_locked
add_after-failures q key delay now = ground arith

count-rate_limited :
    (q : Workqueue) (key : Text) (now : ℕ)
    → count_of key (add_rate_limited q key now).failures ≡ suc (count_of key q.failures)
unfolding add_rate_limited count_of
count-rate_limited q key now =
    let m = insert key (count_of key q.failures + 1) q.failures in
    ap (count_of key) {y = m} (
      add_after-failures (record q { failures = m }) key
        (rate_limited_delay (count_of key q.failures) q.base_delay q.max_delay) now)
    ∙ ground (arith, lookup-insert key key (count_of key q.failures + 1) q.failures, same_refl key)

count-forget : (q : Workqueue) (key : Text) → count_of key (forget q key).failures ≡ 0
unfolding forget count_of
count-forget q key = ground (arith, lookup-erase key key q.failures, same_refl key)

module _ {B : Type 0} (s : Store B) (cfg : Config) (traffic : NodeInfo → Bool)
    (dispatch : Text → ServiceDefinition → B → Bool × B) (services : List ServiceDefinition) where
  -- A worker that is given a key comes to the end of its turn. Then the key is not being processed,
  -- its count of failures has gone up by one if `reconcile` failed, and else is 0, also where a
  -- start command failed on the way.
  pub work_once_lem :
      (now : ℕ) (w : World B) (key : Text) (q : Workqueue)
      → get w.queue ≡ got key q
      → let (failed, w₁) =
          reconcile s cfg traffic dispatch services key now (record w { queue = q }) in
        (w' : World B) × (work_once s cfg traffic dispatch services now w ≡ some w')
        × (has key w'.queue.processing ≡ false)
        × (count_of key w'.queue.failures
            ≡ (if failed then suc (count_of key w₁.queue.failures) else 0))
  unfolding work_once settle_key
  work_once_lem now w key q e =
      let r = reconcile s cfg traffic dispatch services key now (record w { queue = q }) in
      let q' = if r.0 then add_rate_limited r.1.queue key now else forget r.1.queue key in
      (
        settle_key s cfg traffic dispatch services key now r,
        ap (worked s cfg traffic dispatch services now w) e,
        done-processing q' key,
        ap (count_of key) (done-failures q' key)
            ∙ ground (arith, count-rate_limited r.1.queue key now, count-forget r.1.queue key),
      )
