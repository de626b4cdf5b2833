-- ===== src/Deployer/Failing.antt =====
-- How a deployment fails: the final state of every way out but success.
use asty.Common.{
  refl, sym, ◌∙◌, Bool, true, false, List, [], ◌∷◌, Option, none, some, Text, inl, inr,
}
use asty.Types.Allocation.{ServiceAllocation}
use asty.Deployer.Plan.{
  failed, reverted, rollback_failed, Cause, no_previous, revert, RollbackAction, send_update,
  wait_health, DeploymentPlan, DeploymentStatus, Deployer,
}
use asty.Deployer.History.{record_rollback_step}
use asty.Deployer.Ring.{newest, newest-update_last}
use asty.Kv.Store.{KvError}
use asty.Deployer.Rollout
use asty.Deployer.Rollout.{
  Site, Env, run_batch, canary_batch, canary_tries, deploy_canary_with_retries, start_index,
  rolling_update,
}
use asty.Deployer.Revert.{
  fail_deployment, mark_rollback_failed, revert_one, revert_all, resent, remarked, no_way_back,
  settled, sent_back, with_touched, revert_deployment, handle_failure,
}
use asty.Deployer.Failures.{
  IsLogged, newest_state-update, Fails, Fails-like, either-Fails, none_of, chosen-IsLogged,
}

module _ {B : Type 0} (env : Env B) (plan : DeploymentPlan) where
  fail_deployment-Fails :
      (st : DeploymentStatus) (c : Cause) (w : Site B)
      → IsLogged w.deployer
      → Fails st (fail_deployment st c w)
  unfolding fail_deployment
  fail_deployment-Fails st c w l = record {
    state = inl refl;
    reason = λ e. cc;
    updated = refl;
    total = refl;
    written = newest_state-update w.deployer failed _ l;
  }

  record_rollback_step-IsLogged :
      (node : Text) (action : RollbackAction) (ok : Bool) (d : Deployer)
      → IsLogged d
      → IsLogged (record_rollback_step node plan action ok d)
  unfolding record_rollback_step
  record_rollback_step-IsLogged node action ok d l e =
      l (none_of _ (newest d.history) (sym (newest-update_last _ d.history) ∙ e))

  mark_rollback_failed-Fails :
      (st : DeploymentStatus) (c : Cause) (w : Site B)
      → IsLogged w.deployer
      → Fails st (mark_rollback_failed env plan st c w)
  unfolding mark_rollback_failed
  mark_rollback_failed-Fails st c w l = record {
    state = inr (inr refl);
    reason = λ e. cc;
    updated = refl;
    total = refl;
    written = newest_state-update w.deployer rollback_failed 0 l;
  }

  revert_one-IsLogged :
      (a : ServiceAllocation) (w : Site B)
      → IsLogged w.deployer
      → IsLogged (revert_one env plan a w).1.deployer
  unfolding revert_one
  revert_one-IsLogged a w l =
      answered (Rollout.mark_pending env plan a plan.current_version w.bucket)
    where
      resent_lem :
          (d : Deployer) (r : Bool × B) → IsLogged d → IsLogged (resent env plan a d r).1.deployer
      resent_lem d (false, b) h =
          unfold resent in record_rollback_step-IsLogged a.node_id send_update false d h
      resent_lem d (true, b) h =
          unfold resent in record_rollback_step-IsLogged a.node_id send_update true d h

      answered : (r : Option KvError × B) → IsLogged (remarked env plan a w.deployer r).1.deployer
      answered (some e, b) =
          unfold remarked in
          record_rollback_step-IsLogged a.node_id RollbackAction.mark_pending false w.deployer l
      answered (none, b) =
          unfold remarked in
          resent_lem _ _
            (record_rollback_step-IsLogged a.node_id RollbackAction.mark_pending true w.deployer l)

  revert_all-IsLogged :
      (as' : List ServiceAllocation) (w : Site B)
      → IsLogged w.deployer
      → IsLogged (revert_all env plan as' w).1.deployer
  unfolding revert_all
  revert_all-IsLogged [] w l = l
  revert_all-IsLogged (a ∷ as') w l =
      let h = revert_one-IsLogged a w l in
      chosen-IsLogged (revert_one env plan a w).1
        (revert_all env plan as' (revert_one env plan a w).1) (revert_one env plan a w).0 h
        (revert_all-IsLogged as' (revert_one env plan a w).1 h)

  settled-Fails :
      (st : DeploymentStatus) (c : Cause) (r : Bool × B) (d : Deployer)
      → IsLogged d
      → Fails st (settled env plan st c r d)
  unfolding settled
  settled-Fails st c (false, b) d l =
      mark_rollback_failed-Fails st _ _ (record_rollback_step-IsLogged [] wait_health false d l)
  settled-Fails st c (true, b) d l = record {
    state = inr (inl refl);
    reason = λ e. cc;
    updated = refl;
    total = refl;
    written =
        newest_state-update _ reverted 0 (record_rollback_step-IsLogged [] wait_health true d l);
  }

  sent_back-Fails :
      (st : DeploymentStatus) (c : Cause) (touched : List ServiceAllocation)
      (r : Option Cause × Site B)
      → IsLogged r.1.deployer
      → Fails st (sent_back env plan st c touched r)
  unfolding sent_back
  sent_back-Fails st c touched (some e, w) l = mark_rollback_failed-Fails st e w l
  sent_back-Fails st c touched (none, w) l = settled-Fails st c _ w.deployer l

  with_touched-Fails :
      (st : DeploymentStatus) (c : Cause) (touched : List ServiceAllocation) (w : Site B)
      → IsLogged w.deployer
      → Fails st (with_touched env plan st c touched w)
  unfolding with_touched
  with_touched-Fails st c [] w l = record {
    state = inr (inl refl);
    reason = λ e. cc;
    updated = refl;
    total = refl;
    written = newest_state-update w.deployer reverted 0 l;
  }
  with_touched-Fails st c (a ∷ as') w l =
      sent_back-Fails st c (a ∷ as') (revert_all env plan (a ∷ as') w)
        (revert_all-IsLogged (a ∷ as') w l)

  pub handle_failure-Fails :
      (st : DeploymentStatus) (c : Cause) (w : Site B)
      → IsLogged w.deployer
      → Fails st (handle_failure env plan st c w)
  unfolding handle_failure revert_deployment
  handle_failure-Fails st c w l =
      let st' = record st { phase = revert; error = some c } in
      either-Fails st plan.update_strategy.auto_revert _ _
        (either-Fails st (no_way_back env plan) _ _
          (Fails-like st st' _ refl refl (fail_deployment-Fails st' no_previous w l))
          (Fails-like st st' _ refl refl (with_touched-Fails st' c w.deployer.touched w l)))
        (fail_deployment-Fails st c w l)
