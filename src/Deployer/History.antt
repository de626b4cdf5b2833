-- ===== src/Deployer/History.antt =====
-- asty/internal/ops/deployer/history.go: the ring of deployment records. Publishing them is left out.
use asty.Common.{
  ℕ, Bool, ◌==◌, ◌&&◌, List, [], ◌∷◌, ◌++◌, Option, none, some, Text, same, leb, if◌then◌else◌,
  length, drop, reverse,
}
use asty.Common.Int.{pos, ltb_ℤ}
use asty.Deployer.Plan.{
  State, running, DeploymentRecord, DeploymentPlan, Deployer, RollbackStep, RollbackAction,
}

abbrev pub history_cap : ℕ
history_cap = 100

-- An append that drops the oldest record of a full history.
unfoldable pub appended : DeploymentRecord → List DeploymentRecord → List DeploymentRecord
appended r h = (if leb history_cap (length h) then drop 1 h else h) ++ r ∷ []

unfoldable pub add_record : DeploymentRecord → Deployer → Deployer
unfolding appended
add_record r d = record d { history = appended r d.history }

-- `beginRecord` at a time.
unfoldable pub begin_record : DeploymentPlan → ℕ → Deployer → Deployer
unfolding add_record
begin_record plan now d =
    add_record
      (record {
        id = (plan.service_name, now);
        service = plan.service_name;
        version = plan.target_version;
        by_canary = ltb_ℤ (pos 0) plan.update_strategy.canary;
        status = running;
        progress = 0;
        rollback_steps = [];
      })
      d

abbrev pub same_id : Text × ℕ → Text × ℕ → Bool
same_id (s, t) (s', t') = same s s' && t == t'

-- The loop of `ApplyRemoteRecord`: the history with the record in place of the one of its ID.
unfoldable pub replaced : DeploymentRecord → List DeploymentRecord → Option (List DeploymentRecord)
replaced r [] = none
replaced r (x ∷ xs) =
    let rest = replaced r xs in
    if same_id x.id r.id then some (r ∷ xs) else elim rest [ none ↦ none | some ys ↦ some (x ∷ ys) ]

unfoldable pub apply_remote_record : DeploymentRecord → Deployer → Deployer
unfolding replaced appended
apply_remote_record r d = record d {
  history = elim (replaced r d.history) [ none ↦ appended r d.history | some h ↦ h ];
}

-- A change of the last record, if there is one.
unfoldable pub update_last :
    (DeploymentRecord → DeploymentRecord) → List DeploymentRecord → List DeploymentRecord
update_last f [] = []
update_last f (r ∷ []) = f r ∷ []
update_last f (r ∷ (s ∷ rs)) = r ∷ update_last f (s ∷ rs)

unfoldable pub update_last_record : State → ℕ → Deployer → Deployer
unfolding update_last
update_last_record st progress d = record d {
  history = update_last (λ r. record r { status = st; progress = progress }) d.history;
}

unfoldable pub record_rollback_step :
    Text → DeploymentPlan → RollbackAction → Bool → Deployer → Deployer
unfolding update_last
record_rollback_step node plan action ok d =
    let step : RollbackStep = record {
      node_id = node;
      from_version = plan.target_version;
      to_version = plan.current_version;
      action = action;
      ok = ok;
    } in
    record d {
      history =
          update_last (λ r. record r { rollback_steps = r.rollback_steps ++ step ∷ [] }) d.history;
    }

unfoldable pub get_history : Deployer → List DeploymentRecord
get_history d = reverse d.history
