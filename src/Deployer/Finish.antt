-- ===== src/Deployer/Finish.antt =====
-- How `Deploy` ends: always, and in a final state.
use asty.Common.{
  ℕ, suc, ◌≤◌, ◌≡◌, ◌≢◌, refl, ap, subst, sym, ◌∙◌, Bool, true, false, Option, none, some, arith,
  if◌then◌else◌, inl, inr, ◌⊎◌, length, take, drop, take-append-drop, length-drop, same_refl,
}
use asty.Common.Int.{pos, pos_part, ltb_ℤ}
use asty.Common.Map.{put, has-del}
use asty.Deployer.Plan.{
  completed, Cause, rolling, DeploymentRecord, DeploymentPlan, DeploymentStatus, Deployer, claim,
  release, is_in_flight,
}
use asty.Deployer.History.{begin_record, add_record, appended, update_last_record}
use asty.Deployer.Ring.{newest, newest-append}
use asty.Deployer.Rollout.{
  Site, Env, canary_batch, deploy_canary_with_retries, start_index, rolling_update,
}
use asty.Deployer.Coverage.{Keeps, Covers, Covers-Keeps, Covers-append, Dispatches}
use asty.Deployer.Waves.{Ends, waves-Ends}
use asty.Deployer.Revert.{Ended}
use asty.Deployer.Failures.{IsLogged, IsFailure, newest_state, newest_state-update, Fails}
use asty.Deployer.Failing.{handle_failure-Fails}
use asty.Deployer.Run.{
  Deployed, already_in_flight, ended, leave, first_status, succeed, rolled, roll, after_canary,
  prepare, begin, deploy,
}
use asty.Deployer.Canaries.{canary_tries-Dispatches}

module _ {B : Type 0} (env : Env B) (plan : DeploymentPlan) where
  -- A run that is over. Either it is completed with no error, every copy of the plan was dispatched
  -- and is counted; or it failed with an error, and no more copies are counted than there are. The
  -- newest record says so, and the service is not in flight.
  pub record IsOver (r : Ended B) : Type 0 where
    pub outcome :
        ((r.status.status ≡ completed)
          × (r.error ≡ none)
          × (r.status.updated ≡ length plan.allocations)
          × Covers r.site plan.allocations)
        ⊎ (IsFailure r.status.status
            × (r.error ≢ none)
            × (r.status.updated ≤ length plan.allocations))
    pub written : newest_state r.site.deployer ≡ some r.status.status
    pub released : is_in_flight plan.service_name r.site.deployer ≡ false

  abbrev pub EndsOver : Deployed B → Type 0
  EndsOver d = (r : Ended B) × (d ≡ ended r) × IsOver r

  released_lem :
      (d : Deployer) → is_in_flight plan.service_name (release plan.service_name d) ≡ false
  unfolding is_in_flight release
  released_lem d =
      ground (
        arith,
        has-del plan.service_name plan.service_name d.in_flight,
        same_refl plan.service_name,
      )

  failed-IsOver :
      (st : DeploymentStatus) (r : Ended B)
      → st.updated ≤ length plan.allocations
      → Fails st r
      → IsOver (leave env plan r)
  unfolding leave release
  failed-IsOver st r b f = record {
    outcome = inr (f.state, f.reason, omega (arith, f.updated, b));
    written = f.written;
    released = released_lem r.site.deployer;
  }

  succeeded-IsOver :
      (st : DeploymentStatus) (w : Site B)
      → st.updated ≡ length plan.allocations
      → Covers w plan.allocations
      → IsLogged w.deployer
      → IsOver (leave env plan (succeed env plan st w))
  unfolding leave succeed release update_last_record
  succeeded-IsOver st w u c l = record {
    outcome = inl (refl, refl, u, c);
    written = newest_state-update w.deployer completed 100 l;
    released = released_lem _;
  }

  IsLogged-Keeps : (w w' : Site B) → Keeps w w' → IsLogged w.deployer → IsLogged w'.deployer
  IsLogged-Keeps w w' k l e = l (ap newest (sym k.same_history) ∙ e)

  rolled-IsOver :
      (st : DeploymentStatus) (w : Site B) (r : Option Cause × ℕ × Site B)
      → Covers w (take (start_index env plan) plan.allocations)
      → IsLogged w.deployer
      → Ends env plan (drop (start_index env plan) plan.allocations) (start_index env plan) w r
      → EndsOver (rolled env plan st (some r))
  unfolding rolled start_index
  rolled-IsOver st w (some c, n, w') cov l (k, b) = (
    _,
    refl,
    failed-IsOver (record st { updated = n }) _
        (omega (arith, b, length-drop {0} (start_index env plan) plan.allocations))
        (handle_failure-Fails env plan (record st { updated = n }) c w' (IsLogged-Keeps w w' k l)),
  )
  rolled-IsOver st w (none, n, w') cov l (k, done, b) = (
    _,
    refl,
    succeeded-IsOver (record st { updated = n }) w'
        (omega (arith, b, length-drop {0} (start_index env plan) plan.allocations))
        (subst (Covers w') (take-append-drop (start_index env plan) plan.allocations)
          (Covers-append w' _ _ (Covers-Keeps w w' _ k cov) done))
        (IsLogged-Keeps w w' k l),
  )

  roll-IsOver :
      (st : DeploymentStatus) (w : Site B)
      → 1 ≤ pos_part plan.update_strategy.max_parallel
      → Covers w (take (start_index env plan) plan.allocations)
      → IsLogged w.deployer
      → EndsOver (roll env plan st w)
  unfolding roll rolling_update
  roll-IsOver st w h cov l =
      let k = start_index env plan in
      let (r, p, e) =
        waves-Ends env plan (length plan.allocations) (drop k plan.allocations) k w h
          (omega (arith, length-drop {0} k plan.allocations)) in
      let (x, q, o) = rolled-IsOver (record st { phase = rolling }) w r cov l e in
      (x, ap (rolled env plan (record st { phase = rolling })) p ∙ q, o)

  after_canary-IsOver :
      (st : DeploymentStatus) (w : Site B) (r : Option Cause × Site B)
      → 1 ≤ pos_part plan.update_strategy.max_parallel
      → st.updated ≡ 0
      → IsLogged w.deployer
      → Dispatches (canary_batch env plan) w r
      → EndsOver (after_canary env plan st r)
  unfolding after_canary canary_batch
  after_canary-IsOver st w (some c, w₁) h u l d = (
    _,
    refl,
    failed-IsOver st _ (omega (arith, u))
        (handle_failure-Fails env plan st c w₁ (IsLogged-Keeps w w₁ d l)),
  )
  after_canary-IsOver st w (none, w₁) h u l (k, cov) =
      roll-IsOver (record st { canary_healthy = true }) w₁ h cov (IsLogged-Keeps w w₁ k l)

  prepare-IsLogged : (now : ℕ) (d : Deployer) (b : B) → IsLogged (prepare env plan now d b).deployer
  unfolding prepare begin_record add_record appended
  prepare-IsLogged now d b e = none_some (sym (newest-append _ _) ∙ e)
    where
      none_some : {r : DeploymentRecord} → some r ≡ none → ⊥
      none_some h = cc

  no_canary : ltb_ℤ (pos 0) plan.update_strategy.canary ≡ false → start_index env plan ≡ 0
  unfolding start_index
  no_canary h = ground (arith, h)

  begin-IsOver :
      (d : Deployer) (b : B)
      → 1 ≤ pos_part plan.update_strategy.max_parallel
      → EndsOver (begin env plan d b)
  unfolding begin first_status deploy_canary_with_retries
  begin-IsOver d b h =
      let (now, b₁) = env.store.now b in
      let w = prepare env plan now d b₁ in
      let l = prepare-IsLogged now d b₁ in
      started w l (ltb_ℤ (pos 0) plan.update_strategy.canary) refl
    where
      started :
          (w : Site B)
          → IsLogged w.deployer
          → (c : Bool) → ltb_ℤ (pos 0) plan.update_strategy.canary ≡ c
          → EndsOver (
              if c
              then after_canary env plan
                  (first_status env plan)
                  (deploy_canary_with_retries env plan w)
              else roll env plan (first_status env plan) w)
      started w l true on =
          after_canary-IsOver (first_status env plan) w (deploy_canary_with_retries env plan w) h
            refl l
            (canary_tries-Dispatches env plan (suc (pos_part plan.update_strategy.canary_retries))
              w)
      started w l false off =
          roll-IsOver (first_status env plan) w h
            (subst (λ k. Covers w (take k plan.allocations)) (sym (no_canary off)) tt) l

  -- `Deploy` of a service that is not in flight comes to its end, with a stride of at least 1, and
  -- the run is over: it is completed only if every copy of the plan was dispatched.
  pub deploy-IsOver :
      (w : Site B)
      → is_in_flight plan.service_name w.deployer ≡ false
      → 1 ≤ pos_part plan.update_strategy.max_parallel
      → EndsOver (deploy env plan w)
  unfolding deploy claim is_in_flight
  deploy-IsOver w f h =
      let d : Deployer = record (w.deployer) {
        in_flight = put plan.service_name w.deployer.in_flight;
      } in
      let (r, q, o) = begin-IsOver d w.bucket h in
      (
        r,
        ap
              (λ (x : Option Deployer). elim x as (λ x. Deployed B) [
                | none ↦ already_in_flight
                | some d ↦ begin env plan d w.bucket
              ])
              {y = some d} (ground (arith, f))
            ∙ q,
        o,
      )
