-- ===== src/Deployer/Waves.antt =====
-- The rolling update comes to its end and reaches every copy.
use asty.Common.{
  ℕ, zero, suc, ◌+◌, ◌≤◌, ◌≡◌, refl, subst, Bool, true, false, List, [], ◌∷◌, ◌++◌, Option, none,
  some, arith, if◌then◌else◌, length, take, drop, length-drop, length-append, take-append-drop,
}
use asty.Common.Int.{pos_part}
use asty.Types.Allocation.{ServiceAllocation}
use asty.Kv.Store.{KvError}
use asty.Deployer.Plan.{Cause, DeploymentPlan, unhealthy, cancelled, record_touched}
use asty.Deployer.Tracker.{wait_for_batch_health}
use asty.Deployer.Rollout.{
  Site, Env, sent, marked, mark_pending, dispatch_one, dispatch_batch, awaited, run_batch, waves,
}
use asty.Deployer.Coverage.{
  touch-keeps, touch_self, Keeps, Keeps-refl, Keeps-trans, Covers, Covers-Keeps, Covers-append,
  Dispatches,
}

module _ {B : Type 0} (env : Env B) (plan : DeploymentPlan) where
  sent-Dispatches :
      (a : ServiceAllocation) (w : Site B) (r : Bool × B)
      → Dispatches (a ∷ []) w (sent env plan a w.deployer r)
  unfolding sent record_touched
  sent-Dispatches a w (false, b) = Keeps-refl w _ refl
  sent-Dispatches a w (true, b) = (
    record { still = λ x h. touch-keeps x a w.deployer.touched h; same_history = refl },
    (touch_self a w.deployer.touched, tt),
  )

  dispatch_one-Dispatches :
      (a : ServiceAllocation) (w : Site B) → Dispatches (a ∷ []) w (dispatch_one env plan a w)
  unfolding dispatch_one
  dispatch_one-Dispatches a w = answered (mark_pending env plan a plan.target_version w.bucket)
    where
      answered : (r : Option KvError × B) → Dispatches (a ∷ []) w (marked env plan a w.deployer r)
      answered (some e, b) = unfold marked in Keeps-refl w (record w { bucket = b }) refl
      answered (none, b) = unfold marked in sent-Dispatches a w _

  -- A stage, and the next one if it goes well.
  joined :
      (xs ys : List ServiceAllocation) (w : Site B) (r rest : Option Cause × Site B)
      → Dispatches xs w r
      → Dispatches ys r.1 rest
      → Dispatches (xs ++ ys) w (elim r.0 [ none ↦ rest | some c ↦ (some c, r.1) ])
  joined xs ys w (some c, w₁) rest d e = d
  joined xs ys w (none, w₁) (some c, w₂) d e = Keeps-trans w w₁ w₂ d.0 e
  joined xs ys w (none, w₁) (none, w₂) d e =
      (Keeps-trans w w₁ w₂ d.0 e.0, Covers-append w₂ xs ys (Covers-Keeps w₁ w₂ xs e.0 d.1) e.1)

  dispatch_batch-Dispatches :
      (batch : List ServiceAllocation) (w : Site B)
      → Dispatches batch w (dispatch_batch env plan batch w)
  unfolding dispatch_batch
  dispatch_batch-Dispatches [] w = (Keeps-refl w w refl, tt)
  dispatch_batch-Dispatches (a ∷ as') w =
      let r = dispatch_one env plan a w in
      joined (a ∷ []) as' w r (dispatch_batch env plan as' r.1) (dispatch_one-Dispatches a w)
        (dispatch_batch-Dispatches as' r.1)

  awaited-Dispatches :
      (batch : List ServiceAllocation) (w : Site B) (r : Option Cause × Site B)
      → Dispatches batch w r
      → Dispatches batch w (awaited env plan batch r)
  unfolding awaited
  awaited-Dispatches batch w (some c, w₁) d = d
  awaited-Dispatches batch w (none, w₁) d =
      verdict
        (wait_for_batch_health env.store env.watch plan.update_strategy.min_healthy_time batch
          w₁.bucket).0
        _
    where
      verdict :
          (ok : Bool) (b : B)
          → Dispatches batch w (if ok then none else some unhealthy, record w₁ { bucket = b })
      verdict true b = (Keeps-trans w w₁ _ d.0 (Keeps-refl w₁ _ refl), d.1)
      verdict false b = Keeps-trans w w₁ _ d.0 (Keeps-refl w₁ _ refl)

  pub run_batch-Dispatches :
      (batch : List ServiceAllocation) (w : Site B)
      → Dispatches batch w (run_batch env plan batch w)
  unfolding run_batch
  run_batch-Dispatches batch w =
      awaited-Dispatches batch w (dispatch_batch env plan batch w)
        (dispatch_batch-Dispatches batch w)

  -- How the loop ends: it drops no touched copy, its count is within the total, and if it goes well
  -- every copy is touched and counted.
  abbrev pub Ends : List ServiceAllocation → ℕ → Site B → Option Cause × ℕ × Site B → Type 0
  Ends as' updated w (none, n, w') = Keeps w w' × Covers w' as' × (n ≡ updated + length as')
  Ends as' updated w (some c, n, w') = Keeps w w' × (n ≤ updated + length as')

  -- One turn of the loop, by whether the run is cancelled, and by its batch and the rest.
  next_wave :
      (stopped : Bool) (batch as' : List ServiceAllocation) (updated : ℕ) (w : Site B)
      (r : Option Cause × Site B) (rest : Option (Option Cause × ℕ × Site B))
      → Dispatches batch w r
      → (r' : Option Cause × ℕ × Site B) × (rest ≡ some r')
        × Ends as' (updated + length batch) r.1 r'
      → (r'' : Option Cause × ℕ × Site B) × ((if stopped
            then some (some cancelled, updated, w)
            else elim r.0 [ none ↦ rest | some c ↦ some (some c, updated, r.1) ])
          ≡ some r'')
        × Ends (batch ++ as') updated w r''
  next_wave true batch as' updated w r rest d e =
      ((some cancelled, updated, w), refl, (Keeps-refl w w refl, omega arith))
  next_wave false batch as' updated w (some c, w₁) rest d e =
      ((some c, updated, w₁), refl, (d, omega arith))
  next_wave false batch as' updated w (none, w₁) rest d ((some c, n, w₂), p, e) = (
    (some c, n, w₂),
    p,
    (Keeps-trans w w₁ w₂ d.0 e.0, omega (arith, e.1, length-append {0} batch as')),
  )
  next_wave false batch as' updated w (none, w₁) rest d ((none, n, w₂), p, e) = (
    (none, n, w₂),
    p,
    (
      Keeps-trans w w₁ w₂ d.0 e.0,
      Covers-append w₂ batch as' (Covers-Keeps w₁ w₂ batch e.0 d.1) e.1,
      omega (arith, e.2, length-append {0} batch as'),
    ),
  )

  -- With a stride of at least 1 and as many rounds as there are copies, the loop comes to its end.
  pub waves-Ends :
      (n : ℕ) (as' : List ServiceAllocation) (updated : ℕ) (w : Site B)
      → 1 ≤ pos_part plan.update_strategy.max_parallel
      → length as' ≤ n
      → (r : Option Cause × ℕ × Site B) × (waves env plan n as' updated w ≡ some r)
        × Ends as' updated w r
  unfolding waves
  waves-Ends zero [] updated w h b =
      ((none, updated, w), refl, (Keeps-refl w w refl, tt, omega arith))
  waves-Ends (suc n) [] updated w h b =
      ((none, updated, w), refl, (Keeps-refl w w refl, tt, omega arith))
  waves-Ends zero (a ∷ as') updated w h b = absurd (omega arith)
  waves-Ends (suc n) (a ∷ as') updated w h b =
      let size = pos_part plan.update_strategy.max_parallel in
      let batch = take size (a ∷ as') in
      let left = drop size (a ∷ as') in
      let r = run_batch env plan batch w in
      let (r', p, q) =
        next_wave (env.stop w.bucket) batch left updated w r
          (waves env plan n left (updated + length batch) r.1) (run_batch-Dispatches batch w)
          (waves-Ends n left (updated + length batch) r.1 h
            (omega (arith, h, b, length-drop {0} size (a ∷ as')))) in
      (r', p, subst (λ l. Ends l updated w r') (take-append-drop size (a ∷ as')) q)
