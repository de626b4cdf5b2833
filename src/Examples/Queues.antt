-- ===== src/Examples/Queues.antt =====
-- The work queue at concrete histories.
use asty.Common.{◌≡◌, refl, ◌⊎◌, true, false, [], ◌∷◌, Text, codes, same, min, ◌*◌, ◌^◌}
use asty.Common.Map.{has}
use asty.Workqueue.{Workqueue, got, new_workqueue, add_locked, get, done, rate_limited_delay}
use asty.Workqueue.Delivery.{adds, gets, dones, run, step, IsPending, Given, run-IsPending}
use asty.Workqueue.Tracking.{add-run-IsPending}
use asty.Workqueue.Backoff.{rate_limited_delay_lem}
use asty.Workqueue.Duplicates.{done-add_twice}

abbrev api : Text
api = codes "api"

-- The key waits, and its worker has not come yet.
abbrev waiting : Workqueue
waiting = record {
  queue = api ∷ [];
  dirty = api ∷ [];
  processing = [];
  delayed = [];
  failures = [];
  base_delay = 500000000;
  max_delay = 60000000000;
  closed = false;
}

-- The key is with a worker and was added again.
abbrev marked : Workqueue
marked = record waiting { queue = []; processing = api ∷ [] }

run-IsPending_example :
    IsPending api (run waiting (adds api ∷ (gets ∷ (dones api ∷ []))))
    ⊎ Given api waiting (adds api ∷ (gets ∷ (dones api ∷ [])))
unfolding has same
run-IsPending_example = run-IsPending api waiting (adds api ∷ (gets ∷ (dones api ∷ []))) refl

add-run-IsPending_example :
    IsPending api (add_locked (run new_workqueue (adds api ∷ (gets ∷ []))) api)
unfolding run step get add_locked new_workqueue has
add-run-IsPending_example = add-run-IsPending (adds api ∷ (gets ∷ [])) api refl

rate_limited_delay_lem_example : rate_limited_delay 3 500 60000 ≡ min (500 * 2 ^ 3) 60000
rate_limited_delay_lem_example = rate_limited_delay_lem 3 500 60000

done-add_twice_example :
    (q₁ : Workqueue) × (q₂ : Workqueue) × (get (add_locked (done marked api) api) ≡ got api q₁)
    × (get q₁ ≡ got api q₂)
    × (has api q₁.processing ≡ true)
unfolding has same
done-add_twice_example = done-add_twice marked api refl refl refl
