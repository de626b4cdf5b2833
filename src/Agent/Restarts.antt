-- ===== src/Agent/Restarts.antt =====
-- The restart budget: a start that succeeds resets the count of failures.
use asty.Common.{
  ℕ, suc, ◌+◌, ◌≡◌, refl, ap, ◌∙◌, false, Option, some, arith, ◌>>=◌, List, [], ◌∷◌, length,
}
use asty.Common.Int.{ℤ, pos, leb_ℤ}
use asty.Types.Allocation.{ServiceAllocation, running, is_status}
use asty.Types.Service.{Restart, get_attempts}
use asty.Controller.Dispatch.{to_starting}
use asty.Agent.Process.{on_failure, requeued, started}

-- A crash, the way back to pending, the controller's start command and a start with a process ID, on
-- the record of the copy. `none` is a callback that declines.
unfoldable pub crash_cycle : ℤ → ℕ → ServiceAllocation → Option ServiceAllocation
unfolding on_failure requeued to_starting started
crash_cycle budget pid a = (on_failure budget false a).1 >>= λ a₁.
    (requeued false a₁).1 >>= λ a₂. (to_starting false a₂).1 >>= λ a₃. (started pid false a₃).1

unfoldable pub crash_cycles : ℤ → List ℕ → ServiceAllocation → Option ServiceAllocation
unfolding crash_cycle
crash_cycles budget [] a = some a
crash_cycles budget (pid ∷ pids) a = crash_cycle budget pid a >>= crash_cycles budget pids

-- A copy that runs with no failures counted.
pub record IsFresh (a : ServiceAllocation) : Type 0 where
  pub runs : a.status ≡ running
  pub unfailed : a.consecutive_failures ≡ 0

-- The same record after so many starts more.
pub record IsRestarted (n : ℕ) (a a' : ServiceAllocation) : Type 0 where
  pub fresh : IsFresh a'
  pub restarted : a'.restarts ≡ a.restarts + n

crash_cycle_lem :
    (budget : ℤ) (pid : ℕ) (a : ServiceAllocation)
    → leb_ℤ budget (pos 0) ≡ false
    → IsFresh a
    → (a' : ServiceAllocation) × (crash_cycle budget pid a ≡ some a') × IsRestarted 1 a a'
unfolding crash_cycle on_failure requeued to_starting started is_status
crash_cycle_lem budget pid a h f =
    rw (f.unfailed, h)
      (
        record a {
          pid = pid;
          status = running;
          consecutive_failures = 0;
          restarts = suc a.restarts;
        },
        refl,
        record { fresh = record { runs = refl; unfailed = refl }; restarted = omega arith },
      )

positive_attempts : (r : Restart) → leb_ℤ (get_attempts r) (pos 0) ≡ false
unfolding get_attempts
positive_attempts r = ground arith

crash_cycles_lem :
    (budget : ℤ) (pids : List ℕ) (a : ServiceAllocation)
    → leb_ℤ budget (pos 0) ≡ false
    → IsFresh a
    → (a' : ServiceAllocation) × (crash_cycles budget pids a ≡ some a')
      × IsRestarted (length pids) a a'
unfolding crash_cycles
crash_cycles_lem budget [] a h f = (a, refl, record { fresh = f; restarted = omega arith })
crash_cycles_lem budget (pid ∷ pids) a h f =
    let (a₁, e, m) = crash_cycle_lem budget pid a h f in
    let (a₂, q, k) = crash_cycles_lem budget pids a₁ h m.fresh in
    (
      a₂,
      ap (λ o. o >>= crash_cycles budget pids) e ∙ q,
      record { fresh = k.fresh; restarted = omega (arith, m.restarted, k.restarted) },
    )

-- A copy that runs with no failures counted, and that crashes after each of its starts, is started
-- again every time, whatever its budget is: it is running then, with no failures counted.
pub crash_cycles-IsRestarted :
    (r : Restart) (pids : List ℕ) (a : ServiceAllocation)
    → IsFresh a
    → (a' : ServiceAllocation) × (crash_cycles (get_attempts r) pids a ≡ some a')
      × IsRestarted (length pids) a a'
crash_cycles-IsRestarted r pids a f =
    crash_cycles_lem (get_attempts r) pids a (positive_attempts r) f
