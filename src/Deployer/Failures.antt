-- ===== src/Deployer/Failures.antt =====
-- What it is for a deployment to fail, with the final state in the newest record.
use asty.Common.{
  ℕ, ◌≡◌, ◌≢◌, refl, ap, ◌∙◌, Bool, true, false, Option, none, some, if◌then◌else◌, inl, inr, ◌⊎◌,
  Option-cases,
}
use asty.Deployer.Plan.{
  State, failed, reverted, rollback_failed, Cause, DeploymentRecord, DeploymentStatus, Deployer,
}
use asty.Deployer.History.{update_last_record}
use asty.Deployer.Ring.{newest, update_last_record-newest}
use mathlib.Core.Option
use asty.Deployer.Rollout.{Site}
use asty.Deployer.Revert.{Ended}

-- Whether the history is not empty.
abbrev pub IsLogged : Deployer → Type 0
IsLogged d = newest d.history ≢ none

-- The status of the newest record.
abbrev pub newest_state : Deployer → Option State
newest_state d = elim (newest d.history) as (λ o. Option State) [
  | none ↦ none
  | some r ↦ some r.status
]

-- The final states without success.
abbrev pub IsFailure : State → Type 0
IsFailure st = (st ≡ failed) ⊎ (st ≡ reverted) ⊎ (st ≡ rollback_failed)

pub newest_state-update :
    (d : Deployer) (st : State) (progress : ℕ)
    → IsLogged d
    → newest_state (update_last_record st progress d) ≡ some st
newest_state-update d st progress l = elim (Option-cases (newest d.history)) [
  | inl n ↦ absurd (l n)
  | inr (r, e) ↦
      ap
        (λ (o : Option DeploymentRecord). elim o as (λ o. Option State) [
          | none ↦ none
          | some r ↦ some r.status
        ])
        (update_last_record-newest d r st progress e)
]

-- A run that ends without success, from a status whose counts are in order.
pub record Fails {B : Type 0} (st : DeploymentStatus) (r : Ended B) : Type 0 where
  pub state : IsFailure r.status.status
  pub reason : r.error ≢ none
  pub updated : r.status.updated ≡ st.updated
  pub total : r.status.total ≡ st.total
  pub written : newest_state r.site.deployer ≡ some r.status.status

-- The same for a status that differs in other fields.
pub Fails-like :
    {B : Type 0} (st st' : DeploymentStatus) (r : Ended B)
    → st'.updated ≡ st.updated
    → st'.total ≡ st.total
    → Fails st' r
    → Fails st r
Fails-like st st' r u t f = record {
  state = f.state;
  reason = f.reason;
  updated = f.updated ∙ u;
  total = f.total ∙ t;
  written = f.written;
}

-- Whichever of two runs it is.
pub either-Fails :
    {B : Type 0} (st : DeploymentStatus) (c : Bool) (x y : Ended B)
    → Fails st x
    → Fails st y
    → Fails st (if c then x else y)
either-Fails st true x y f g = f
either-Fails st false x y f g = g

pub none_of :
    (f : DeploymentRecord → DeploymentRecord) (o : Option DeploymentRecord)
    → Option.map f o ≡ none
    → o ≡ none
none_of f none h = refl
none_of f (some r) h = cc

-- Of a stage and the next one, the one that is taken.
pub chosen-IsLogged :
    {B : Type 0} (u : Site B) (r : Option Cause × Site B) (e : Option Cause)
    → IsLogged u.deployer
    → IsLogged r.1.deployer
    → IsLogged
        (elim e as (λ x. Option Cause × Site B) [ none ↦ r | some c ↦ (some c, u) ]).1.deployer
chosen-IsLogged u r none h k = k
chosen-IsLogged u r (some c) h k = h
