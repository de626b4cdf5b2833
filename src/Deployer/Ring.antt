-- ===== src/Deployer/Ring.antt =====
-- The history of deployments: it is bounded, a remote record that is applied is in it, and a change
-- of the last record leaves the others alone.
use asty.Common.{
  ℕ, suc, ◌≤◌, ◌≡◌, refl, ap, ◌∙◌, true, false, List, [], ◌∷◌, ◌++◌, Option, none, some, Text,
  arith, inl, inr, In, In-append_right, length, length-append, length-drop, drop, leb, same_refl,
  Option-cases, Bool-cases, ==_iff, value_or, subst,
}
use mathlib.Core.Option
use asty.Deployer.Plan.{State, DeploymentRecord, Deployer}
use asty.Deployer.History.{
  history_cap, appended, same_id, replaced, apply_remote_record, update_last, update_last_record,
}

unfoldable pub newest : List DeploymentRecord → Option DeploymentRecord
newest [] = none
newest (r ∷ []) = some r
newest (r ∷ (s ∷ rs)) = newest (s ∷ rs)

pub newest-update_last :
    (f : DeploymentRecord → DeploymentRecord) (h : List DeploymentRecord)
    → newest (update_last f h) ≡ Option.map f (newest h)
unfolding newest update_last
newest-update_last f [] = refl
newest-update_last f (r ∷ []) = refl
newest-update_last f (r ∷ (s ∷ [])) = refl
newest-update_last f (r ∷ (s ∷ (t ∷ rs))) = newest-update_last f (s ∷ (t ∷ rs))

pub newest-append :
    (h : List DeploymentRecord) (r : DeploymentRecord) → newest (h ++ r ∷ []) ≡ some r
unfolding newest
newest-append [] r = refl
newest-append (x ∷ []) r = refl
newest-append (x ∷ (y ∷ h)) r = newest-append (y ∷ h) r

length-appended :
    (r : DeploymentRecord) (h : List DeploymentRecord)
    → length h ≤ history_cap
    → length (appended r h) ≤ history_cap
unfolding appended
length-appended r h b = ground (
  arith,
  length-append {0} h (r ∷ []),
  length-append {0} (drop 1 h) (r ∷ []),
  length-drop {0} 1 h,
)

same_id_self : (i : Text × ℕ) → same_id i i ≡ true
same_id_self (s, t) = ground (arith, same_refl s, ==_iff t t)

-- A history after a record was put in the place of its ID.
abbrev Holding : DeploymentRecord → List DeploymentRecord → List DeploymentRecord → Type 0
Holding r h h' = (length h' ≡ length h) × In r h' × (replaced r h' ≡ some h')

replaced_here : (r x : DeploymentRecord) (h : List DeploymentRecord) → Holding r (x ∷ h) (r ∷ h)
unfolding replaced
replaced_here r x h = (refl, inl refl, ground (arith, same_id_self r.id))

replaced_there :
    (r x : DeploymentRecord) (h h' : List DeploymentRecord)
    → same_id x.id r.id ≡ false
    → Holding r h h'
    → Holding r (x ∷ h) (x ∷ h')
unfolding replaced
replaced_there r x h h' n (l, m, e) = (ap suc l, inr m, ground (arith, n, e))

replaced_lem :
    (r : DeploymentRecord) (h h' : List DeploymentRecord) → replaced r h ≡ some h' → Holding r h h'
unfolding replaced
replaced_lem r [] h' e = cc
replaced_lem r (x ∷ h) h' e = elim (Bool-cases (same_id x.id r.id)) [
  | inl here ↦
      subst (Holding r (x ∷ h)) (ground (arith, here, ap (value_or []) e)) (replaced_here r x h)
  | inr there ↦ elim (Option-cases (replaced r h)) [
    | inl n ↦ absurd (ground (arith, there, n, e))
    | inr (ys, q) ↦
        subst (Holding r (x ∷ h)) (ground (arith, there, q, ap (value_or []) e))
          (replaced_there r x h ys there (replaced_lem r h ys q))
  ]
]

absent-append :
    (r : DeploymentRecord) (h : List DeploymentRecord)
    → replaced r h ≡ none
    → replaced r (h ++ r ∷ []) ≡ some (h ++ r ∷ [])
unfolding replaced
absent-append r [] e = ground (arith, same_id_self r.id)
absent-append r (x ∷ h) e = ground (arith, e, absent-append r h)

absent-drop :
    (r : DeploymentRecord) (h : List DeploymentRecord)
    → replaced r h ≡ none
    → replaced r (drop 1 h) ≡ none
unfolding replaced
absent-drop r [] e = e
absent-drop r (x ∷ h) e = ground (arith, e)

appended_lem :
    (r : DeploymentRecord) (h : List DeploymentRecord)
    → replaced r h ≡ none
    → In r (appended r h) × (replaced r (appended r h) ≡ some (appended r h))
unfolding appended
appended_lem r h e = elim (Bool-cases (leb history_cap (length h))) [
  | inl full ↦ rw full (
    In-append_right r (drop 1 h) (r ∷ []) (inl refl),
    absent-append r (drop 1 h) (absent-drop r h e),
  )
  | inr roomy ↦ rw roomy (In-append_right r h (r ∷ []) (inl refl), absent-append r h e)
]

-- The history of a deployer that a record was applied to.
abbrev pub Applied : DeploymentRecord → Deployer → Type 0
Applied r d = (length d.history ≤ history_cap) × In r d.history × (apply_remote_record r d ≡ d)

applied_again :
    (r : DeploymentRecord) (d : Deployer)
    → replaced r d.history ≡ some d.history
    → apply_remote_record r d ≡ d
unfolding apply_remote_record
applied_again r d e =
    ap
      (λ (o : Option (List DeploymentRecord)). record d {
        history = elim o [ none ↦ appended r d.history | some h ↦ h ];
      })
      e

-- A record that comes from another node is in the history after it was applied, applying it again
-- changes nothing, and the history keeps its bound.
pub apply_remote_record_lem :
    (r : DeploymentRecord) (d : Deployer)
    → length d.history ≤ history_cap
    → Applied r (apply_remote_record r d)
unfolding apply_remote_record
apply_remote_record_lem r d b = found (replaced r d.history) refl
  where
    found :
        (o : Option (List DeploymentRecord))
        → replaced r d.history ≡ o
        → Applied r (record d { history = elim o [ none ↦ appended r d.history | some h ↦ h ] })
    found none e =
        let (m, i) = appended_lem r d.history e in
        (
          length-appended r d.history b,
          m,
          applied_again r (record d { history = appended r d.history }) i,
        )
    found (some h) e =
        let (l, m, i) = replaced_lem r d.history h e in
        (omega (arith, l, b), m, applied_again r (record d { history = h }) i)

-- The end of a run is written to the newest record, whichever service that record is of: it may
-- belong to a run that began later, on another service, and is still in flight.
pub update_last_record-newest :
    (d : Deployer) (r : DeploymentRecord) (st : State) (progress : ℕ)
    → newest d.history ≡ some r
    → newest (update_last_record st progress d).history
      ≡ some (record r { status = st; progress = progress })
unfolding update_last_record
update_last_record-newest d r st progress e =
    newest-update_last (λ x. record x { status = st; progress = progress }) d.history
    ∙ ap (Option.map (λ (x : DeploymentRecord). record x { status = st; progress = progress })) e
