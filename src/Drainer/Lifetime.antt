-- ===== src/Drainer/Lifetime.antt =====
-- A drain from `Start` to the end of its goroutine, and what the manager knows of it.
use asty.Common.{
  ℕ, ◌≡◌, refl, ap, ◌∙◌, inl, inr, ◌++◌, Option, none, some, List, [], ◌∷◌, Text, arith, length,
  get_elem?, ◌>>=◌, Bool-cases, subst, same_refl,
}
use asty.Common.Map.{Map, lookup, erase, lookup-insert_self, lookup-erase}
use asty.Types.Node.{NodeInfo}
use asty.Kv.Store.{KvError}
use asty.Kv.Nodes.{get_node}
use asty.Drainer.Plan.{draining, DrainStatus, AllocOnNode, Env}
use asty.Drainer.Moves.{run_drain}
use asty.Drainer.Manager.{
  Manager, Started, begun, get_status, leave_drain, initial_status, register, opened, found_node,
  start_entry, start, is_drained,
}
use asty.Drainer.Account.{Ends, run_drain-Ends}

get_elem?-append_last :
    (xs : List DrainStatus) (x : DrainStatus) → get_elem? (xs ++ x ∷ []) (length xs) ≡ some x
get_elem?-append_last [] x = refl
get_elem?-append_last (y ∷ xs) x = get_elem?-append_last xs x

lookup-erase_self : (k : Text) (m : Map ℕ) → lookup k (erase k m) ≡ none
lookup-erase_self k m = ground (arith, lookup-erase k k m, same_refl k)

-- What `Start` answers when it begins a drain, and the manager then.
pub record Begins (node : Text) (p : ℕ) (allocs : List AllocOnNode) (st : DrainStatus) (m : Manager)
    : Type 0 where
  pub initial : st ≡ initial_status node (length allocs)
  pub entry : lookup node m.drains ≡ some p
  pub object : get_elem? m.ops p ≡ some st

-- If an answer of `Start` begins a drain, the manager has it.
abbrev Registers : Text → Started → Manager → Type 0
Registers node (begun p allocs st) m = Begins node p allocs st m
Registers node _ m = Unit

module _ {B : Type 0} (env : Env B) (node : Text) where
  opened-Registers :
      (n : NodeInfo) (allocs : List AllocOnNode) (m : Manager) (r : Option KvError × B)
      → Registers node (opened env node n allocs m r).0 (opened env node n allocs m r).1
  unfolding opened register
  opened-Registers n allocs m (some e, b) = tt
  opened-Registers n [] m (none, b) = tt
  opened-Registers n (a ∷ as') m (none, b) = record {
    initial = refl;
    entry = lookup-insert_self node (length m.ops) m.drains;
    object = get_elem?-append_last m.ops (initial_status node (length (a ∷ as')));
  }

  found_node-Registers :
      (m : Manager) (r : Option NodeInfo × B)
      → Registers node (found_node env node m r).0 (found_node env node m r).1
  unfolding found_node
  found_node-Registers m (none, b) = tt
  found_node-Registers m (some n, b) = elim (Bool-cases (is_drained n.status)) [
    | inl d ↦ rw d tt
    | inr d ↦ rw d (opened-Registers n _ m _)
  ]

  start_entry-Registers :
      (o : Option ℕ) (m : Manager) (b : B)
      → Registers node (start_entry env node o m b).0 (start_entry env node o m b).1
  unfolding start_entry
  start_entry-Registers (some p) m b = tt
  start_entry-Registers none m b = found_node-Registers m (get_node env.store node b)

  begins :
      (m m' : Manager) (b b' : B) (p : ℕ) (allocs : List AllocOnNode) (st : DrainStatus)
      → start env node m b ≡ (begun p allocs st, m', b')
      → Begins node p allocs st m'
  unfolding start
  begins m m' b b' p allocs st e =
      subst (λ (r : Started × Manager × B). Registers node r.0 r.1) e
        (start_entry-Registers (lookup node m.drains) m b)

  -- A drain that `Start` begins ends in one of three ways, whatever happens in the bucket. It is
  -- cancelled. Or it is drained, without an error and with every allocation counted as migrated. Or it
  -- is stuck, and the books on its allocations, in the order in which they were handled, show for each
  -- whether it is counted, with at most one error; each that is not counted has an error of its own.
  -- Every error stands under the name of its allocation's service.
  pub start-Ends :
      (m m' : Manager) (b b' b'' : B) (p : ℕ) (allocs : List AllocOnNode) (st : DrainStatus)
      → start env node m b ≡ (begun p allocs st, m', b')
      → Ends env node allocs (run_drain env node allocs (length allocs) st b'')
  unfolding initial_status
  start-Ends m m' b b' b'' p allocs st e =
      let i = (begins m m' b b' p allocs st e).initial in
      run_drain-Ends env node allocs st b'' (ap (λ (s : DrainStatus). s.status) i)
        (ap (λ (s : DrainStatus). s.migrated) i) (ap (λ (s : DrainStatus). s.errors) i)

  -- `GetStatus` shows a drain that `Start` began, as draining. When any goroutine of that node leaves,
  -- which may be that of an earlier drain that was cancelled, `GetStatus` knows of no drain, although
  -- the object of the drain that runs is still there.
  pub start-leave_drain :
      (m m' : Manager) (b b' : B) (p : ℕ) (allocs : List AllocOnNode) (st : DrainStatus)
      → start env node m b ≡ (begun p allocs st, m', b')
      → (get_status node m' ≡ some st)
        × (st.status ≡ draining)
        × (get_status node (leave_drain node m') ≡ none)
        × (get_elem? (leave_drain node m').ops p ≡ some st)
  unfolding get_status leave_drain initial_status
  start-leave_drain m m' b b' p allocs st e =
      let h = begins m m' b b' p allocs st e in
      (
        ap (λ o. o >>= get_elem? m'.ops) h.entry ∙ h.object,
        ap (λ (s : DrainStatus). s.status) h.initial,
        ap (λ o. o >>= get_elem? m'.ops) (lookup-erase_self node m'.drains),
        h.object,
      )
