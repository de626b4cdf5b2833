-- ===== src/Drainer/Account.antt =====
-- The books of a drain: which allocations are counted as migrated, and which have errors.
use asty.Common.{
  ℕ, suc, ◌≡◌, refl, ap, ◌∙◌, ◌⊎◌, inl, inr, Bool, true, false, Option, none, some, List, [], ◌∷◌,
  Text, ◌≢◌, ◌++◌, sym, subst, if◌then◌else◌, arith, length, Bool-cases,
}
use mathlib.Core.List.{Permᴰ}
use mathlib.Core.List.Permᴰ
use asty.Drainer.Plan.{
  draining, drained, stuck, Fault, DrainStatus, AllocOnNode, Env, split_by_type,
  has_other_ready_node,
}
use asty.Drainer.Moves.{
  bumped, bump_migrated, mark_current, dismantle_and_confirm, finalize_migration, moved, migrate,
  dismantle_all, migrate_all, complete_node_drain, groups, run_drain, has_errors, final_drain,
}
use asty.Drainer.Handled.{
  Books, Books-clean, Handles, Handles-refl, Handles-trans, bumped-noted-Handles,
  noted-bumped-Handles, record_error-Handles, split_by_type-Perm,
}

module _ {B : Type 0} (env : Env B) (node : Text) where
  groups-Perm :
      (as' : List AllocOnNode) (others : Bool)
      → Permᴰ ((groups env node as' others).0 ++ (groups env node as' others).1) as'
  unfolding groups
  groups-Perm as' true = split_by_type-Perm as'
  groups-Perm as' false =
      Permᴰ.trans (Permᴰ.append-nil ((split_by_type as').0 ++ (split_by_type as').1))
        (split_by_type-Perm as')

  dismantle_and_confirm-Handles :
      (a : AllocOnNode) (total : ℕ) (st : DrainStatus) (b : B)
      → Handles (a ∷ []) st (dismantle_and_confirm env node a total st b).0
  unfolding dismantle_and_confirm bump_migrated
  dismantle_and_confirm-Handles a total st b = bumped-noted-Handles a total _ st

  finalize_migration-Handles :
      (a : AllocOnNode) (gone : Bool) (total : ℕ) (st : DrainStatus) (b : B)
      → Handles (a ∷ []) st (finalize_migration env node a gone total st b).0
  unfolding finalize_migration bump_migrated asty.Drainer.Moves.noted
  finalize_migration-Handles a true total st b = noted-bumped-Handles a total none st
  finalize_migration-Handles a false total st b = noted-bumped-Handles a total _ st

  moved-Handles :
      (a : AllocOnNode) (total : ℕ) (st : DrainStatus) (r : (Bool × Option Fault) × B)
      → Handles (a ∷ []) st (moved env node a total st r).0
  unfolding moved
  moved-Handles a total st ((gone, some f), b) = record_error-Handles a f st
  moved-Handles a total st ((gone, none), b) = finalize_migration-Handles a gone total st b

  migrate-Handles :
      (a : AllocOnNode) (total : ℕ) (st : DrainStatus) (b : B)
      → Handles (a ∷ []) st (migrate env node a total st b).0
  unfolding migrate mark_current
  migrate-Handles a total st b =
      let named : DrainStatus = record st { current = a.alloc.service_name } in
      let h = moved-Handles a total named _ in
      record {
        gained = h.gained;
        errors = h.errors;
        books = h.books;
        migrated = h.migrated;
        recorded = h.recorded;
        state = h.state;
      }

  dismantle_all-Handles :
      (as' : List AllocOnNode) (total : ℕ) (st : DrainStatus) (b : B)
      → Handles as' st (dismantle_all env node as' total st b).0
  unfolding dismantle_all
  dismantle_all-Handles [] total st b = Handles-refl st
  dismantle_all-Handles (a ∷ as') total st b =
      let (st₁, b₁) = dismantle_and_confirm env node a total st b in
      Handles-trans (a ∷ []) as' st st₁ _ (dismantle_and_confirm-Handles a total st b)
        (dismantle_all-Handles as' total st₁ b₁)

  -- The loop over the allocations that move, which a cancel may stop.
  record Moves (as' : List AllocOnNode) (st : DrainStatus) (r : DrainStatus × B) : Type 0 where
    all_or_cancelled : (env.cancelled_in r.1 ≡ true) ⊎ Handles as' st r.0
    same_state : r.0.status ≡ st.status

  migrate_all-Moves :
      (as' : List AllocOnNode) (total : ℕ) (st : DrainStatus) (b : B)
      → Moves as' st (migrate_all env node as' total st b)
  unfolding migrate_all
  migrate_all-Moves [] total st b = record {
    all_or_cancelled = inr (Handles-refl st);
    same_state = refl;
  }
  migrate_all-Moves (a ∷ as') total st b = elim (Bool-cases (env.cancelled_in b)) [
    | inl off ↦ rw off (record { all_or_cancelled = inl off; same_state = refl })
    | inr on ↦
        let (st₁, b₁) = migrate env node a total st b in
        rw on (onwards st st₁ _ (migrate-Handles a total st b) (migrate_all-Moves as' total st₁ b₁))
  ]
    where
      onwards :
          (st st₁ : DrainStatus) (r : DrainStatus × B)
          → Handles (a ∷ []) st st₁
          → Moves as' st₁ r
          → Moves (a ∷ as') st r
      onwards st st₁ r h m = record {
        all_or_cancelled = elim m.all_or_cancelled [
          | inl off ↦ inl off
          | inr k ↦ inr (Handles-trans (a ∷ []) as' st st₁ r.0 h k)
        ];
        same_state = m.same_state ∙ h.state;
      }

  -- The end of a drain: it was cancelled; or no error was recorded, it is drained and every allocation
  -- is migrated; or it is stuck, and the books on the allocations, in the order in which they were
  -- handled, show for each whether it is counted, and for each that is not an error of its own under the
  -- name of its service.
  pub data Ends (allocs : List AllocOnNode) (r : DrainStatus × B) : Type 0 where
    off : env.cancelled_in r.1 ≡ true → r.0.status ≡ draining → Ends allocs r
    clean : r.0.status ≡ drained → r.0.errors ≡ [] → r.0.migrated ≡ length allocs → Ends allocs r
    left :
        r.0.status ≡ stuck
        → r.0.errors ≢ []
        → (handled : List AllocOnNode) → Permᴰ handled allocs
        → Books handled r.0.migrated r.0.errors
        → Ends allocs r

  completed :
      (allocs handled : List AllocOnNode) (st : DrainStatus) (b : B)
      → Permᴰ handled allocs
      → length handled ≡ length allocs
      → Books handled st.migrated st.errors
      → Ends allocs (complete_node_drain env node st b)
  unfolding complete_node_drain has_errors final_drain
  completed allocs handled st b p l k = by_errors st.errors refl
    where
      by_errors :
          (es : List (Text × Fault))
          → st.errors ≡ es
          → Ends allocs (complete_node_drain env node st b)
      by_errors [] e =
          clean (ap (λ es. final_drain (elim es [ [] ↦ false | x ∷ xs ↦ true ])) e) e
            (Books-clean handled st.migrated st.errors k e ∙ l)
      by_errors (x ∷ xs) e =
          left (ap (λ es. final_drain (elim es [ [] ↦ false | x ∷ xs ↦ true ])) e)
            (λ n. ground (arith, e, n)) handled p k

  unless_cancelled :
      (allocs handled : List AllocOnNode) (r : DrainStatus × B)
      → r.0.status ≡ draining
      → Permᴰ handled allocs
      → length handled ≡ length allocs
      → (env.cancelled_in r.1 ≡ true) ⊎ Books handled r.0.migrated r.0.errors
      → Ends allocs (if env.cancelled_in r.1 then r else complete_node_drain env node r.0 r.1)
  unless_cancelled allocs handled r d p l k = elim (Bool-cases (env.cancelled_in r.1)) [
    | inl gone ↦ rw gone (off gone d)
    | inr on ↦ rw on (elim k [
      | inl gone ↦ absurd (ground (arith, on, gone))
      | inr books ↦ completed allocs handled r.0 r.1 p l books
    ])
  ]

  books-from :
      (as' : List AllocOnNode) (st st' : DrainStatus)
      → Handles as' st st'
      → st.migrated ≡ 0
      → st.errors ≡ []
      → Books as' st'.migrated st'.errors
  books-from as' st st' h z e =
      let m : h.gained ≡ st'.migrated = omega (arith, h.migrated, z) in
      let es : h.errors ≡ st'.errors = ap (λ xs. xs ++ h.errors) (sym e) ∙ sym h.recorded in
      subst (λ k. Books as' k st'.errors) m (subst (Books as' h.gained) es h.books)

  -- A drain of allocations that begins with empty books ends in one of these three ways.
  pub run_drain-Ends :
      (allocs : List AllocOnNode) (st : DrainStatus) (b : B)
      → st.status ≡ draining
      → st.migrated ≡ 0
      → st.errors ≡ []
      → Ends allocs (run_drain env node allocs (length allocs) st b)
  unfolding run_drain
  run_drain-Ends allocs st b d z e =
      let (others, b₁) = has_other_ready_node env node b in
      let (sys, reg) = groups env node allocs others in
      let (st₁, b₂) = dismantle_all env node sys (length allocs) st b₁ in
      let r = migrate_all env node reg (length allocs) st₁ b₂ in
      let h = dismantle_all-Handles sys (length allocs) st b₁ in
      let m = migrate_all-Moves reg (length allocs) st₁ b₂ in
      let p = groups-Perm allocs others in
      unless_cancelled allocs (sys ++ reg) r (m.same_state ∙ (h.state ∙ d)) p
        (length-Perm (sys ++ reg) allocs p)
        (elim m.all_or_cancelled [
          | inl gone ↦ inl gone
          | inr k ↦ inr (books-from (sys ++ reg) st r.0 (Handles-trans sys reg st st₁ r.0 h k) z e)
        ])
    where
      length-Perm : (xs ys : List AllocOnNode) → Permᴰ xs ys → length xs ≡ length ys
      length-Perm _ _ Permᴰ.nil = refl
      length-Perm _ _ (Permᴰ.cons q t) = ap suc (length-Perm _ _ t)
      length-Perm _ _ (Permᴰ.swap q t) = refl
      length-Perm _ _ (Permᴰ.trans t u) = length-Perm _ _ t ∙ length-Perm _ _ u
