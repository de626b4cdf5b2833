-- ===== src/Drainer/Handled.antt =====
-- The counters and the errors of a drain (asty/internal/ops/drainer).
use asty.Common.{
  ℕ, zero, suc, ◌+◌, ◌≡◌, refl, ap, sym, subst, ◌∙◌, Bool-cases, inl, inr, Option, none, some, List,
  [], ◌∷◌, ◌++◌, Text, arith, length,
}
use mathlib.Core.List.{Permᴰ, append-nil, append_assoc}
use mathlib.Core.List.Permᴰ
use asty.Drainer.Plan.{Fault, DrainStatus, AllocOnNode, split_by_type, is_system}
use asty.Drainer.Moves.{noted, record_error, bumped}

-- The books on allocations that were handled one after the other: how many of them were counted as
-- migrated, and the errors. An allocation that is counted has no error or one for its wait at the end;
-- one that is not counted has an error. Each error stands under the name of its allocation's service.
pub data Books : List AllocOnNode → ℕ → List (Text × Fault) → Type 0 where
  closed : Books [] zero []
  counted :
      (a : AllocOnNode) (as' : List AllocOnNode) (m : ℕ) (es : List (Text × Fault))
      → Books as' m es
      → Books (a ∷ as') (suc m) es
  noticed :
      (a : AllocOnNode) (as' : List AllocOnNode) (f : Fault) (m : ℕ) (es : List (Text × Fault))
      → Books as' m es
      → Books (a ∷ as') (suc m) ((a.svc.name, f) ∷ es)
  missed :
      (a : AllocOnNode) (as' : List AllocOnNode) (f : Fault) (m : ℕ) (es : List (Text × Fault))
      → Books as' m es
      → Books (a ∷ as') m ((a.svc.name, f) ∷ es)

recount :
    (as' : List AllocOnNode) (es : List (Text × Fault)) (m k : ℕ)
    → m ≡ k
    → Books as' m es
    → Books as' k es
recount as' es m k e p = subst (λ n. Books as' n es) e p

Books-append :
    (as' bs : List AllocOnNode) (m k : ℕ) (es fs : List (Text × Fault))
    → Books as' m es
    → Books bs k fs
    → Books (as' ++ bs) (m + k) (es ++ fs)
Books-append _ bs _ k _ fs closed q = recount bs fs k (0 + k) (omega arith) q
Books-append _ bs _ k _ fs (counted a as' m es p) q =
    recount _ _ (suc (m + k)) (suc m + k) (omega arith)
      (counted a (as' ++ bs) (m + k) (es ++ fs) (Books-append as' bs m k es fs p q))
Books-append _ bs _ k _ fs (noticed a as' f m es p) q =
    recount _ _ (suc (m + k)) (suc m + k) (omega arith)
      (noticed a (as' ++ bs) f (m + k) (es ++ fs) (Books-append as' bs m k es fs p q))
Books-append _ bs _ k _ fs (missed a as' f m es p) q =
    missed a (as' ++ bs) f (m + k) (es ++ fs) (Books-append as' bs m k es fs p q)

-- Without an error all were counted.
pub Books-clean :
    (as' : List AllocOnNode) (m : ℕ) (es : List (Text × Fault))
    → Books as' m es
    → es ≡ []
    → m ≡ length as'
Books-clean _ _ _ closed e = refl
Books-clean _ _ _ (counted a as' m es p) e = ap suc (Books-clean as' m es p e)
Books-clean _ _ _ (noticed a as' f m es p) e = ground (arith, e)
Books-clean _ _ _ (missed a as' f m es p) e = ground (arith, e)

-- What a part of the drain adds to the books.
pub record Handles (as' : List AllocOnNode) (st st' : DrainStatus) : Type 0 where
  pub gained : ℕ
  pub errors : List (Text × Fault)
  pub books : Books as' gained errors
  pub migrated : st'.migrated ≡ st.migrated + gained
  pub recorded : st'.errors ≡ st.errors ++ errors
  pub state : st'.status ≡ st.status

pub Handles-refl : (st : DrainStatus) → Handles [] st st
Handles-refl st = record {
  gained = 0;
  errors = [];
  books = closed;
  migrated = omega arith;
  recorded = sym (append-nil st.errors);
  state = refl;
}

pub Handles-trans :
    (as' bs : List AllocOnNode) (st st' st'' : DrainStatus)
    → Handles as' st st'
    → Handles bs st' st''
    → Handles (as' ++ bs) st st''
Handles-trans as' bs st st' st'' h k = record {
  gained = h.gained + k.gained;
  errors = h.errors ++ k.errors;
  books = Books-append as' bs h.gained k.gained h.errors k.errors h.books k.books;
  migrated = omega (arith, h.migrated, k.migrated);
  recorded =
      k.recorded ∙ ap (λ es. es ++ k.errors) h.recorded ∙ append_assoc st.errors h.errors k.errors;
  state = k.state ∙ h.state;
}

-- An allocation that is counted, whose last wait may have failed, in either order.
pub bumped-noted-Handles :
    (a : AllocOnNode) (total : ℕ) (e : Option Fault) (st : DrainStatus)
    → Handles (a ∷ []) st (bumped total (noted a.svc.name e st))
unfolding bumped noted record_error
bumped-noted-Handles a total none st = record {
  gained = 1;
  errors = [];
  books = counted a [] 0 [] closed;
  migrated = omega arith;
  recorded = sym (append-nil st.errors);
  state = refl;
}
bumped-noted-Handles a total (some f) st = record {
  gained = 1;
  errors = (a.svc.name, f) ∷ [];
  books = noticed a [] f 0 [] closed;
  migrated = omega arith;
  recorded = refl;
  state = refl;
}

pub noted-bumped-Handles :
    (a : AllocOnNode) (total : ℕ) (e : Option Fault) (st : DrainStatus)
    → Handles (a ∷ []) st (noted a.svc.name e (bumped total st))
unfolding bumped noted record_error
noted-bumped-Handles a total none st = record {
  gained = 1;
  errors = [];
  books = counted a [] 0 [] closed;
  migrated = omega arith;
  recorded = sym (append-nil st.errors);
  state = refl;
}
noted-bumped-Handles a total (some f) st = record {
  gained = 1;
  errors = (a.svc.name, f) ∷ [];
  books = noticed a [] f 0 [] closed;
  migrated = omega arith;
  recorded = refl;
  state = refl;
}

pub record_error-Handles :
    (a : AllocOnNode) (f : Fault) (st : DrainStatus)
    → Handles (a ∷ []) st (record_error a.svc.name f st)
unfolding record_error
record_error-Handles a f st = record {
  gained = 0;
  errors = (a.svc.name, f) ∷ [];
  books = missed a [] f 0 [] closed;
  migrated = omega arith;
  recorded = refl;
  state = refl;
}

-- The two groups have each allocation once.
pub split_by_type-Perm :
    (as' : List AllocOnNode) → Permᴰ ((split_by_type as').0 ++ (split_by_type as').1) as'
unfolding split_by_type
split_by_type-Perm [] = Permᴰ.nil
split_by_type-Perm (a ∷ as') = elim (Bool-cases (is_system a.svc.type)) [
  | inl h ↦ rw h (Permᴰ.cons refl (split_by_type-Perm as'))
  | inr h ↦ rw h (
      Permᴰ.trans (Permᴰ.middle a (split_by_type as').0 (split_by_type as').1)
        (Permᴰ.cons refl (split_by_type-Perm as')))
]
