-- ===== src/Deployer/Coverage.antt =====
-- Which copies of a deployment were dispatched, and how that is kept from one state to the next.
use asty.Common.{
  ◌≡◌, ap, ◌∙◌, true, ◌||◌, List, [], ◌∷◌, ◌++◌, Option, none, some, arith, All, same_iff,
}
use asty.Types.Allocation.{ServiceAllocation}
use asty.Deployer.Plan.{Cause, is_touched, touch, same_copy}
use asty.Deployer.Rollout.{Site}

is_touched-append :
    (a b : ServiceAllocation) (l : List ServiceAllocation)
    → is_touched a (l ++ b ∷ []) ≡ (is_touched a l || same_copy b a)
unfolding is_touched
is_touched-append a b [] = ground arith
is_touched-append a b (x ∷ l) = ground (arith, is_touched-append a b l)

pub touch-keeps :
    (a b : ServiceAllocation) (l : List ServiceAllocation)
    → is_touched a l ≡ true
    → is_touched a (touch b l) ≡ true
unfolding touch
touch-keeps a b l h = ground (arith, is_touched-append a b l)

pub touch_self :
    (a : ServiceAllocation) (l : List ServiceAllocation) → is_touched a (touch a l) ≡ true
unfolding touch
touch_self a l = ground (
  arith,
  is_touched-append a a l,
  same_iff a.service_name a.service_name,
  same_iff a.node_id a.node_id,
)

-- Every copy that was touched still is, and the history is as it was.
pub record Keeps {B : Type 0} (w w' : Site B) : Type 0 where
  pub still :
      (a : ServiceAllocation)
      → is_touched a w.deployer.touched ≡ true
      → is_touched a w'.deployer.touched ≡ true
  pub same_history : w'.deployer.history ≡ w.deployer.history

pub Keeps-refl : {B : Type 0} (w w' : Site B) → w'.deployer ≡ w.deployer → Keeps w w'
Keeps-refl w w' e = record {
  still = λ a h. ap (λ d. is_touched a d.touched) e ∙ h;
  same_history = ap (λ d. d.history) e;
}

pub Keeps-trans : {B : Type 0} (u v w : Site B) → Keeps u v → Keeps v w → Keeps u w
Keeps-trans u v w k l = record {
  still = λ a h. l.still a (k.still a h);
  same_history = l.same_history ∙ k.same_history;
}

abbrev pub Covers : {B : Type 0} → Site B → List ServiceAllocation → Type 0
Covers w = All (λ a. is_touched a w.deployer.touched ≡ true)

pub Covers-Keeps :
    {B : Type 0} (w w' : Site B) (as' : List ServiceAllocation)
    → Keeps w w'
    → Covers w as'
    → Covers w' as'
Covers-Keeps w w' [] k c = tt
Covers-Keeps w w' (a ∷ as') k c = (k.still a c.0, Covers-Keeps w w' as' k c.1)

pub Covers-append :
    {B : Type 0} (w : Site B) (xs ys : List ServiceAllocation)
    → Covers w xs
    → Covers w ys
    → Covers w (xs ++ ys)
Covers-append w [] ys c d = d
Covers-append w (x ∷ xs) ys c d = (c.0, Covers-append w xs ys c.1 d)

-- What a stage does to the touched copies: it drops none, and touches a batch if it goes well.
abbrev pub Dispatches :
    {B : Type 0} → List ServiceAllocation → Site B → Option Cause × Site B → Type 0
Dispatches batch w (none, w') = Keeps w w' × Covers w' batch
Dispatches batch w (some c, w') = Keeps w w'
