-- ===== src/Kv/Allocations.antt =====
-- asty/internal/infra/kv/allocations.go.
use asty.Common.{ℕ, zero, suc, Option, none, some, List, [], ◌∷◌, ◌++◌, Text, codes}
use mathlib.Core.Option
use asty.Types.Allocation.{ServiceAllocation}
use asty.Kv.Store.{
  Store, Codec, Fetch, missing, unreadable, entry, Write, written, conflict, refused, KvError,
  not_found, unavailable, bad_data, conflicted, max_retries,
}

-- "alloc.<service>.<node>"
abbrev pub alloc_key : Text → Text → Text
alloc_key service node = codes "alloc." ++ service ++ codes "." ++ node

-- The values of a snapshot that parse, in its order; the others are logged and skipped.
unfoldable pub parsed : {A : Type 0} → Codec A → List (Text × Text) → List A
parsed c [] = []
parsed c ((k, v) ∷ raw) =
    let rest = parsed c raw in elim (c.unmarshal v) [ none ↦ rest | some a ↦ a ∷ rest ]

unfoldable pub after_write : {B : Type 0} → Write B → Option KvError × B
after_write (written b) = (none, b)
after_write (conflict b) = (some unavailable, b)
after_write (refused b) = (some unavailable, b)

unfoldable pub parsed_snapshot :
    {A B : Type 0} → Codec A → Option (List (Text × Text)) × B → Option (List A) × B
unfolding parsed
parsed_snapshot c (none, b) = (none, b)
parsed_snapshot c (some raw, b) = (some (parsed c raw), b)

module _ {B : Type 0} (s : Store B) where
  put_record : ServiceAllocation → B → Option KvError × B
  unfolding after_write
  put_record a b = elim (s.allocations.marshal a) [
    | none ↦ (some bad_data, b)
    | some v ↦ after_write (s.put (alloc_key a.service_name a.node_id) v b)
  ]

  put_stamped : ServiceAllocation → B → Option KvError × B
  put_stamped a b =
      let (t, b₁) = s.now b in
      let (u, b₂) = s.now b₁ in
      put_record (record a { created_at = some t; updated_at = some u }) b₂

  with_id : Text → ServiceAllocation → B → Option KvError × B
  with_id [] a b =
      let (fresh, b₁) = s.fresh_id b in
      elim fresh [ none ↦ (some unavailable, b₁) | some i ↦ put_stamped (record a { id = i }) b₁ ]
  with_id (c ∷ i) a b = put_stamped a b

  -- `CreateAllocation`.
  unfoldable pub create_allocation : ServiceAllocation → B → Option KvError × B
  unfolding with_id put_stamped put_record
  create_allocation a b = with_id a.id a b

  -- `ListAllocations` and `ListAllAllocations`.
  unfoldable pub list_allocations : Text → B → Option (List ServiceAllocation) × B
  unfolding parsed_snapshot
  list_allocations service b =
      parsed_snapshot s.allocations (s.snapshot (codes "alloc." ++ service ++ codes ".*") b)

  unfoldable pub list_all_allocations : B → Option (List ServiceAllocation) × B
  unfolding parsed_snapshot
  list_all_allocations b = parsed_snapshot s.allocations (s.snapshot (codes "alloc.>") b)

  -- `DeleteAllocation`.
  unfoldable pub delete_allocation : Text → Text → B → Option KvError × B
  unfolding after_write
  delete_allocation service node b = after_write (s.delete (alloc_key service node) b)

  -- `GetAllocation`: `none` is an error, a missing key too.
  unfoldable pub get_allocation : Text → Text → B → Option ServiceAllocation × B
  get_allocation service node b = elim (s.get (alloc_key service node) b) [
    | missing b₁ ↦ (none, b₁)
    | unreadable b₁ ↦ (none, b₁)
    | entry v revision b₁ ↦ (s.allocations.unmarshal v, b₁)
  ]

  -- `UpdateAllocation`.
  unfoldable pub update_allocation : ServiceAllocation → B → Option KvError × B
  unfolding put_record
  update_allocation a b = let (t, b₁) = s.now b in put_record (record a { updated_at = some t }) b₁

  -- The last part of a round of `MutateAllocation`: stamp, marshal and write by the revision read.
  -- `none` means that the record does not marshal.
  unfoldable pub write_back : Text → ServiceAllocation → ℕ → B → Option (Write B)
  write_back key a revision b =
      let (t, b₁) = s.now b in
      Option.map (λ v. s.update key v revision b₁)
        (s.allocations.marshal (record a { updated_at = some t }))

-- The callback of `MutateAllocation` reads and writes variables `C` of its caller, and returns the
-- changed record or, where the Go callback returns false, `none`.
abbrev pub Change : Type 0 → Type 0
Change C = C → ServiceAllocation → C × Option ServiceAllocation

module _ {B : Type 0} (s : Store B) {C : Type 0} (key : Text) (change : Change C) where
  -- One round of `MutateAllocation`, in the order of its tests; `again` is the next round.
  unfoldable pub on_write :
      (C → B → Option KvError × C × B) → C → B → Option (Write B) → Option KvError × C × B
  on_write again c b none = (some bad_data, c, b)
  on_write again c b (some (written b')) = (none, c, b')
  on_write again c b (some (conflict b')) = again c b'
  on_write again c b (some (refused b')) = (some unavailable, c, b')

  unfoldable pub on_changed :
      (C → B → Option KvError × C × B)
      → ℕ
      → B
      → C × Option ServiceAllocation
      → Option KvError × C × B
  unfolding on_write
  on_changed again revision b (c, none) = (none, c, b)
  on_changed again revision b (c, some a) = on_write again c b (write_back s key a revision b)

  unfoldable pub on_record :
      (C → B → Option KvError × C × B)
      → C
      → ℕ
      → B
      → Option ServiceAllocation
      → Option KvError × C × B
  unfolding on_changed
  on_record again c revision b none = (some bad_data, c, b)
  on_record again c revision b (some a) = on_changed again revision b (change c a)

  unfoldable pub on_fetch : (C → B → Option KvError × C × B) → C → Fetch B → Option KvError × C × B
  unfolding on_record
  on_fetch again c (missing b) = (some not_found, c, b)
  on_fetch again c (unreadable b) = (some unavailable, c, b)
  on_fetch again c (entry v revision b) = on_record again c revision b (s.allocations.unmarshal v)

  -- The loop of `MutateAllocation` with so many attempts left.
  unfoldable pub mutate_loop : ℕ → C → B → Option KvError × C × B
  unfolding on_fetch
  mutate_loop zero c b = (some conflicted, c, b)
  mutate_loop (suc n) c b = on_fetch (mutate_loop n) c (s.get key b)

-- `MutateAllocation`, with the variables of the caller before and after.
unfoldable pub mutate_allocation :
    {B C : Type 0} → Store B → Text → Text → Change C → C → B → Option KvError × C × B
unfolding mutate_loop write_back
mutate_allocation s service node change c b =
    mutate_loop s (alloc_key service node) change max_retries c b
