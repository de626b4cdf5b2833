-- ===== src/Kv/Cooldowns.antt =====
-- asty/internal/infra/kv/cooldowns.go.
use asty.Common.{
  ℕ, zero, suc, Bool, false, Option, none, some, Text, codes, ◌++◌, ◌==◌, if◌then◌else◌,
}
use asty.Types.Allocation.{ServiceCooldown}
use asty.Kv.Store.{
  Store, missing, unreadable, entry, Write, written, conflict, refused, KvError, unavailable,
  bad_data, conflicted, max_retries,
}

abbrev pub cooldown_key : Text → Text
cooldown_key service = codes "service." ++ service ++ codes ".cooldown"

-- The zero value of `ServiceCooldown`.
abbrev pub no_cooldown : ServiceCooldown
no_cooldown = record {
  last_scale_up = none;
  last_scale_down = none;
  idle_since = none;
  rollback_failed = false;
  deploy_in_progress = false;
}

module _ {B : Type 0} (s : Store B) where
  -- `GetServiceCooldown`: a missing key is the zero value, `none` is an error.
  unfoldable pub get_service_cooldown : Text → B → Option ServiceCooldown × B
  get_service_cooldown service b = elim (s.get (cooldown_key service) b) [
    | missing b₁ ↦ (some no_cooldown, b₁)
    | unreadable b₁ ↦ (none, b₁)
    | entry v revision b₁ ↦ (s.cooldowns.unmarshal v, b₁)
  ]

  -- `rev == 0` chooses `Create`, any other revision `Update`.
  write_cooldown : Text → ServiceCooldown → ℕ → B → Option (Write B)
  write_cooldown key c revision b = elim (s.cooldowns.marshal c) [
    | none ↦ none
    | some v ↦ some (if revision == 0 then s.create key v b else s.update key v revision b)
  ]

  -- A round from the record and the revision on; `again` is the next round.
  cooldown_round :
      Text
      → (ServiceCooldown → ServiceCooldown)
      → (B → Option KvError × B)
      → ServiceCooldown
      → ℕ
      → B
      → Option KvError × B
  unfolding write_cooldown
  cooldown_round key change again c revision b = elim (write_cooldown key (change c) revision b) [
    | none ↦ (some bad_data, b)
    | some w ↦ elim w [
      | written b₁ ↦ (none, b₁)
      | conflict b₁ ↦ again b₁
      | refused b₁ ↦ (some unavailable, b₁)
    ]
  ]

  cooldown_loop : ℕ → Text → (ServiceCooldown → ServiceCooldown) → B → Option KvError × B
  unfolding cooldown_round
  cooldown_loop zero key change b = (some conflicted, b)
  cooldown_loop (suc n) key change b = elim (s.get key b) [
    | missing b₁ ↦ cooldown_round key change (cooldown_loop n key change) no_cooldown 0 b₁
    | unreadable b₁ ↦ (some unavailable, b₁)
    | entry v revision b₁ ↦ elim (s.cooldowns.unmarshal v) [
      | none ↦ (some bad_data, b₁)
      | some c ↦ cooldown_round key change (cooldown_loop n key change) c revision b₁
    ]
  ]

  -- `mutateCooldown`, and the writes that go through it.
  unfoldable pub mutate_cooldown :
      Text → (ServiceCooldown → ServiceCooldown) → B → Option KvError × B
  unfolding cooldown_loop
  mutate_cooldown service change b = cooldown_loop max_retries (cooldown_key service) change b

  unfoldable pub mark_scale_up : Text → Option ℕ → B → Option KvError × B
  mark_scale_up service at = mutate_cooldown service λ c. record c { last_scale_up = at }

  unfoldable pub mark_scale_down : Text → Option ℕ → B → Option KvError × B
  mark_scale_down service at = mutate_cooldown service λ c. record c { last_scale_down = at }

  unfoldable pub mark_idle_since : Text → Option ℕ → B → Option KvError × B
  mark_idle_since service at = mutate_cooldown service λ c. record c { idle_since = at }

  unfoldable pub set_rollback_failed : Text → Bool → B → Option KvError × B
  set_rollback_failed service f = mutate_cooldown service λ c. record c { rollback_failed = f }

  unfoldable pub set_deploy_in_progress : Text → Bool → B → Option KvError × B
  set_deploy_in_progress service f =
      mutate_cooldown service λ c. record c { deploy_in_progress = f }
