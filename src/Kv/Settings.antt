-- ===== src/Kv/Settings.antt =====
-- asty/internal/infra/kv/scale.go and version.go: the operator's scale and the version pin.
use asty.Common.{Option, none, some, Text, codes, ◌++◌, [], if◌then◌else◌}
use asty.Common.Int.{ℤ, pos, ltb_ℤ}
use asty.Kv.Store.{Store, missing, unreadable, entry, ServiceVersion, KvError, bad_data, bad_count}
use asty.Kv.Allocations.{after_write}

abbrev pub scale_key : Text → Text
scale_key service = codes "service." ++ service ++ codes ".scale"

abbrev pub version_key : Text → Text
version_key service = codes "service." ++ service ++ codes ".version"

module _ {B : Type 0} (s : Store B) where
  -- `GetServiceScale`: `none` is the result `(0, false)`.
  unfoldable pub get_service_scale : Text → B → Option ℤ × B
  get_service_scale service b = elim (s.get (scale_key service) b) [
    | missing b₁ ↦ (none, b₁)
    | unreadable b₁ ↦ (none, b₁)
    | entry v revision b₁ ↦ (s.scales.unmarshal v, b₁)
  ]

  unfoldable pub set_service_scale : Text → ℤ → B → Option KvError × B
  unfolding after_write
  set_service_scale service count b =
      if ltb_ℤ count (pos 0) then (some bad_count, b) else elim (s.scales.marshal count) [
        | none ↦ (some bad_data, b)
        | some v ↦ after_write (s.put (scale_key service) v b)
      ]

  -- `GetServiceVersion`: a missing key is the zero value, `none` is an error.
  unfoldable pub get_service_version : Text → B → Option ServiceVersion × B
  get_service_version service b = elim (s.get (version_key service) b) [
    | missing b₁ ↦ (some (record { current = []; previous = [] }), b₁)
    | unreadable b₁ ↦ (none, b₁)
    | entry v revision b₁ ↦ (s.versions.unmarshal v, b₁)
  ]

  unfoldable pub set_service_version : Text → ServiceVersion → B → Option KvError × B
  unfolding after_write
  set_service_version service v b = elim (s.versions.marshal v) [
    | none ↦ (some bad_data, b)
    | some d ↦ after_write (s.put (version_key service) d b)
  ]
