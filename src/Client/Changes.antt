-- ===== src/Client/Changes.antt =====
-- main/src/client.rs: `parse_change`. Object ids, versions and digests are numbers.
use huracan.Prelude.{ℕ, Bool, true, false, Option, none, some}

-- `ObjectChange` of sui_sdk: the three variants that the source names, and all the others.
pub data ObjectChange : Type 0 where
  created : (object_id version : ℕ) → ObjectChange
  mutated : (object_id version : ℕ) → ObjectChange
  deleted : (object_id version : ℕ) → ObjectChange
  other : ObjectChange

-- The object, its version, and whether it was deleted.
unfoldable pub parse_change : ObjectChange → Option (ℕ × ℕ × Bool)
parse_change (created object_id version) = some (object_id, version, false)
parse_change (mutated object_id version) = some (object_id, version, false)
parse_change (deleted object_id version) = some (object_id, version, true)
parse_change other = none
