-- ===== src/ItemType/Names.antt =====
-- src/item_type.rs: the names of a type lead back to it.
use arrow_kanban.Prelude.{◌≡◌, refl, some, All, arith}
use arrow_kanban.ItemType.{ItemType, expedition, all_prefixes, as_str, from_str_loose}

-- The name and each prefix of a type, present and legacy, are read as that type.
pub from_str_loose-names :
    (t : ItemType)
    → (from_str_loose (as_str t) ≡ some t) × All (λ p. from_str_loose p ≡ some t) (all_prefixes t)
unfolding from_str_loose as_str all_prefixes
from_str_loose-names expedition = (refl, (refl, (refl, tt)))
from_str_loose-names _ = ground arith
