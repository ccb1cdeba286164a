-- ===== src/Interchange/Examples.antt =====
-- A slot without tags (src/interchange.rs).
use cmpth_rs.Prelude.{◌≡◌, refl, some}
use cmpth_rs.Interchange.{slot_publish, slot_take}

slot_test : slot_take (slot_publish 48) ≡ (some 48, 0)
unfolding slot_take slot_publish
slot_test = refl
