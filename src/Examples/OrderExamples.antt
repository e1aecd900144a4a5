-- ===== src/Examples/OrderExamples.antt =====
-- aarch64: `mrs` may be executed before an earlier load completes, and `isb sy` holds it back.
use hotclock.Prelude.{◌≡◌, ◌↔◌, refl, Bool, true, false}
use hotclock.Target.Items.{Reader}
use hotclock.Arch.Order.{Insn, acquire_load, isb_sy, mrs_cntvct, Rules, plain_block, ordered_block}
use hotclock.Arch.Order.Kinds.{Documented, IsOrdered}
use hotclock.Arch.Order.Barrier.{IsOrdered-iff}

abbrev arm_keeps : Insn → Insn → Bool
arm_keeps acquire_load mrs_cntvct = false
arm_keeps _ _ = true

abbrev arm : Rules
arm = record { compiler = λ x y. true; processor = arm_keeps }

arm-Documented : Documented arm isb_sy
arm-Documented = record {
  touches_memory = λ x y _ _. refl;
  one_block = λ x y _ _. refl;
  waits = refl;
}

IsOrdered-iff_example :
    ((arm.processor isb_sy mrs_cntvct ≡ true) ↔ IsOrdered arm (ordered_block Reader.cntvct))
    × ¬ IsOrdered arm (plain_block Reader.cntvct)
IsOrdered-iff_example = IsOrdered-iff arm Reader.cntvct isb_sy refl arm-Documented refl
