-- ===== src/RotationLock/Tests.antt =====
-- The theorems about the rotation guard at small concrete values.
use rmcast.Base.{◌≡◌, refl, some, none, true, false, ◌==◌, if◌then◌else◌}
use rmcast.Base.Int.{pos}
use rmcast.RotationLock.{Files, lock, restore}
use rmcast.RotationLock.Restored.{restore-lock}

-- A device with two accelerometer files and the hall sensor.
abbrev tablet : Files
tablet = record {
  number = λ p. if p == 0 then some (pos 1) else if p == 3 then none else some (pos p);
  is_writable = λ p. if p == 1 then false else true;
}

restore-lock_example :
    ((restore (lock tablet)).0.number 4 ≡ some (pos 4))
    × (restore (restore (lock tablet)) ≡ restore (lock tablet))
restore-lock_example = restore-lock tablet 4 4 refl
