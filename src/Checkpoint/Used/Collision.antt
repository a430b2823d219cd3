-- ===== src/Checkpoint/Used/Collision.antt =====
-- What `checkCollision` answers.
use platform_system_vold.Base.{ℕ, ◌<◌, ◌≡◌, true, some, arith, ltb, lt→ltb}
use platform_system_vold.Checkpoint.SectorMap.{IsMap}
use platform_system_vold.Checkpoint.SectorMap.Laws.{floor_total}
use platform_system_vold.Checkpoint.Used.{UsedSectors, check_collision}

-- `checkCollision` reports a collision for every range that is not empty, whatever sectors are
-- marked: its second test compares the entry at or in front of the start with the end. So
-- `restoreSector` saves its position before each entry that it copies.
pub check_collision_always :
    (used : UsedSectors) (start end : ℕ)
    → IsMap used
    → start < end
    → check_collision used start end ≡ some true
unfolding check_collision
check_collision_always used start end m h =
    let (k, b, e, l) = floor_total start used m in
    let t : ltb k end ≡ true = lt→ltb k end (omega arith) in
    rw (e, check_collision) (ground (arith, t))
