-- ===== src/Keys/Writes.antt =====
-- Utils.cpp: `writeStringToFile`, and what a file holds after it.
use platform_system_vold.Base.{◌≡◌, true, Option, none, some, arith, Text, text_eq_refl, suc}
use platform_system_vold.Keys.Act.{◌>>=◌, reads, modifies, succeeds, require, fail, is_some}
use platform_system_vold.Keys.World.{KeyFile, Dir, System, World}
use platform_system_vold.Keys.Calls.{
  call, dir_at, file_at, content_of, in_dir, with_file, set_file, path_exists, write_string_to_file,
}

content_of_written :
    (f : KeyFile) (content : Option Text) (d : Option Dir)
    → is_some d ≡ true
    → content_of (in_dir (with_file f content) d) f ≡ content
content_of_written f content none h = cc
content_of_written f content (some d) h = ground arith

module _ (sys : System) (dir : Text) (f : KeyFile) where
  pub set_file-file_at :
      (content : Option Text) (w : World)
      → path_exists sys dir w ≡ true
      → file_at sys dir f (set_file sys dir f content w) ≡ content
  set_file-file_at content w h =
      rw (text_eq_refl (sys.canonical dir)) (content_of_written f content (dir_at sys dir w) h)

  -- After a write that succeeds the file holds what was written.
  pub write_string_to_file-file_at :
      (s : Text) (w t : World)
      → write_string_to_file sys s dir f w ≡ (some tt, t)
      → file_at sys dir f t ≡ some s
  unfolding write_string_to_file call ◌>>=◌ reads modifies succeeds require fail
  write_string_to_file-file_at s w t h =
      let last : World = record w { clock = suc (suc (suc w.clock)) } in
      ground (arith, set_file-file_at (some s) last)
