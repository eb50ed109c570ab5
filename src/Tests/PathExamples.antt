-- ===== src/Tests/PathExamples.antt =====
-- The theorems about src/sysapi/posix/misc.cpp at concrete inputs.
use instant_send.Prelude.{◌≡◌, [], ◌||◌, arith, codes, length, ◌==◌}
use instant_send.Paths.{path_is_unsafe, make_path, combine_path}
use instant_send.Paths.Unsafe.{components, climbs, path_is_unsafe-climbs}
use instant_send.Paths.Make.{make_path-MadeBefore, MadeBefore}

path_is_unsafe-climbs_example :
    path_is_unsafe (codes "a/../b")
    ≡ (climbs (components [] (codes "a/../b")) || (length (codes "a/../b") == 3))
path_is_unsafe-climbs_example = path_is_unsafe-climbs (codes "a/../b")

make_path-MadeBefore_example :
    MadeBefore
      (codes "/home")
      (codes "/home/files/x")
      (make_path (combine_path (codes "/home/files/x") (codes "f")))
make_path-MadeBefore_example =
    make_path-MadeBefore b'/' (codes "home") (codes "files/x") (codes "f") (omega arith)
