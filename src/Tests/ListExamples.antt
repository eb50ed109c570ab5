-- ===== src/Tests/ListExamples.antt =====
-- The theorems about src/filelist.cpp at concrete lists.
use instant_send.Prelude.{◌≡◌, ◌==◌, if◌then◌else◌, arith, sym, true, none, some, codes}
use instant_send.FileList.{FileList, Controller, remove_controller}
use instant_send.FileList.Consistent.{IsConsistent, remove_controller-IsConsistent}

abbrev no_files : FileList
no_files = record { identifiers = λ id. none; heap = λ p. none; next = 1 }

abbrev a_file : Controller
a_file = record {
  identifier = 7;
  file_name = codes "/srv/a";
  file_size = 5;
  machine_id = codes "10.0.0.1";
}

-- The list with a file under the id 7.
abbrev one_file : FileList
one_file = record {
  identifiers = λ id. if id == 7 then some 1 else none;
  heap = λ p. if p == 1 then some a_file else none;
  next = 2;
}

one_file-IsConsistent : IsConsistent one_file
one_file-IsConsistent id p e =
    let named : id ≡ 7 = ground arith in
    let first : p ≡ 1 = ground arith in (a_file, ground arith, sym named, omega arith)

remove_controller-IsConsistent_example : IsConsistent (remove_controller 7 true one_file)
remove_controller-IsConsistent_example =
    remove_controller-IsConsistent 7 true one_file one_file-IsConsistent
