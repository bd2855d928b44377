-- ===== src/Examples/Grading.antt =====
-- Runs of the grader.
use delegatio.Common.{
  ℕ, ◌≡◌, refl, String, true, false, List, [], ◌∷◌, some, ◌<>◌, ◌==◌, if◌then◌else◌,
}
use delegatio.Common.Outcome.{ok}
use delegatio.Grader.{DirEntry, Sandbox, write_file_to_disk, request_grading}
use delegatio.Grader.Marks.{AllPass, full_marks_earned}

abbrev exercise_files : List DirEntry
exercise_files =
    record { name = "7.in"; is_dir = false } ∷ record { name = "old"; is_dir = true } ∷ []

abbrev first_exercise : ℕ
first_exercise = 1

-- A program that prints the path of its input, and a test of texts by equality.
abbrev box : Sandbox
box = record {
  create_temp = λ dir pattern. ok "/tmp/request-1";
  write = λ f solution. ok tt;
  chmod = λ f mode. ok tt;
  sync = λ f. ok tt;
  read_dir = λ dir. ok exercise_files;
  command_output = λ program path. ok path;
  contains = λ output expected. output == expected;
  cut_four = λ name. some name;
  join = λ dir name. if name == "7.in" then name else dir <> name;
}

abbrev folder : String
folder = box.join "/exercises/" "exercise1"

full_marks_earned_example :
    ((log : String)
      → request_grading box true "n" first_exercise [] ≡ some (ok (100, log))
      → (first_exercise ≡ 1) × AllPass box "/tmp/request-1" folder exercise_files)
    × (first_exercise ≡ 1
        → AllPass box "/tmp/request-1" folder exercise_files
        → request_grading box true "n" first_exercise [] ≡ some (ok (100, "")))
unfolding write_file_to_disk
full_marks_earned_example =
    full_marks_earned box true "n" first_exercise [] "/tmp/request-1" exercise_files refl refl
