-- ===== src/Grader/Marks.antt =====
-- Which requests get points.
use delegatio.Common.{
  ℕ, ◌≡◌, refl, String, Bool, Bool-cases, true, false, List, [], ◌∷◌, none, some, inl, inr, arith,
  Option-cases,
}
use delegatio.Common.Outcome.{ok, Result-cases}
use delegatio.Store.{Bytes}
use delegatio.Grader.{
  DirEntry, Sandbox, execute_command, write_file_to_disk, graded, grade_file, grade_files,
  grade_exercise_type1, check_nonce, by_id, request_grading,
}

module _ (box : Sandbox) (program input_dir : String) where
  -- A file passes that is a folder, or for which the program runs without an error and prints a text
  -- that contains the file's name without its last four characters.
  pub data Passes (f : DirEntry) : Type 0 where
    is_folder : f.is_dir ≡ true → Passes f
    right_output :
        (output expected : String)
        → f.is_dir ≡ false
        → execute_command box program (box.join input_dir f.name) ≡ ok output
        → box.cut_four f.name ≡ some expected
        → box.contains output expected ≡ true
        → Passes f

  abbrev pub AllPass : List DirEntry → Type 0
  AllPass [] = Unit
  AllPass (f ∷ files) = Passes f × AllPass files

  grade_file-passed : (f : DirEntry) → Passes f → grade_file box program input_dir f ≡ none
  unfolding grade_file
  grade_file-passed f (is_folder d) = rw d refl
  grade_file-passed f (right_output output expected d ran cut found) = rw (d, ran, cut, found) refl

  none-Passes : (f : DirEntry) → grade_file box program input_dir f ≡ none → Passes f
  unfolding grade_file
  none-Passes f h = elim (Bool-cases f.is_dir) [
    | inl d ↦ is_folder d
    | inr d ↦ elim (Result-cases (execute_command box program (box.join input_dir f.name))) [
      | inl (e, ran) ↦ absurd (ground (arith, ran, d, h))
      | inr (output, ran) ↦ elim (Option-cases (box.cut_four f.name)) [
        | inl cut ↦ absurd (ground (arith, ran, d, cut, h))
        | inr (expected, cut) ↦ elim (Bool-cases (box.contains output expected)) [
          | inl found ↦ right_output output expected d ran cut found
          | inr other ↦ absurd (ground (arith, ran, d, cut, other, h))
        ]
      ]
    ]
  ]

  -- A single file never gives the full points.
  grade_file_low :
      (f : DirEntry) (log : String)
      → grade_file box program input_dir f ≡ some (graded 100 log)
      → true ≡ false
  unfolding grade_file
  grade_file_low f log h = ground arith

  full_marks :
      (files : List DirEntry) (log : String)
      → grade_files box program input_dir files ≡ graded 100 log
      → AllPass files
  unfolding grade_files
  full_marks [] log h = tt
  full_marks (f ∷ files) log h = elim (Option-cases (grade_file box program input_dir f)) [
    | inl e ↦ (none-Passes f e, full_marks files log (rw (grade_files, e) at h))
    | inr (g, e) ↦ absurd (ground (arith, grade_file_low f log))
  ]

  pass_full :
      (files : List DirEntry)
      → AllPass files
      → grade_files box program input_dir files ≡ graded 100 ""
  unfolding grade_files
  pass_full [] h = refl
  pass_full (f ∷ files) (here, later) =
      rw (grade_files, grade_file-passed f here) (pass_full files later)

-- When the solution can be written and the folder of exercise 1 can be read, a request gets 100
-- points only for exercise 1 and when, for every file of it that is not a folder, the program runs
-- without an error and prints a text that contains the file's name without its last four characters;
-- and then it does get them.
pub full_marks_earned :
    (box : Sandbox) (submit : Bool) (nonce : String) (id : ℕ) (solution : Bytes) (program : String)
    (files : List DirEntry)
    → write_file_to_disk box solution ≡ ok program
    → box.read_dir (box.join "/exercises/" "exercise1") ≡ ok files
    → ((log : String)
        → request_grading box submit nonce id solution ≡ some (ok (100, log))
        → (id ≡ 1) × AllPass box program (box.join "/exercises/" "exercise1") files)
      × (id ≡ 1
          → AllPass box program (box.join "/exercises/" "exercise1") files
          → request_grading box submit nonce id solution ≡ some (ok (100, "")))
unfolding request_grading check_nonce by_id grade_exercise_type1
full_marks_earned box submit nonce id solution program files written listed =
    let folder = box.join "/exercises/" "exercise1" in
    (
      λ log h. (ground arith, full_marks box program folder files log (ground arith)),
      λ first pass. ground (arith, pass_full box program folder files pass),
    )
