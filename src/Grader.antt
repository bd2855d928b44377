-- ===== src/Grader.antt =====
-- grader/gradeapi/request.go and graders/type1.go. The disk, the programs that are run and the string
-- functions of Go's library are the parameter `Sandbox`.
pub mod Marks
use delegatio.Common.{
  ℕ, String, Bool, true, false, List, [], ◌∷◌, Option, none, some, ◌<>◌, not, eqb, if◌then◌else◌,
}
use delegatio.Common.Outcome.{Result, ok, err, bind_result}
use delegatio.Store.{Bytes}

-- os.DirEntry
pub record DirEntry : Type 0 where
  pub name : String
  pub is_dir : Bool

-- `command_output` is exec.CommandContext with Output, at the deadline of a single execution; `cut_four` is name[:len(name)-4], which panics at a shorter name.
pub record Sandbox : Type 0 where
  pub create_temp : String → String → Result ℕ String
  pub write : String → Bytes → Result ℕ Unit
  pub chmod : String → ℕ → Result ℕ Unit
  pub sync : String → Result ℕ Unit
  pub read_dir : String → Result ℕ (List DirEntry)
  pub command_output : String → String → Result ℕ String
  pub contains : String → String → Bool
  pub cut_four : String → Option String
  pub join : String → String → String  -- filepath.Join

-- Points and a log, an error, or a panic.
pub data Grade : Type 0 where
  graded : ℕ → String → Grade
  failed : ℕ → Grade
  panicked : Grade

module _ (box : Sandbox) where
  -- writeFileToDisk gives the name of the new file; 13 is codes.Internal and 448 is 0o700.
  unfoldable pub write_file_to_disk : Bytes → Result ℕ String
  write_file_to_disk solution = elim (box.create_temp "/tmp" "request-") [
    | err e ↦ err 13
    | ok f ↦
        bind_result (box.write f solution)
          λ _. bind_result (box.chmod f 448) λ _. bind_result (box.sync f) λ _. ok f
  ]

  -- executeCommand
  unfoldable pub execute_command : String → String → Result ℕ String
  execute_command file_name arg = box.command_output file_name arg

module _ (box : Sandbox) (program input_dir : String) where
  -- One file of the exercise: nothing when it passes, and else the grade.
  unfoldable pub grade_file : DirEntry → Option Grade
  grade_file f =
      if f.is_dir then none else elim (execute_command box program (box.join input_dir f.name)) [
        | err e ↦ some (failed e)
        | ok output ↦ elim (box.cut_four f.name) [
          | none ↦ some panicked
          | some expected ↦ if box.contains output expected then none else some (graded 0 output)
        ]
      ]

  unfoldable pub grade_files : List DirEntry → Grade
  grade_files [] = graded 100 ""
  grade_files (f ∷ files) =
      let rest = grade_files files in elim (grade_file f) [ none ↦ rest | some grade ↦ grade ]

module _ (box : Sandbox) where
  -- GradeExerciseType1 at the folder of its exercise.
  unfoldable pub grade_exercise_type1 : Bytes → String → Grade
  unfolding grade_files
  grade_exercise_type1 solution exercise = elim (write_file_to_disk box solution) [
    | err e ↦ failed e
    | ok file ↦ elim (box.read_dir (box.join "/exercises/" exercise)) [
      | err e ↦ failed e
      | ok files ↦ grade_files box file (box.join "/exercises/" exercise) files
    ]
  ]

  -- checkNonce accepts every nonce.
  check_nonce : String → Result ℕ Unit
  check_nonce nonce = ok tt

  -- What a switch on the id answers.
  abbrev answer : Grade → Option (Result ℕ (ℕ × String))
  answer (graded points log) = some (ok (points, log))
  answer (failed e) = some (err 3)
  answer panicked = none

  by_id : ℕ → Bytes → Option (Result ℕ (ℕ × String))
  unfolding grade_exercise_type1
  by_id id solution =
      if eqb id 1 then answer (grade_exercise_type1 solution "exercise1") else some (ok (0, ""))

  -- RequestGrading; its errors are the codes InvalidArgument (3) and Unauthenticated (16), and `none`
  -- is a panic. The points are 0 or 100, so int32 keeps them.
  unfoldable pub request_grading : Bool → String → ℕ → Bytes → Option (Result ℕ (ℕ × String))
  unfolding check_nonce by_id
  request_grading submit nonce id solution =
      if submit
      then elim (check_nonce nonce) [ err e ↦ some (err 16) | ok _ ↦ by_id id solution ]
      else by_id id solution
