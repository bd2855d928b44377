-- ===== src/Agent/Files.antt =====
-- agent/vmapi/file.go, and WriteFileInPodgRPC of agent/vmapi/vmapi.go. The file system is a state `F`
-- with the parameter `FileSystem`, which has the calls of os and filepath.Join.
use delegatio.Common.{
  ℕ, ◌≡◌, ◌≢◌, refl, ◌∙◌, String, Bool, true, false, Option, some, if◌then◌else◌, ◌==◌, eq_iff,
  eq_refl, Bool-cases, inl, inr,
}
use delegatio.Common.Outcome.{Result, ok, err, returns, Method, pure, on_ok, ◌>>=◌, ◌>>◌, bind_step}
use delegatio.Store.{Bytes}
use delegatio.Agent.Exec.{GrpcStatus, internal}

-- `is_missing` is os.Stat with os.IsNotExist. The numbers are the modes of a new directory and file.
pub record FileSystem (F : Type 0) : Type 0 where
  pub join_path : String → String → String
  pub is_missing : String → Method F Bool
  pub mkdir_all : String → ℕ → Method F (Result ℕ Unit)
  pub write_file : String → Bytes → ℕ → Method F (Result ℕ Unit)
  pub read_file : String → Method F (Result ℕ Bytes)

-- 1 << 30: a new file gets no permission bit.
abbrev pub mode_append : ℕ
mode_append = 1073741824

abbrev internal_error : {A : Type 0} → Result ℕ A → Result GrpcStatus A
internal_error (ok a) = ok a
internal_error (err e) = err internal

module _ {F : Type 0} (os : FileSystem F) where
  -- The directory, when it is missing; an error of MkdirAll is dropped.
  make_missing : Bool → String → Method F Unit
  make_missing false path = pure tt
  make_missing true path = do os.mkdir_all path 448; pure tt

  ensure_directory : String → Method F Unit
  unfolding make_missing
  ensure_directory filepath = do missing ← os.is_missing filepath; make_missing missing filepath

  unfoldable pub write_file : String → String → Bytes → Method F (Result GrpcStatus Unit)
  unfolding ensure_directory
  write_file filepath filename content = do
    ensure_directory filepath
    wrote ← os.write_file (os.join_path filepath filename) content mode_append
    pure (internal_error wrote)

  unfoldable pub read_file : String → String → Method F (Result GrpcStatus Bytes)
  read_file filepath filename = do
    read ← os.read_file (os.join_path filepath filename)
    pure (internal_error read)

  -- WriteFileInPodgRPC: the dial, and WriteFile at the agent.
  unfoldable pub write_file_in_pod_grpc :
      Result GrpcStatus Unit → String → String → Bytes → Method F (Result GrpcStatus Unit)
  unfolding write_file
  write_file_in_pod_grpc dialled filepath filename content =
      on_ok dialled λ _. write_file filepath filename content

-- A file system on which the agent is root, so that it reads and writes files of any mode: MkdirAll makes
-- a directory that is missing, and a file in a directory that is there is written and read.
pub record FileLaws {F : Type 0} (os : FileSystem F) : Type 1 where
  pub has_directory : F → String → Bool
  pub view : F → String → Option Bytes
  pub missing_law :
      (path : String) (f : F)
      → os.is_missing path f ≡ returns (if has_directory f path then false else true) f
  pub mkdir_law :
      (path : String) (mode : ℕ) (f : F)
      → (f' : F) × (os.mkdir_all path mode f ≡ returns (ok tt) f')
        × (has_directory f' path ≡ true)
        × ((j : String) → view f' j ≡ view f j)
  pub write_law :
      (directory name : String) (content : Bytes) (mode : ℕ) (f : F)
      → has_directory f directory ≡ true
      → (f' : F) × (os.write_file (os.join_path directory name) content mode f ≡ returns (ok tt) f')
        × ((j : String)
            → view f' j ≡ (if os.join_path directory name == j then some content else view f j))
  pub read_law :
      (path : String) (content : Bytes) (f : F)
      → view f path ≡ some content
      → os.read_file path f ≡ returns (ok content) f

other_file :
    (path j : String) (o : Option Bytes) {before after : Option Bytes}
    → path ≢ j
    → after ≡ before
    → (if path == j then o else after) ≡ before
other_file path j o apart same = elim (Bool-cases (path == j)) [
  | inl e ↦ absurd (apart ((eq_iff path j).0 e))
  | inr e ↦ rw e same
]

module _ {F : Type 0} (os : FileSystem F) (laws : FileLaws os) where
  directory_made :
      (path : String) (f : F)
      → (f' : F) × (ensure_directory os path f ≡ returns tt f')
        × (laws.has_directory f' path ≡ true)
        × ((j : String) → laws.view f' j ≡ laws.view f j)
  unfolding ensure_directory make_missing
  directory_made path f = elim (Bool-cases (laws.has_directory f path)) [
    | inl there ↦ (
      f,
      bind_step (os.is_missing path) _ (laws.missing_law path f) ∙ rw there refl,
      there,
      λ j. refl,
    )
    | inr gone ↦
        let (f', made, there, same) = laws.mkdir_law path 448 f in
        (
          f',
          bind_step (os.is_missing path) _ (laws.missing_law path f)
              ∙ rw gone (rw (made, ◌>>=◌) refl),
          there,
          same,
        )
  ]

  pub read_file-write :
      (filepath filename : String) (content : Bytes) (f : F)
      → (f' : F) × (write_file_in_pod_grpc os (ok tt) filepath filename content f
          ≡ returns (ok tt) f')
        × (read_file os filepath filename f' ≡ returns (ok content) f')
        × ((j : String) → os.join_path filepath filename ≢ j → laws.view f' j ≡ laws.view f j)
  unfolding write_file_in_pod_grpc write_file read_file
  read_file-write filepath filename content f =
      let (f1, made, there, same) = directory_made filepath f in
      let (f', wrote, after) = laws.write_law filepath filename content mode_append f1 there in
      let path = os.join_path filepath filename in
      let shown : laws.view f' path ≡ some content = after path ∙ rw (eq_refl path) refl in
      (
        f',
        bind_step (ensure_directory os filepath) _ made ∙ rw (wrote, ◌>>=◌) refl,
        rw (laws.read_law path content f' shown, ◌>>=◌) refl,
        λ j apart.
            after j ∙ other_file (os.join_path filepath filename) j (some content) apart (same j),
      )
