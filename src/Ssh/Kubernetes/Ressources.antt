-- ===== src/Ssh/Kubernetes/Ressources.antt =====
-- The wait for the namespace file.
use delegatio.Common.{
  ◌≡◌, refl, String, Bool, true, false, List, [], ◌∷◌, ◌++◌, some, ◌==◌, if◌then◌else◌, arith, map,
  Bool-cases, inl, inr,
}
use delegatio.Common.Outcome.{ok, err}
use delegatio.Ssh.Kubernetes.{
  FileRead, not_exist, content, MountEvent, tick, context_done, wait_for_namespace_mount, found,
  context_ended,
}

-- A tick at which the file is not there, or empty.
abbrev pub is_waiting : (String → String) → FileRead → Bool
is_waiting trim_space not_exist = trim_space "" == ""
is_waiting trim_space (FileRead.read_error e) = false
is_waiting trim_space (content text) = trim_space text == ""

abbrev pub all_waiting : (String → String) → List FileRead → Bool
all_waiting trim_space [] = true
all_waiting trim_space (file ∷ files) =
    let rest = all_waiting trim_space files in if is_waiting trim_space file then rest else false

-- After any number of ticks at which the file is missing or empty, the loop gives the trimmed text
-- of the next file that has some, or the context's error if the context ends.
pub wait_for_namespace_mount_lem :
    (trim_space : String → String) (files : List FileRead) (text : String) (later : List MountEvent)
    → all_waiting trim_space files ≡ true
    → (trim_space text == "") ≡ false
    → (wait_for_namespace_mount trim_space (map tick files ++ tick (content text) ∷ later)
        ≡ some (ok (trim_space text)))
      × (wait_for_namespace_mount trim_space (map tick files ++ context_done ∷ later)
          ≡ some (err context_ended))
unfolding wait_for_namespace_mount found
wait_for_namespace_mount_lem trim_space [] text later w t = (rw t, refl)
wait_for_namespace_mount_lem trim_space (FileRead.read_error e ∷ files) text later w t = cc
wait_for_namespace_mount_lem trim_space (not_exist ∷ files) text later w t =
    elim (Bool-cases (trim_space "" == "")) [
      | inl e ↦ rw e (wait_for_namespace_mount_lem trim_space files text later (rw e at w) t)
      | inr e ↦ absurd (ground arith)
    ]
wait_for_namespace_mount_lem trim_space (content s ∷ files) text later w t =
    elim (Bool-cases (trim_space s == "")) [
      | inl e ↦ rw e (wait_for_namespace_mount_lem trim_space files text later (rw e at w) t)
      | inr e ↦ absurd (ground arith)
    ]
