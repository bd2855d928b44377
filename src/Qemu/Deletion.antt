-- ===== src/Qemu/Deletion.antt =====
-- What deleteNetwork and deleteDomains of cli/infrastructure/qemu/delete.go take away.
use delegatio.Common.{
  ℕ, suc, ◌≤◌, ◌≡◌, refl, ◌∙◌, String, Bool, true, false, List, [], ◌∷◌, Option, none, some,
  is_some, eqb, ◌==◌, if◌then◌else◌, arith, inl, inr, Bool-cases, Option-cases,
}
use mathlib.Core.Path.{subst}
use delegatio.Common.GoMap.{one_if}
use delegatio.Common.Outcome.{Result, ok, returns, Method, on_ok, ◌>>=◌}
use delegatio.Qemu.{
  Libvirt, for_each, delete_selected, delete_network, delete_domains, is_node,
  network_name_of_delegatio,
}

abbrev pub occurrences : ℕ → List ℕ → ℕ
occurrences h [] = 0
occurrences h (own ∷ objects) =
    let more = occurrences h objects in if eqb own h then suc more else more

eqb-true : (h j : ℕ) → eqb h j ≡ true → h ≡ j
eqb-true h j e = ground arith

eqb_self : (h : ℕ) → eqb h h ≡ true
eqb_self h = ground arith

-- Objects of one kind at a service that answers: `present` gives the name of an active one. The list
-- has each of them once, and Destroy takes away just one.
pub record ObjectLaws {V : Type 0} (list : Method V (Result ℕ (List ℕ)))
    (get_name : ℕ → Method V (Result ℕ String)) (destroy : ℕ → Method V (Result ℕ Unit))
    : Type 1 where
  pub present : V → ℕ → Option String
  pub list_law :
      (v : V)
      → (objects : List ℕ) × (list v ≡ returns (ok objects) v)
        × ((h : ℕ) → occurrences h objects ≡ one_if (is_some (present v h)))
  pub name_law :
      (v : V) (h : ℕ) (n : String) → present v h ≡ some n → get_name h v ≡ returns (ok n) v
  pub destroy_law :
      (v : V) (h : ℕ) (n : String)
      → present v h ≡ some n
      → (v' : V) × (destroy h v ≡ returns (ok tt) v')
        × ((j : ℕ) → present v' j ≡ (if eqb h j then none else present v j))

abbrev pub unless : (String → Bool) → Option String → Option String
unless selected none = none
unless selected (some n) = if selected n then none else some n

all_listed :
    (selected : String → Bool) (o : Option String) (m : ℕ)
    → m ≡ one_if (is_some o)
    → (if eqb m 0 then o else unless selected o) ≡ unless selected o
all_listed selected none m e = rw e refl
all_listed selected (some n) m e = rw e refl

module _ {V : Type 0} {list : Method V (Result ℕ (List ℕ))}
    {get_name : ℕ → Method V (Result ℕ String)} {destroy : ℕ → Method V (Result ℕ Unit)}
    (laws : ObjectLaws list get_name destroy) (selected : String → Bool) where
  abbrev At : V → List ℕ → Type 0
  At v objects = (h : ℕ) → occurrences h objects ≤ one_if (is_some (laws.present v h))

  first_is_present :
      (h : ℕ) (objects : List ℕ) (v : V)
      → At v (h ∷ objects)
      → (n : String) × (laws.present v h ≡ some n) × (occurrences h objects ≡ 0)
  first_is_present h objects v at = elim (Option-cases (laws.present v h)) [
    | inl e ↦ let bound = at h in absurd (ground (arith, bound, e))
    | inr (n, e) ↦ let bound = at h in (n, e, ground (arith, bound, e))
  ]

  unchanged :
      (h : ℕ) (n : String) (v : V)
      → laws.present v h ≡ some n
      → selected n ≡ false
      → (j : ℕ)
      → laws.present v j ≡ (if eqb h j then unless selected (some n) else laws.present v j)
  unchanged h n v there e j = elim (Bool-cases (eqb h j)) [
    | inl same ↦ rw (same, e) (subst (λ t. laws.present v t ≡ some n) (eqb-true h j same) there)
    | inr differ ↦ rw differ refl
  ]

  -- One turn of the loop.
  delete_one :
      (h : ℕ) (n : String) (v : V)
      → laws.present v h ≡ some n
      → (v' : V) × (delete_selected get_name destroy selected h v ≡ returns (ok tt) v')
        × ((j : ℕ)
            → laws.present v' j ≡ (if eqb h j then unless selected (some n) else laws.present v j))
  unfolding delete_selected
  delete_one h n v there = elim (Bool-cases (selected n)) [
    | inl e ↦
        let (v', done, left) = laws.destroy_law v h n there in
        (v', rw (laws.name_law v h n there, ◌>>=◌) (rw e done), λ j. rw e (left j))
    | inr e ↦ (v, rw (laws.name_law v h n there, ◌>>=◌) (rw e refl), λ j. unchanged h n v there e j)
  ]

  At-rest :
      (h : ℕ) (n : String) (objects : List ℕ) (v v1 : V)
      → At v (h ∷ objects)
      → occurrences h objects ≡ 0
      → ((j : ℕ)
          → laws.present v1 j ≡ (if eqb h j then unless selected (some n) else laws.present v j))
      → At v1 objects
  At-rest h n objects v v1 at once left j = elim (Bool-cases (eqb h j)) [
    | inl same ↦
        let none_left : occurrences j objects ≡ 0 =
          subst (λ t. occurrences t objects ≡ 0) (eqb-true h j same) once in
        rw none_left (omega arith)
    | inr differ ↦ let kept = left j in let bound = at j in ground (arith, kept, bound, differ)
  ]

  after_first :
      (h : ℕ) (n : String) (objects : List ℕ) (v v1 : V)
      → laws.present v h ≡ some n
      → occurrences h objects ≡ 0
      → ((j : ℕ)
          → laws.present v1 j ≡ (if eqb h j then unless selected (some n) else laws.present v j))
      → (j : ℕ)
      → (if eqb (occurrences j objects) 0
          then laws.present v1 j
          else unless selected (laws.present v1 j))
        ≡ (if eqb (occurrences j (h ∷ objects)) 0
            then laws.present v j
            else unless selected (laws.present v j))
  after_first h n objects v v1 there once left j = elim (Bool-cases (eqb h j)) [
    | inl same ↦
        subst
          (λ t.
            (if eqb (occurrences t objects) 0
              then laws.present v1 t
              else unless selected (laws.present v1 t))
            ≡ (if eqb (occurrences t (h ∷ objects)) 0
                then laws.present v t
                else unless selected (laws.present v t)))
          (eqb-true h j same)
          (let here : laws.present v1 h ≡ unless selected (laws.present v h) =
              left h ∙ rw (eqb_self h, there) refl in
            rw (once, eqb_self h) here)
    | inr differ ↦
        let kept : laws.present v1 j ≡ laws.present v j = left j ∙ rw differ refl in
        rw (kept, differ) refl
  ]

  delete_each :
      (objects : List ℕ) (v : V)
      → At v objects
      → (v' : V) × (for_each objects (delete_selected get_name destroy selected) v
          ≡ returns (ok tt) v')
        × ((j : ℕ)
            → laws.present v' j ≡ (
                if eqb (occurrences j objects) 0
                then laws.present v j
                else unless selected (laws.present v j)))
  unfolding for_each
  delete_each [] v at = (v, refl, λ j. refl)
  delete_each (h ∷ objects) v at =
      let (n, there, once) = first_is_present h objects v at in
      let (v1, done, left) = delete_one h n v there in
      let (v', all, rest) = delete_each objects v1 (At-rest h n objects v v1 at once left) in
      (v', rw (done, ◌>>=◌) all, λ j. rest j ∙ after_first h n objects v v1 there once left j)

  -- Deleting by name over the whole list.
  delete_listed :
      (v : V)
      → (v' : V) × ((list >>= λ found.
              on_ok found λ objects. for_each objects (delete_selected get_name destroy selected))
            v
          ≡ returns (ok tt) v')
        × ((h : ℕ) → laws.present v' h ≡ unless selected (laws.present v h))
  delete_listed v =
      let (objects, listed, counted) = laws.list_law v in
      let (v', done, left) = delete_each objects v (λ h. omega (arith, counted h)) in
      (
        v',
        rw (listed, ◌>>=◌) done,
        λ h. left h ∙ all_listed selected (laws.present v h) (occurrences h objects) (counted h),
      )

module _ {V : Type 0} (virt : Libvirt V) where
  -- At a libvirt that answers, deleteDomains succeeds and takes away exactly the active domains whose
  -- names have the prefix of a master or of a worker: no other one is destroyed.
  pub delete_domains_lem :
      (laws : ObjectLaws virt.list_domains virt.domain_name virt.domain_destroy) (v : V)
      → (v' : V) × (delete_domains virt v ≡ returns (ok tt) v')
        × ((h : ℕ) → laws.present v' h ≡ unless (is_node virt) (laws.present v h))
  unfolding delete_domains
  delete_domains_lem laws v = delete_listed laws (is_node virt) v

  -- At a libvirt that answers, deleteNetwork succeeds and takes away exactly the active networks that
  -- have the name of the program's own network.
  pub delete_network_lem :
      (laws : ObjectLaws virt.list_networks virt.network_name virt.network_destroy) (v : V)
      → (v' : V) × (delete_network virt v ≡ returns (ok tt) v')
        × ((h : ℕ)
            → laws.present v' h ≡ unless (λ n. n == network_name_of_delegatio) (laws.present v h))
  unfolding delete_network
  delete_network_lem laws v = delete_listed laws (λ n. n == network_name_of_delegatio) v
