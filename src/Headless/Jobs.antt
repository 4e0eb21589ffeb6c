-- ===== src/Headless/Jobs.antt =====
-- headless/jobs.py: the registry of the jobs and the order of a pass. The registry is the list of its
-- entries in the order of insertion, with the counter; what a job runs is a value of any type.
pub mod Ordered
pub mod Registered
use Prim.Native.String.{String}
use text.Mathlib.Text.{◌==◌ as str_eq}
use resin_compute.Base.{
  ℕ, zero, suc, ◌+◌, Bool, true, false, not, ◌&&◌, ◌||◌, Option, none, some, List, [], ◌∷◌, ◌++◌,
  map, length, leb, if◌then◌else◌,
}
use resin_compute.Base.Texts.{has}

-- `all(d in done or d not in known for d in s.depends_on)`
abbrev pub is_ready : (known done : List String) → List String → Bool
is_ready known done [] = true
is_ready known done (d ∷ ds) = (has d done || not (has d known)) && is_ready known done ds

module _ (Func : Type 0) where
  pub record JobSpec : Type 0 where
    pub name : String
    pub description : String
    pub cadence : String
    pub func : Func
    pub depends_on : List String
    pub sequence : ℕ

  -- `_REGISTRY` and `_SEQUENCE`.
  pub record Registry : Type 0 where
    pub jobs : List JobSpec
    pub counter : ℕ

module _ {Func : Type 0} where
  abbrev pub names : List (JobSpec Func) → List String
  names = map (λ s. s.name)

  -- `register`: a name that is taken is a ValueError.
  unfoldable pub register : Registry Func → JobSpec Func → Option (Registry Func)
  register registry spec =
      if has spec.name (names registry.jobs)
      then none
      else some (record {
        jobs = registry.jobs ++ record spec { sequence = registry.counter + 1 } ∷ [];
        counter = registry.counter + 1;
      })

  -- `_REGISTRY.pop(name, None)`, and `remaining.remove(head)`, where names tell the entries apart.
  abbrev pub remove : String → List (JobSpec Func) → List (JobSpec Func)
  remove name [] = []
  remove name (s ∷ rest) =
      let others = remove name rest in if str_eq s.name name then rest else s ∷ others

  unfoldable pub unregister : Registry Func → String → Registry Func
  unregister registry name = record { jobs = remove name registry.jobs; counter = registry.counter }

  -- `sorted(..., key=lambda s: s.sequence)`, by insertion.
  abbrev pub insert_job : JobSpec Func → List (JobSpec Func) → List (JobSpec Func)
  insert_job s [] = s ∷ []
  insert_job s (t ∷ rest) =
      if leb s.sequence t.sequence then s ∷ t ∷ rest else t ∷ insert_job s rest

  abbrev pub by_sequence : List (JobSpec Func) → List (JobSpec Func)
  by_sequence [] = []
  by_sequence (s ∷ rest) = insert_job s (by_sequence rest)

  -- `ready[0]`
  abbrev pub first_ready : (known done : List String) → List (JobSpec Func) → Option (JobSpec Func)
  first_ready known done [] = none
  first_ready known done (s ∷ rest) =
      let later = first_ready known done rest in
      if is_ready known done s.depends_on then some s else later

  -- The loop, on as many rounds as there are jobs; those of a cycle come last, as they stand.
  unfoldable pub emit :
      (rounds : ℕ)
      → (known done : List String) → (remaining : List (JobSpec Func)) → List (JobSpec Func)
  emit zero known done remaining = remaining
  emit (suc rounds) known done remaining = elim (first_ready known done remaining) [
    | none ↦ remaining
    | some head ↦ head ∷ emit rounds known (head.name ∷ done) (remove head.name remaining)
  ]

  unfoldable pub ordered_jobs : Registry Func → List (JobSpec Func)
  ordered_jobs registry =
      let remaining = by_sequence registry.jobs in
      emit (length remaining) (names registry.jobs) [] remaining

  abbrev pub job_names : Registry Func → List String
  job_names registry = names (ordered_jobs registry)
