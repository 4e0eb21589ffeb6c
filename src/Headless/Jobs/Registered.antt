-- ===== src/Headless/Jobs/Registered.antt =====
-- The registry of headless/jobs.py: whatever is registered and removed, a pass has every job once.
use Prim.Native.String.{String}
use mathlib.Core.Path.{subst}
use mathlib.Core.List.{map-append}
use resin_compute.Base.{
  ◌+◌, ◌≡◌, inl, inr, refl, ◌∙◌, List, [], ◌∷◌, ◌++◌, arith, Bool-cases, length, some, leb,
}
use resin_compute.Base.Texts.{has, str_eq_comm, IsDistinct}
use resin_compute.Objectives.Graph.Index.{IsDistinct-snoc}
use resin_compute.Headless.Jobs.{
  JobSpec, Registry, names, register, unregister, insert_job, by_sequence, ordered_jobs,
}
use resin_compute.Headless.Jobs.Ordered.{IsPass, remove-IsDistinct, emit-IsPass}

-- The registries that the calls of `register` and `unregister` make.
pub data Reached {Func : Type 0} : Registry Func → Type 0 where
  empty : Reached (record { jobs = []; counter = 0 })
  registered :
      {r' : Registry Func} (r : Registry Func) (spec : JobSpec Func)
      → Reached r
      → register r spec ≡ some r'
      → Reached r'
  unregistered : (r : Registry Func) (name : String) → Reached r → Reached (unregister r name)

module _ {Func : Type 0} where
  register-IsDistinct :
      (r : Registry Func) (spec : JobSpec Func) {r' : Registry Func}
      → IsDistinct (names r.jobs)
      → register r spec ≡ some r'
      → IsDistinct (names r'.jobs)
  unfolding register
  register-IsDistinct r spec {r'} apart h = elim (Bool-cases (has spec.name (names r.jobs))) [
    | inl taken ↦ cc (rw taken at h)
    | inr new ↦
        let stamped : JobSpec Func = record spec { sequence = r.counter + 1 } in
        let same : record { jobs = r.jobs ++ stamped ∷ []; counter = r.counter + 1 } ≡ r' =
          cc (rw new at h) in
        subst (λ (q : Registry Func). IsDistinct (names q.jobs)) same
          (rw (map-append (λ (s : JobSpec Func). s.name) r.jobs (stamped ∷ []))
            (IsDistinct-snoc (names r.jobs) spec.name apart new))
  ]

  Reached-IsDistinct : {r : Registry Func} → Reached r → IsDistinct (names r.jobs)
  unfolding unregister
  Reached-IsDistinct empty = tt
  Reached-IsDistinct (registered r spec before h) =
      register-IsDistinct r spec (Reached-IsDistinct before) h
  Reached-IsDistinct (unregistered r name before) =
      remove-IsDistinct name r.jobs (Reached-IsDistinct before)

  has-insert_job :
      (s : JobSpec Func) (rs : List (JobSpec Func)) (n : String)
      → has n (names (insert_job s rs)) ≡ has n (names (s ∷ rs))
  has-insert_job s [] n = refl
  has-insert_job s (t ∷ rs) n = ground (arith, has-insert_job s rs n)

  insert_job-IsDistinct :
      (s : JobSpec Func) (rs : List (JobSpec Func))
      → IsDistinct (names (s ∷ rs))
      → IsDistinct (names (insert_job s rs))
  insert_job-IsDistinct s [] apart = apart
  insert_job-IsDistinct s (t ∷ rs) apart = elim (Bool-cases (leb s.sequence t.sequence)) [
    | inl first ↦ rw first apart
    | inr later ↦ rw later (
      ground (arith, has-insert_job s rs t.name, str_eq_comm t.name s.name, apart.0, apart.1),
      insert_job-IsDistinct s rs (ground (arith, apart.0), apart.1.1),
    )
  ]

  by_sequence_lem :
      (rs : List (JobSpec Func))
      → IsDistinct (names rs)
      → IsDistinct (names (by_sequence rs))
        × ((n : String) → has n (names (by_sequence rs)) ≡ has n (names rs))
  by_sequence_lem [] apart = (tt, λ n. refl)
  by_sequence_lem (s ∷ rs) apart =
      let (apart', same) = by_sequence_lem rs apart.1 in
      (
        insert_job-IsDistinct s (by_sequence rs) (same s.name ∙ apart.0, apart'),
        λ n. has-insert_job s (by_sequence rs) n ∙ ground (arith, same n),
      )

  -- For whatever was registered and removed, the order has the name of every registered job once. In a
  -- front of it each job stands after the registered ones that it depends on; the jobs behind it each
  -- wait for a registered one that is not in the front.
  pub ordered_jobs-IsPass :
      (r : Registry Func) → Reached r → IsPass (names r.jobs) [] r.jobs (ordered_jobs r)
  unfolding ordered_jobs
  ordered_jobs-IsPass r reached =
      let (apart, same) = by_sequence_lem r.jobs (Reached-IsDistinct reached) in
      let pass =
        emit-IsPass (length (by_sequence r.jobs)) (names r.jobs) [] (by_sequence r.jobs) apart
          (omega arith) in
      record {
        front = pass.front;
        rest = pass.rest;
        whole = pass.whole;
        served = pass.served;
        waiting = pass.waiting;
        once = pass.once;
        every = λ n. pass.every n ∙ same n;
      }
