-- ===== src/Server/CiClassify.antt =====
-- packages/server/src/modules/github/ci-classify.ts: why a check is red.
use Prim.Native.Char.{code}
use specbook.Base.{
  ℕ, ◌+◌, ◌≡◌, refl, sym, ap, ◌∙◌, ◌⊎◌, inl, inr, String, Bool, true, false, Option, none, some,
  List, [], ◌∷◌, Memᴰ, Memᴰ-filter, any, all, filter, find?, is_text, concat, leb, ◌==◌, ◌&&◌,
  Bool-cases, if◌then◌else◌, arith,
}
use mathlib.Core.List.Memᴰ
use mathlib.Core.Path.{subst}
use text.Mathlib.TextEquality.{eq_iff}
use specbook.Rows.{CiFailureKind, retryable, setup, external}
use specbook.Github.{CiJob, CiJobStep}

-- CiRunFacts
pub record CiRunFacts : Type 0 where
  pub run_conclusion : String
  pub jobs : List CiJob

-- CiClassification
pub record CiClassification : Type 0 where
  pub kind : CiFailureKind
  pub pointer : String

-- The case of a Latin letter does not count.
abbrev fold_case : ℕ → ℕ
fold_case c = if leb 65 c && leb c 90 then c + 32 else c

abbrev starts_with : String → String → Bool
starts_with String.[] s = true
starts_with (String.◌∷◌ c p) String.[] = false
starts_with (String.◌∷◌ c p) (String.◌∷◌ d s) = code c == fold_case (code d) && starts_with p s

-- INFRA_STEP
unfoldable pub is_infra_step : String → Bool
is_infra_step name =
    any (λ prefix. starts_with prefix name)
      ("set up job" ∷ "checkout" ∷ "download action" ∷ "initialize containers" ∷ [])

-- `text.replace('_', ' ')`: the first underscore.
unfoldable pub spaced : String → String
spaced String.[] = ""
spaced (String.◌∷◌ c s) =
    let rest = spaced s in if code c == b'_' then concat (" " ∷ s ∷ []) else String.◌∷◌ c rest

abbrev pub is_one_of : List String → Option String → Bool
is_one_of names s = any (is_text s) names

-- `['failure', 'cancelled', 'timed_out'].includes(x.conclusion ?? '')`
abbrev pub has_failed : Option String → Bool
has_failed = is_one_of ("failure" ∷ "cancelled" ∷ "timed_out" ∷ [])

-- The clock ran out, or the job was killed.
abbrev pub was_stopped : CiJob → Bool
was_stopped j = is_one_of ("cancelled" ∷ "timed_out" ∷ []) j.conclusion

abbrev text_of : Option String → String
text_of none = ""
text_of (some s) = s

-- The first failed step of a job, if it is one that GitHub owns.
abbrev pub infra_step : CiJob → Option CiJobStep
infra_step job = elim (find? (λ (s : CiJobStep). has_failed s.conclusion) job.steps) [
  | none ↦ none
  | some step ↦ if is_infra_step step.name then some step else none
]

-- The loop over the failed jobs.
unfoldable pub first_external : List CiJob → Option CiClassification
first_external [] = none
first_external (job ∷ rest) =
    let later = first_external rest in
    elim (infra_step job) [
      | none ↦ later
      | some step ↦ some (record {
        kind = external;
        pointer = concat ("job " ∷ job.name ∷ " — " ∷ step.name ∷ []);
      })
    ]

-- The classification by the failed jobs, of which there is one at least.
unfoldable pub classify_jobs : List CiJob → Option CiClassification
unfolding first_external spaced
classify_jobs [] = none
classify_jobs (job ∷ rest) =
    if all was_stopped (job ∷ rest)
    then some (record {
      kind = retryable;
      pointer = concat ("job " ∷ job.name ∷ " " ∷ spaced (text_of job.conclusion) ∷ []);
    })
    else first_external (job ∷ rest)

abbrev pub failed_jobs : List CiJob → List CiJob
failed_jobs jobs = filter (λ j. has_failed j.conclusion) jobs

-- classifyCiFailure
unfoldable pub classify_ci_failure : CiRunFacts → Option CiClassification
unfolding classify_jobs spaced
classify_ci_failure facts =
    if is_one_of ("startup_failure" ∷ "action_required" ∷ []) (some facts.run_conclusion)
    then some
        (record { kind = setup; pointer = concat ("workflow " ∷ spaced facts.run_conclusion ∷ []) })
    else if is_one_of ("cancelled" ∷ "timed_out" ∷ "stale" ∷ []) (some facts.run_conclusion)
    then some
        (record { kind = retryable; pointer = concat ("run " ∷ spaced facts.run_conclusion ∷ []) })
    else classify_jobs (failed_jobs facts.jobs)

stopped_elim :
    (jobs : List CiJob)
    → all was_stopped jobs ≡ true
    → (j : CiJob) → Memᴰ j jobs
    → was_stopped j ≡ true
stopped_elim [] h j m = absurd (Memᴰ.not-nil m)
stopped_elim (x ∷ xs) h j (Memᴰ.head e) = ap was_stopped e ∙ ground arith
stopped_elim (x ∷ xs) h j (Memᴰ.tail m) = stopped_elim xs (ground arith) j m

branch :
    {A : Type 0} (b : Bool) (x y : A) {z : A}
    → (if b then x else y) ≡ z
    → ((b ≡ true) × (x ≡ z)) ⊎ ((b ≡ false) × (y ≡ z))
branch true x y h = inl (refl, h)
branch false x y h = inr (refl, h)

abbrev kind_of : Option CiClassification → CiFailureKind
kind_of none = external
kind_of (some c) = c.kind

external_step :
    (job : CiJob) (later : Option CiClassification) (o : Option CiJobStep) {c : CiClassification}
    → (later ≡ some c → c.kind ≡ external)
    → (elim o [
      | none ↦ later
      | some step ↦ some (record {
        kind = external;
        pointer = concat ("job " ∷ job.name ∷ " — " ∷ step.name ∷ []);
      })
    ])
      ≡ some c
    → c.kind ≡ external
external_step job later none rest h = rest h
external_step job later (some step) rest h = ap kind_of (sym h)

external_only :
    (jobs : List CiJob) {c : CiClassification} → first_external jobs ≡ some c → c.kind ≡ external
unfolding first_external
external_only [] h = cc
external_only (job ∷ rest) h =
    external_step job (first_external rest) (infra_step job) (external_only rest) h

jobs_stopped :
    (jobs : List CiJob) {c : CiClassification}
    → classify_jobs jobs ≡ some c
    → c.kind ≡ retryable
    → (j : CiJob) → Memᴰ j jobs
    → was_stopped j ≡ true
unfolding classify_jobs
jobs_stopped [] h k j m = absurd (Memᴰ.not-nil m)
jobs_stopped (job ∷ rest) h k j m =
    elim (branch (all was_stopped (job ∷ rest)) _ (first_external (job ∷ rest)) h) [
      | inl stopped ↦ stopped_elim (job ∷ rest) stopped.0 j m
      | inr other ↦ absurd (external_not_retryable (sym (external_only (job ∷ rest) other.1) ∙ k))
    ]
  where
    external_not_retryable : ¬ (external ≡ retryable)
    external_not_retryable h = cc

not_both_texts :
    (s : Option String)
    → is_text s "failure" ≡ true
    → is_one_of ("cancelled" ∷ "timed_out" ∷ []) s ≡ false
not_both_texts none h = cc
not_both_texts (some s) h =
    subst (λ t. is_one_of ("cancelled" ∷ "timed_out" ∷ []) (some t) ≡ false)
      (sym ((eq_iff s "failure").0 h)) refl

-- Where the run itself was neither cancelled nor timed out nor stale, a red check is called retryable
-- only if none of its jobs ended in failure.
pub retryable_is_never_a_failure :
    (facts : CiRunFacts) {c : CiClassification} (j : CiJob)
    → classify_ci_failure facts ≡ some c
    → c.kind ≡ retryable
    → is_one_of ("cancelled" ∷ "timed_out" ∷ "stale" ∷ []) (some facts.run_conclusion) ≡ false
    → Memᴰ j facts.jobs
    → is_text j.conclusion "failure" ≡ false
unfolding classify_ci_failure
retryable_is_never_a_failure facts j h k running m =
    elim (branch
      (is_one_of ("startup_failure" ∷ "action_required" ∷ []) (some facts.run_conclusion)) _ _ h) [
        | inl setting ↦ absurd (setup_not_retryable (ap kind_of setting.1 ∙ k))
        | inr started ↦
            elim (branch
              (is_one_of ("cancelled" ∷ "timed_out" ∷ "stale" ∷ []) (some facts.run_conclusion)) _ _
              started.1) [
                | inl stopped ↦ absurd (true_not_false (sym stopped.0 ∙ running))
                | inr failed ↦ elim (Bool-cases (is_text j.conclusion "failure")) [
                  | inr other ↦ other
                  | inl failure ↦
                      let stopped =
                        jobs_stopped (failed_jobs facts.jobs) failed.1 k j
                          ((Memᴰ-filter _ j facts.jobs).1 (m, ground (arith, failure))) in
                      let unstopped = not_both_texts j.conclusion failure in
                      absurd (ground (arith, stopped, unstopped))
                ]
              ]
      ]
  where
    setup_not_retryable : ¬ (setup ≡ retryable)
    setup_not_retryable h = cc

    true_not_false : ¬ (true ≡ false)
    true_not_false h = cc
