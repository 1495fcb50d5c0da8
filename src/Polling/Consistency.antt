-- ===== src/Polling/Consistency.antt =====
-- What the steps of src/app/services/batch_polling_service.py keep.
use salesforce_master_servic.Base.{
  ℕ, refl, inl, inr, Bool, true, false, Option, none, some, List, [], ◌∷◌, Bool-cases, or_default,
  Dict, String,
}
use salesforce_master_servic.Json.{Json, Fields}
use salesforce_master_servic.Errors.{Result}
use salesforce_master_servic.Status.{
  batch_requested, batch_processing, batch_ready, downloading, downloaded,
}
use salesforce_master_servic.Job.{BatchItem, Job}
use salesforce_master_servic.Session.{Session, IsLawful}
use salesforce_master_servic.Flow.{World, Act}
use salesforce_master_servic.Flow.Keeps.{
  Keeps, pure-Keeps, raise-Keeps, bind-Keeps, then-Keeps, if-Keeps, IsSound, untouched-IsSound,
  status-IsSound, heartbeat-IsSound, update_batch_info-IsSound, update_download_info-IsSound,
}
use salesforce_master_servic.Polling.{
  BatchClient, asked, external_event, set_client, configure, row_of, create_all, submit,
  need_client, organization, submit_in, submit_batch_jobs, ask_all, as_values, conclude,
  check_found, check_and_update_status, download_all, download_found, download_in, download_results,
}

module _ (S : Session) (clock : ℕ → ℕ) (iso : ℕ → String) (L : IsLawful S) (client : BatchClient S)
    (formatted : Json → String) where
  abbrev Kept : {A : Type 0} → Act S A → Type 0
  Kept m = Keeps (IsSound S clock iso L) m

  asked-Kept : {A : Type 0} (f : World S → Result A) → Kept (asked S clock client formatted f)
  asked-Kept f = untouched-IsSound S clock iso L (asked S clock client formatted f) (λ w. refl)

  pub configure-Kept : (found : Dict Json) → Kept (configure S clock client formatted found)
  unfolding configure
  configure-Kept found =
      then-Keeps _ _ _ (asked-Kept (client.connect found))
        (untouched-IsSound S clock iso L (set_client S clock client formatted) (λ w. refl))

  create_all-Kept :
      (objects : List String) (so_far : List BatchItem × Dict Json)
      → Kept (create_all S clock client formatted objects so_far)
  unfolding create_all
  create_all-Kept [] so_far = pure-Keeps _ so_far
  create_all-Kept (o ∷ rest) so_far =
      bind-Keeps _ _ _ (asked-Kept (client.create_query_job o)) (λ made. create_all-Kept rest _)

  event-Kept :
      (event_type outcome i : String) (org : Option String)
      → Kept (external_event S clock client formatted event_type outcome i org)
  event-Kept event_type outcome i org =
      untouched-IsSound S clock iso L
        (external_event S clock client formatted event_type outcome i org) (λ w. refl)

  need-Kept : Kept (need_client S clock client formatted)
  unfolding Keeps
  need-Kept w h = elim (Bool-cases w.has_client) [ inl e ↦ rw e h | inr e ↦ rw e h ]

  submit-Kept :
      (i : String) (objects : List String) (org : Option String)
      → Kept (submit S clock client formatted i objects org)
  submit-Kept i objects org = bind-Keeps _ _ _ (create_all-Kept objects ([], [])) (λ made.
      then-Keeps _ _ _ (update_batch_info-IsSound S clock iso L i (some made.0) (some made.1)) (
        then-Keeps _ _ _ (status-IsSound S clock iso L i batch_processing) (
          then-Keeps _ _ _ (heartbeat-IsSound S clock iso L i)
            (event-Kept "batch_submission_success" "success" i org))))

  submit_in-Kept :
      (i : String) (objects : List String) → Kept (submit_in S clock client formatted i objects)
  unfolding Keeps
  submit_in-Kept i objects w h =
      submit-Kept i objects
        (organization S clock client formatted (row_of S clock client formatted i w)) w h

  pub submit_batch_jobs-Kept :
      (i : String) (objects : List String)
      → Kept (submit_batch_jobs S clock client formatted i objects)
  unfolding submit_batch_jobs
  submit_batch_jobs-Kept i [] = raise-Keeps _ _ _
  submit_batch_jobs-Kept i (o ∷ objects) = then-Keeps _ _ _ need-Kept (
      then-Keeps _ _ _ (status-IsSound S clock iso L i batch_requested)
        (submit_in-Kept i (o ∷ objects)))

  ask_all-Kept :
      (items : List BatchItem) (so_far : Dict Fields × List String)
      → Kept (ask_all S clock client formatted items so_far)
  unfolding ask_all
  ask_all-Kept [] so_far = pure-Keeps _ so_far
  ask_all-Kept (item ∷ rest) so_far =
      bind-Keeps _ _ _ (asked-Kept (client.get_job_status item.job_id))
        (λ status. ask_all-Kept rest _)

  conclude-Kept :
      (i : String) (job : Job) (statuses : Dict Fields) (problems : List String)
      → Kept (conclude S clock client formatted i job statuses problems)
  conclude-Kept i job statuses [] =
      if-Keeps _ _ _ _
        (then-Keeps _ _ _ (status-IsSound S clock iso L i batch_ready) (pure-Keeps _ true))
        (pure-Keeps _ false)
  conclude-Kept i job statuses (p ∷ problems) =
      then-Keeps _ _ _ (event-Kept "batch_failure" "failure" i job.organization_id)
        (raise-Keeps _ _ _)

  check_found-Kept :
      (i : String) (job : Option Job) (connected : Bool)
      → Kept (check_found S clock client formatted i job connected)
  check_found-Kept i none connected = raise-Keeps _ _ _
  check_found-Kept i (some job) connected = if-Keeps _ _ _ _ (raise-Keeps _ _ _) (
      bind-Keeps _ _ _ (ask_all-Kept (or_default job.batch_job_ids []) ([], [])) (λ found.
        then-Keeps _ _ _
          (update_batch_info-IsSound S clock iso L i none
            (some (as_values S clock client formatted found.0)))
          (then-Keeps _ _ _ (heartbeat-IsSound S clock iso L i)
            (conclude-Kept i job found.0 found.1))))

  pub check-Kept : (i : String) → Kept (check_and_update_status S clock client formatted i)
  unfolding check_and_update_status Keeps
  check-Kept i w h = check_found-Kept i (row_of S clock client formatted i w) w.has_client w h

  download_all-Kept :
      (i : String) (items : List BatchItem) (so_far : Dict String × Dict ℕ)
      → Kept (download_all S clock client formatted i items so_far)
  unfolding download_all
  download_all-Kept i [] so_far = pure-Keeps _ so_far
  download_all-Kept i (item ∷ rest) so_far =
      bind-Keeps _ _ _ (asked-Kept (client.download i item.job_id item.object_name))
        (λ info. then-Keeps _ _ _ (heartbeat-IsSound S clock iso L i) (download_all-Kept i rest _))

  download_found-Kept :
      (i : String) (job : Option Job) → Kept (download_found S clock client formatted i job)
  download_found-Kept i none = raise-Keeps _ _ _
  download_found-Kept i (some job) =
      bind-Keeps _ _ _ (download_all-Kept i (or_default job.batch_job_ids []) ([], [])) (λ found.
        then-Keeps _ _ _
          (update_download_info-IsSound S clock iso L i (some found.0) (some found.1))
          (then-Keeps _ _ _ (status-IsSound S clock iso L i downloaded) (pure-Keeps _ tt)))

  download_in-Kept : (i : String) → Kept (download_in S clock client formatted i)
  unfolding Keeps
  download_in-Kept i w h = download_found-Kept i (row_of S clock client formatted i w) w h

  pub download_results-Kept : (i : String) → Kept (download_results S clock client formatted i)
  unfolding download_results
  download_results-Kept i =
      then-Keeps _ _ _ need-Kept
        (then-Keeps _ _ _ (status-IsSound S clock iso L i downloading) (download_in-Kept i))
