-- ===== src/Job.antt =====
-- The row of src/app/models/job.py. A time is a number of microseconds.
use salesforce_master_servic.Base.{ℕ, Option, List, Dict, String}
use salesforce_master_servic.Status.{JobStatus}
use salesforce_master_servic.Json.{Json}

-- An item of `batch_job_ids`, as `submit_batch_jobs` writes it.
pub record BatchItem : Type 0 where
  pub object_name : String
  pub job_id : String

pub record Job : Type 0 where
  pub scan_id : String
  pub organization_id : Option String
  pub status : JobStatus
  pub request_config : Dict Json
  pub error_message : Option String
  pub error_detail : Option (Dict Json)
  pub cancelled_by : Option String
  pub cancel_reason : Option String
  pub batch_job_ids : Option (List BatchItem)
  pub batch_status : Option (Dict Json)
  pub batch_requested_at : Option ℕ
  pub downloaded_at : Option ℕ
  pub file_paths : Option (Dict String)
  pub file_sizes : Option (Dict ℕ)
  pub extracted_at : Option ℕ
  pub entity_record_counts : Option (Dict ℕ)
  pub normalized_at : Option ℕ
  pub normalization_stats : Option (Dict ℕ)
  pub minio_uploaded_at : Option ℕ
  pub minio_object_keys : Option (Dict String)
  pub last_heartbeat : Option ℕ
  pub created_at : ℕ
  pub updated_at : ℕ
  pub completed_at : Option ℕ
