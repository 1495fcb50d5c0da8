-- ===== src/JobService/Detection.antt =====
-- Which jobs `detect_crashed_jobs` of src/app/services/job_service.py fails.
use salesforce_master_servic.Job.{Job}
use salesforce_master_servic.Session.{Session}
