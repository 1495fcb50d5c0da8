-- ===== src/Status.antt =====
-- The enumerations of src/app/models/enums.py and its `JobStatusTransition`.
pub mod Transitions
use salesforce_master_servic.Base.{
  ℕ, suc, ◌+◌, ◌≡◌, Bool, true, false, not, ◌||◌, List, [], ◌∷◌, ◌++◌, arith, if◌then◌else◌, Eq,
  nat_eq, string_eq, ◌==◌, eq_by_code, ◌∈?◌, keep, String,
}

pub data JobStatus : Type 0 where
  pending batch_requested batch_processing batch_ready downloading downloaded extracting : JobStatus
  extracted normalizing normalized uploading_to_minio uploaded_to_minio completed : JobStatus
  failed cancelled : JobStatus

-- The position in the enumeration.
abbrev pub ordinal : JobStatus → ℕ
ordinal pending = 0
ordinal batch_requested = 1
ordinal batch_processing = 2
ordinal batch_ready = 3
ordinal downloading = 4
ordinal downloaded = 5
ordinal extracting = 6
ordinal extracted = 7
ordinal normalizing = 8
ordinal normalized = 9
ordinal uploading_to_minio = 10
ordinal uploaded_to_minio = 11
ordinal completed = 12
ordinal failed = 13
ordinal cancelled = 14

pub ordinal_injective : (a b : JobStatus) → ordinal a ≡ ordinal b → a ≡ b
ordinal_injective a b h = ground arith

instance abbrev pub status_eq : Eq JobStatus
status_eq = eq_by_code ordinal ordinal_injective

-- `status.value`
unfoldable pub value : JobStatus → String
value pending = "PENDING"
value batch_requested = "BATCH_REQUESTED"
value batch_processing = "BATCH_PROCESSING"
value batch_ready = "BATCH_READY"
value downloading = "DOWNLOADING"
value downloaded = "DOWNLOADED"
value extracting = "EXTRACTING"
value extracted = "EXTRACTED"
value normalizing = "NORMALIZING"
value normalized = "NORMALIZED"
value uploading_to_minio = "UPLOADING_TO_MINIO"
value uploaded_to_minio = "UPLOADED_TO_MINIO"
value completed = "COMPLETED"
value failed = "FAILED"
value cancelled = "CANCELLED"

-- `TERMINAL_STATUSES`
abbrev pub terminal_statuses : List JobStatus
terminal_statuses = completed ∷ failed ∷ cancelled ∷ []

-- `IN_PROGRESS_STATUSES`
abbrev pub in_progress_statuses : List JobStatus
in_progress_statuses =
    batch_processing ∷ downloading ∷ extracting ∷ normalizing ∷ uploading_to_minio ∷ []

-- `JobStatusTransition.MAIN_CHAIN`
abbrev pub main_chain : List JobStatus
main_chain =
    pending ∷ batch_requested ∷ batch_processing ∷ batch_ready ∷ downloading ∷ downloaded
    ∷ extracting ∷ extracted ∷ normalizing ∷ normalized ∷ uploading_to_minio ∷ uploaded_to_minio
    ∷ completed ∷ []

-- `ACTIVE_STATUSES`
abbrev pub active_statuses : List JobStatus
active_statuses = keep (λ s. not (s ∈? terminal_statuses)) (main_chain ++ failed ∷ cancelled ∷ [])

-- `list.index`, where the item is in the list.
abbrev pub index_of : List JobStatus → JobStatus → ℕ
index_of [] s = 0
index_of (x ∷ xs) s = if x == s then 0 else suc (index_of xs s)

unfoldable pub is_terminal : JobStatus → Bool
is_terminal s = s ∈? terminal_statuses

-- `to_idx - from_idx == 1`, over Python's integers.
unfoldable pub is_valid_transition : JobStatus → JobStatus → Bool
is_valid_transition from to =
    if to ∈? (failed ∷ cancelled ∷ [])
    then true
    else if from == to
    then true
    else if not (from ∈? main_chain) || not (to ∈? main_chain)
    then false
    else index_of main_chain to == index_of main_chain from + 1
