-- ===== src/Status/Transitions.antt =====
-- The transitions that `JobStatusTransition` allows, as the diagram of the job's lifecycle, and what
-- a sequence of requested transitions can reach.
use salesforce_master_servic.Base.{◌≡◌, refl, ◌↔◌, true, arith}
use salesforce_master_servic.Status.{
  JobStatus, is_valid_transition, pending, batch_requested, batch_processing, batch_ready,
  downloading, downloaded, extracting, extracted, normalizing, normalized, uploading_to_minio,
  uploaded_to_minio, completed, failed, cancelled,
}

-- The main chain's edges, in the words of the README's lifecycle.
pub data Advance : JobStatus → JobStatus → Type 0 where
  request : Advance pending batch_requested
  process : Advance batch_requested batch_processing
  ready : Advance batch_processing batch_ready
  download : Advance batch_ready downloading
  finish_download : Advance downloading downloaded
  extract : Advance downloaded extracting
  finish_extract : Advance extracting extracted
  normalize : Advance extracted normalizing
  finish_normalize : Advance normalizing normalized
  upload : Advance normalized uploading_to_minio
  finish_upload : Advance uploading_to_minio uploaded_to_minio
  complete : Advance uploaded_to_minio completed

pub data Edge (s : JobStatus) (t : JobStatus) : Type 0 where
  fail : t ≡ failed → Edge s t
  cancel : t ≡ cancelled → Edge s t
  stay : s ≡ t → Edge s t
  advance : Advance s t → Edge s t

pub ruleset advances = (
  request, process, ready, download, finish_download, extract, finish_extract, normalize,
  finish_normalize, upload, finish_upload, complete,
)

Edge-of_valid : (s t : JobStatus) → is_valid_transition s t ≡ true → Edge s t
unfolding is_valid_transition
Edge-of_valid s t h = grind (arith, fail, cancel, stay, advance, advances)

valid-of_Advance : {s t : JobStatus} → Advance s t → is_valid_transition s t ≡ true
unfolding is_valid_transition
valid-of_Advance request = refl
valid-of_Advance process = refl
valid-of_Advance ready = refl
valid-of_Advance download = refl
valid-of_Advance finish_download = refl
valid-of_Advance extract = refl
valid-of_Advance finish_extract = refl
valid-of_Advance normalize = refl
valid-of_Advance finish_normalize = refl
valid-of_Advance upload = refl
valid-of_Advance finish_upload = refl
valid-of_Advance complete = refl

valid-of_Edge : (s t : JobStatus) → Edge s t → is_valid_transition s t ≡ true
unfolding is_valid_transition
valid-of_Edge s t (fail e) = rw e
valid-of_Edge s t (cancel e) = rw e
valid-of_Edge s t (stay e) = ground arith
valid-of_Edge s t (advance a) = valid-of_Advance a

-- A transition is valid exactly when it is an edge of the lifecycle: to FAILED or CANCELLED from any
-- status, from a status to itself, or one step along the main chain.
pub is_valid_transition-iff-Edge : (s t : JobStatus) → (is_valid_transition s t ≡ true) ↔ Edge s t
is_valid_transition-iff-Edge s t = (Edge-of_valid s t, valid-of_Edge s t)
