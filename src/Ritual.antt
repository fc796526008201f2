-- ===== src/Ritual.antt =====
-- server/controllers/ritual_controller.py with daos/ritual_dao.py and daos/ritual_occurrence_dao.py, and
-- the credits of rituals in services/merits/credits.py.
pub mod Daily
pub mod Lifecycle
use debt_collector.Common.{
  ℕ, ◌+◌, Bool, true, false, not, ◌&&◌, Option, none, some, List, String, ◌==◌, ◌is◌, if◌then◌else◌,
  is_none,
}
use Prim.Native.String.{len}
use debt_collector.Common.Int.{ℤ}
use debt_collector.Common.Table.{find_row, put_row, remove_row, remove_where}
use debt_collector.Model.{
  User, Ritual, RitualFrequency, RitualOccurrence, OccurrenceStatus, occurrence_enum,
  MeritSourceKind, Db, Action, Done, AppError, or_raise, raise_if, gets, modify, pure, fresh_id,
  now_utc, ◌>>=◌, ◌>>◌,
}
use debt_collector.Session.{resolve_goddess_id}
use debt_collector.Merit.{insert_idempotent}
use debt_collector.Payment.Declare.{patched}
use debt_collector.Task.{require_sub_under_goddess}

unfoldable pub save_ritual : Ritual → Action Done
save_ritual ritual = modify (λ db. record db { rituals = put_row ritual.id ritual db.rituals })

unfoldable pub get_ritual : ℕ → Action Ritual
get_ritual ritual_id = do
  found ← gets (λ db. find_row ritual_id db.rituals)
  or_raise found AppError.not_found

unfoldable pub save_occurrence : RitualOccurrence → Action Done
save_occurrence occ = modify (λ db. record db { occurrences = put_row occ.id occ db.occurrences })

unfoldable pub get_occurrence : ℕ → Action RitualOccurrence
get_occurrence occurrence_id = do
  found ← gets (λ db. find_row occurrence_id db.occurrences)
  or_raise found AppError.not_found

-- `resolve_goddess_id` and `_require_owned_ritual`, which her operations on a ritual begin with.
unfoldable pub require_owned_ritual : User → ℕ → Action Ritual
require_owned_ritual goddess_user ritual_id = do
  goddess_id ← resolve_goddess_id goddess_user.id
  ritual ← get_ritual ritual_id
  raise_if (not (ritual.goddess_id == goddess_id)) AppError.forbidden
  pure ritual

-- `resolve_goddess_id` and `_require_owned_occurrence`, and the status that a review asks for.
unfoldable pub require_owned_occurrence : User → ℕ → Action RitualOccurrence
require_owned_occurrence goddess_user occurrence_id = do
  goddess_id ← resolve_goddess_id goddess_user.id
  occ ← get_occurrence occurrence_id
  raise_if (not (occ.goddess_id == goddess_id)) AppError.forbidden
  raise_if (not (occ.status is OccurrenceStatus.submitted)) AppError.conflict
  pure occ

-- `_require_owned_occurrence_for_sub`, and the status that a sub's operations ask for.
unfoldable pub require_own_occurrence : User → ℕ → Action RitualOccurrence
require_own_occurrence sub_user occurrence_id = do
  occ ← get_occurrence occurrence_id
  raise_if (not (occ.sub_id == sub_user.id)) AppError.forbidden
  raise_if (not (occ.status is OccurrenceStatus.pending)) AppError.conflict
  pure occ

pub record RitualCreateIn : Type 0 where
  pub title : String
  pub description : Option String
  pub frequency : RitualFrequency
  pub custom_days_bitmask : Option ℕ
  pub deadline_time : Option ℕ
  pub points_on_complete : ℤ
  pub points_on_miss : ℤ
  pub requires_proof : Bool
  pub paused : Bool

unfoldable pub create_ritual : User → ℕ → RitualCreateIn → Action Ritual
create_ritual goddess_user sub_id payload = do
  goddess_id ← resolve_goddess_id goddess_user.id
  require_sub_under_goddess goddess_id sub_id
  now ← now_utc
  ritual_id ← fresh_id
  let ritual : Ritual = record {
    id = ritual_id;
    sub_id = sub_id;
    goddess_id = goddess_id;
    title = payload.title;
    description = payload.description;
    frequency = payload.frequency;
    custom_days_bitmask = payload.custom_days_bitmask;
    deadline_time = payload.deadline_time;
    points_on_complete = payload.points_on_complete;
    points_on_miss = payload.points_on_miss;
    requires_proof = payload.requires_proof;
    paused = payload.paused;
    created_at = now;
    updated_at = now;
  }
  save_ritual ritual
  pure ritual

-- The fields that the request sets. (A null for a column without nulls fails in the database.)
pub record RitualUpdateIn : Type 0 where
  pub title : Option String
  pub description : Option (Option String)
  pub frequency : Option RitualFrequency
  pub custom_days_bitmask : Option (Option ℕ)
  pub deadline_time : Option (Option ℕ)
  pub points_on_complete : Option ℤ
  pub points_on_miss : Option ℤ
  pub requires_proof : Option Bool
  pub paused : Option Bool

abbrev pub is_empty_ritual_update : RitualUpdateIn → Bool
is_empty_ritual_update patch =
    is_none patch.title
    && is_none patch.description
    && is_none patch.frequency
    && is_none patch.custom_days_bitmask
    && is_none patch.deadline_time
    && is_none patch.points_on_complete
    && is_none patch.points_on_miss
    && is_none patch.requires_proof
    && is_none patch.paused

abbrev pub updated_ritual : RitualUpdateIn → Ritual → ℕ → Ritual
updated_ritual patch ritual now = record ritual {
  title = patched patch.title ritual.title;
  description = patched patch.description ritual.description;
  frequency = patched patch.frequency ritual.frequency;
  custom_days_bitmask = patched patch.custom_days_bitmask ritual.custom_days_bitmask;
  deadline_time = patched patch.deadline_time ritual.deadline_time;
  points_on_complete = patched patch.points_on_complete ritual.points_on_complete;
  points_on_miss = patched patch.points_on_miss ritual.points_on_miss;
  requires_proof = patched patch.requires_proof ritual.requires_proof;
  paused = patched patch.paused ritual.paused;
  updated_at = now;
}

-- A request that sets nothing is answered without a write.
unfoldable pub save_ritual_update : Bool → Ritual → Ritual → Action Ritual
save_ritual_update true ritual saved = pure ritual
save_ritual_update false ritual saved = do save_ritual saved; pure saved

unfoldable pub update_ritual : User → ℕ → RitualUpdateIn → Action Ritual
update_ritual goddess_user ritual_id patch = do
  ritual ← require_owned_ritual goddess_user ritual_id
  now ← now_utc
  save_ritual_update (is_empty_ritual_update patch) ritual (updated_ritual patch ritual now)

-- The foreign key of an occurrence cascades.
unfoldable pub delete_ritual : User → ℕ → Action Done
delete_ritual goddess_user ritual_id = do
  ritual ← require_owned_ritual goddess_user ritual_id
  modify λ db. record db {
    rituals = remove_row ritual_id db.rituals;
    occurrences = remove_where (λ o. o.ritual_id == ritual_id) db.occurrences;
  }

unfoldable pub record_ritual_complete : RitualOccurrence → Ritual → Action Bool
record_ritual_complete occ ritual = do
  now ← now_utc
  insert_idempotent (record {
    sub_id = occ.sub_id;
    goddess_id = occ.goddess_id;
    source_kind = MeritSourceKind.ritual_complete;
    source_id = some occ.id;
    delta = ritual.points_on_complete;
    created_at = now;
  })

unfoldable pub record_ritual_miss : RitualOccurrence → Ritual → Action Bool
record_ritual_miss occ ritual = do
  now ← now_utc
  insert_idempotent (record {
    sub_id = occ.sub_id;
    goddess_id = occ.goddess_id;
    source_kind = MeritSourceKind.ritual_miss;
    source_id = some occ.id;
    delta = ritual.points_on_miss;
    created_at = now;
  })

-- `mark_reviewed`
unfoldable pub mark_reviewed : RitualOccurrence → OccurrenceStatus → ℕ → Action RitualOccurrence
mark_reviewed occ status reviewer_id = do
  now ← now_utc
  let saved = record occ { status = status; reviewed_at = some now; reviewed_by = some reviewer_id }
  save_occurrence saved
  pure saved

unfoldable pub approve_occurrence : User → ℕ → Action RitualOccurrence
approve_occurrence goddess_user occurrence_id = do
  occ ← require_owned_occurrence goddess_user occurrence_id
  updated ← mark_reviewed occ OccurrenceStatus.completed goddess_user.id
  ritual ← get_ritual occ.ritual_id
  record_ritual_complete updated ritual
  pure updated

unfoldable pub reject_occurrence : User → ℕ → Action RitualOccurrence
reject_occurrence goddess_user occurrence_id = do
  occ ← require_owned_occurrence goddess_user occurrence_id
  updated ← mark_reviewed occ OccurrenceStatus.rejected goddess_user.id
  ritual ← get_ritual occ.ritual_id
  record_ritual_miss updated ritual
  pure updated

-- `if note is not None: occ.note = note`
abbrev pub noted : Option String → Option String → Option String
noted none old = old
noted (some new) old = some new

-- `not body.evidence_r2_key`: no key, or an empty one.
abbrev pub lacks_evidence : Option String → Bool
lacks_evidence none = true
lacks_evidence (some key) = len key == 0

unfoldable pub complete_occurrence :
    User → ℕ → Option String → Option String → Action RitualOccurrence
complete_occurrence sub_user occurrence_id remark evidence = do
  occ ← require_own_occurrence sub_user occurrence_id
  ritual ← get_ritual occ.ritual_id
  raise_if (ritual.requires_proof && lacks_evidence evidence) AppError.bad_request
  now ← now_utc
  let saved = record occ {
    status = OccurrenceStatus.completed;
    completed_at = some now;
    note = noted remark occ.note;
    evidence_r2_key = noted evidence occ.evidence_r2_key;
  }
  save_occurrence saved
  record_ritual_complete saved ritual
  pure saved

unfoldable pub submit_occurrence :
    User → ℕ → Option String → Option String → Action RitualOccurrence
submit_occurrence sub_user occurrence_id remark evidence = do
  occ ← require_own_occurrence sub_user occurrence_id
  ritual ← get_ritual occ.ritual_id
  raise_if (ritual.requires_proof && lacks_evidence evidence) AppError.bad_request
  let saved = record occ {
    status = OccurrenceStatus.submitted;
    note = noted remark occ.note;
    evidence_r2_key = noted evidence occ.evidence_r2_key;
  }
  save_occurrence saved
  pure saved
