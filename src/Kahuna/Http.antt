-- ===== src/Kahuna/Http.antt =====
-- `HTTPClient`, the implementation of `Client` over HTTP (internal/kahuna/client.go). The HTTP
-- library and the JSON decoder are parameters.
use kahuna_k8s_operator.Common.{
  ℕ, ◌==◌, String, ◌<>◌, ◌||◌, not, Option, none, some, keep, str_eq, if◌then◌else◌,
}
use kahuna_k8s_operator.Common.Decimal.{decimal}
use kahuna_k8s_operator.Kahuna.Errors.{
  Error, placement_unsupported, refused, other, wrapped, Result, ok, err,
}
use kahuna_k8s_operator.Kahuna.{
  Membership, is_witness, Health, LeaveResult, Placement, Metrics, BackupInfo,
}
use kahuna_k8s_operator.Kahuna.Client.{Client}

pub data Method : Type 0 where
  get post : Method

-- `body` is what `io.ReadAll` gives of the limited body, or its error.
pub record Response : Type 0 where
  pub status_code : ℕ
  pub outcome_header : String
  pub body : Result String

-- `json.Unmarshal` into a zero value: the document, or an error with what was filled in so far.
pub data Decoded (A : Type 0) : Type 0 where
  decoded : A → Decoded A
  failed : A → Error → Decoded A

pub record Problem : Type 0 where
  pub detail : String
  pub outcome : String

pub record Json (F : Type 0) : Type 0 where
  pub membership : String → Decoded Membership
  pub health : String → Decoded Health
  pub placement : String → Decoded Placement
  pub metrics : String → Decoded (Metrics F)
  pub leave : String → Decoded LeaveResult
  pub problem : String → Decoded Problem
  pub backup_info : String → Decoded BackupInfo
  pub parent_request : String → String

abbrev content : {A : Type 0} → Decoded A → A
content (decoded a) = a
content (failed a e) = a

-- A request's method, URL and body, and what comes of it.
abbrev pub Transport : Type 0
Transport = Method → String → Option String → Result Response

module _ (send : Transport) where
  -- After the body is read: the status code with the document.
  abbrev get_decoded : {A : Type 0} → String → ℕ → Decoded A → Result (ℕ × A)
  get_decoded url code (decoded a) = ok (code, a)
  get_decoded url code (failed a e) =
      if code == 200
      then err (wrapped ("decoding " <> (url <> (" (status " <> (decimal code <> ")")))) e)
      else ok (code, a)

  abbrev get_read : {A : Type 0} → (String → Decoded A) → String → Response → Result (ℕ × A)
  get_read decode url resp = elim resp.body [
    | err e ↦ err e
    | ok body ↦ get_decoded url resp.status_code (decode body)
  ]

  unfoldable pub http_get : {A : Type 0} → (String → Decoded A) → String → Result (ℕ × A)
  http_get decode url = elim (send get url none) [
    | err e ↦ err e
    | ok resp ↦ get_read decode url resp
  ]

  abbrev bad_status : {A : Type 0} → String → ℕ → Result A
  bad_status what code = err (other (what <> (" query returned HTTP " <> decimal code)))

  module _ {F : Type 0} (json : Json F) where
    -- The check of the status, and the roster without its witnesses.
    abbrev pub without_witnesses : Result (ℕ × Membership) → Result Membership
    without_witnesses (err e) = err e
    without_witnesses (ok (code, m)) =
        if code == 200
        then ok (record m { members = keep (λ mem. not (is_witness mem)) m.members })
        else bad_status "membership" code

    unfoldable pub http_membership : String → Result Membership
    unfolding http_get
    http_membership base_url =
        without_witnesses (http_get json.membership (base_url <> "/v1/cluster/membership"))

    unfoldable http_health : String → Result Health
    unfolding http_get
    http_health base_url = elim (http_get json.health (base_url <> "/v1/cluster/health")) [
      | err e ↦ err e
      | ok (code, h) ↦ if code == 200 || code == 503 then ok h else bad_status "health" code
    ]

    unfoldable http_placement : String → Result Placement
    unfolding http_get
    http_placement base_url = elim (http_get json.placement (base_url <> "/v1/cluster/placement")) [
      | err e ↦ err e
      | ok (code, p) ↦
          if code == 200
          then ok p
          else if code == 404
          then err placement_unsupported
          else bad_status "placement" code
    ]

    unfoldable http_metrics : String → Result (Metrics F)
    unfolding http_get
    http_metrics base_url = elim (http_get json.metrics (base_url <> "/v1/dashboard/metrics")) [
      | err e ↦ err e
      | ok (code, m) ↦ if code == 200 then ok m else bad_status "metrics" code
    ]

    abbrev backup_refused : Response → Problem → Result BackupInfo
    backup_refused resp problem = err (
        refused (record {
          status_code = resp.status_code;
          outcome = if str_eq resp.outcome_header "" then problem.outcome else resp.outcome_header;
          detail = problem.detail;
        }))

    abbrev backup_taken : Decoded BackupInfo → Result BackupInfo
    backup_taken (failed info e) = err (wrapped "decoding backup response" e)
    backup_taken (decoded info) =
        if str_eq info.backup_id ""
        then err (other "backup response carries no backup id")
        else ok info

    abbrev backup_answer : Response → Result BackupInfo
    backup_answer resp = elim resp.body [
      | err e ↦ err e
      | ok raw ↦
          if resp.status_code == 200
          then backup_taken (json.backup_info raw)
          else backup_refused resp (content (json.problem raw))
    ]

    unfoldable post_backup : String → Option String → Result BackupInfo
    post_backup url body = elim (send post url body) [
      | err e ↦ err e
      | ok resp ↦ backup_answer resp
    ]

    unfoldable http_take_coordinated_backup : String → Result BackupInfo
    unfolding post_backup
    http_take_coordinated_backup base_url = post_backup (base_url <> "/v1/backups/coordinated") none

    unfoldable http_take_incremental_backup : String → String → Result BackupInfo
    unfolding post_backup
    http_take_incremental_backup base_url parent =
        post_backup (base_url <> "/v1/backups/incremental") (some (json.parent_request parent))

    abbrev leave_decoded : ℕ → Decoded LeaveResult → Result LeaveResult
    leave_decoded code (failed out e) =
        err (wrapped ("decoding leave response (status " <> (decimal code <> ")")) e)
    leave_decoded code (decoded out) =
        if str_eq out.outcome ""
        then err (other ("leave returned HTTP " <> (decimal code <> " with no outcome")))
        else ok out

    abbrev leave_answer : Response → Result LeaveResult
    leave_answer resp = elim resp.body [
      | err e ↦ err e
      | ok body ↦ leave_decoded resp.status_code (json.leave body)
    ]

    unfoldable http_leave : String → Result LeaveResult
    http_leave base_url = elim (send post (base_url <> "/v1/cluster/leave") none) [
      | err e ↦ err e
      | ok resp ↦ leave_answer resp
    ]

    -- The methods as the interface's implementation.
    unfoldable http_client : Client F
    unfolding http_membership http_health http_leave http_placement http_metrics
        http_take_coordinated_backup http_take_incremental_backup
    http_client = record {
      membership = http_membership;
      health = http_health;
      leave = http_leave;
      placement = http_placement;
      metrics = http_metrics;
      take_coordinated_backup = http_take_coordinated_backup;
      take_incremental_backup = http_take_incremental_backup;
    }
