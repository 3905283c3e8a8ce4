-- ===== src/Consumer/Batch.antt =====
-- The first half of `_handle_messages_batch`: the messages of a batch are parsed, bad ones skipped, and
-- grouped by project and domain. A message's body is what `json.loads` gave for it.
pub mod Groups
mod Examples
use analysis_srv.Prelude.{String, Option, none, some, List, [], ◌∷◌, if◌then◌else◌}
use analysis_srv.Prelude.Eq.{text_key, pair_key}
use analysis_srv.Prelude.Dict.{Dict, group_by}
use analysis_srv.Prelude.Float.{Float}
use analysis_srv.Prelude.Int.{ℤ}
use analysis_srv.Prelude.Json.{Json, JsonDict, find}
use analysis_srv.Prelude.Result.{Result, ok, err}
use analysis_srv.Prelude.Text.{non_empty}
use analysis_srv.Model.Uap.{UapRecord, UapError}
use analysis_srv.Model.Uap.Parse.{from_ingest_record}

-- A body that is no JSON, and an envelope.
pub data Body (F : Type 0) : Type 0 where
  bad_json : Body F
  envelope : JsonDict F → Body F

-- The key of a group: project and domain.
abbrev pub group_key : {F : Type 0} → UapRecord F → String × String
group_key rec = (rec.ingest.project_id, rec.domain_type_code)

abbrev pub accepted : {F : Type 0} → Result UapError (UapRecord F) → Option (UapRecord F)
accepted (err e) = none
accepted (ok rec) = if non_empty rec.ingest.project_id then some rec else none

module _ {F : Type 0} ⦃fl : Float F⦄ (to_int : Json F → Option ℤ) where
  -- `_parse_message` and the guards after it: `none` where the message is skipped.
  unfoldable pub parse_message : Body F → Option (UapRecord F)
  parse_message bad_json = none
  parse_message (envelope raw) = elim (find "identity" raw) [
    | none ↦ none
    | some identity ↦ accepted (from_ingest_record to_int raw)
  ]

  unfoldable pub parse_batch : List (Body F) → List (UapRecord F)
  parse_batch [] = []
  parse_batch (message ∷ messages) = elim (parse_message message) [
    | none ↦ parse_batch messages
    | some rec ↦ rec ∷ parse_batch messages
  ]

  unfoldable pub groups_of : List (Body F) → Dict (String × String) (List (UapRecord F))
  groups_of messages = group_by group_key (parse_batch messages)
