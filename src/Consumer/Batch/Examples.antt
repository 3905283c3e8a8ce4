-- ===== src/Consumer/Batch/Examples.antt =====
-- Two records of one project around a message that is no JSON.
use analysis_srv.Prelude.{
  String, ◌≡◌, refl, Option, none, some, List, [], ◌∷◌, ◌++◌, filter, length, All,
}
use analysis_srv.Prelude.Eq.{◌==◌, text_key, pair_key}
use analysis_srv.Prelude.Dict.{values, items_at}
use analysis_srv.Prelude.Dict.Laws.{total}
use analysis_srv.Prelude.Float.{scaled}
use analysis_srv.Prelude.Int.{ℤ}
use analysis_srv.Prelude.Json.{Json, int, str, obj, end, field}
use analysis_srv.Consumer.Batch.{
  Body, bad_json, envelope, group_key, parse_message, parse_batch, groups_of,
}
use analysis_srv.Consumer.Batch.Groups.{HasIds, groups_of_lem}

abbrev to_int : Json ℤ → Option ℤ
to_int (int n) = some n
to_int _ = none

abbrev message : String → Body ℤ
message uap_id = envelope (
    field "identity" (obj (field "project_id" (str "p") (field "uap_id" (str uap_id) end)))
      (field "domain_type_code" (str "d") end))

abbrev first : List (Body ℤ)
first = message "u" ∷ []

abbrev last : List (Body ℤ)
last = message "v" ∷ []

groups_of_lem_example :
    (groups_of to_int (first ++ bad_json ∷ last) ≡ groups_of to_int (first ++ last))
    × (items_at ("p", "d") (groups_of to_int (first ++ last))
        ≡ filter
            (λ rec. group_key rec == ("p", "d"))
            (parse_batch to_int first ++ parse_batch to_int last))
    × All (All HasIds) (values (groups_of to_int (first ++ last)))
    × (total (groups_of to_int (first ++ last))
        ≡ length (parse_batch to_int first ++ parse_batch to_int last))
unfolding parse_message
groups_of_lem_example = groups_of_lem to_int first last bad_json ("p", "d") refl
