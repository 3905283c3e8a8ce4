-- ===== src/Model/Uap.antt =====
-- internal/model/uap.py: the record that the ingest service sends, and its parser. `F` is the type
-- of floats. The parser takes `int(value)` of a JSON value as an argument: Python's conversion of a
-- number or a text, `none` where it raises.
pub mod Parse
use analysis_srv.Prelude.{
  ℕ, String, Bool, true, false, Option, none, some, List, [], ◌∷◌, ◌++◌, if◌then◌else◌,
}
use analysis_srv.Prelude.Int.{ℤ, pos}
use analysis_srv.Prelude.Float.{Float}
use analysis_srv.Prelude.Json.{
  Json, JsonList, JsonDict, null, bool, str, arr, obj, nil, cons, end, field, get, as_dict, truthy,
}
use analysis_srv.Prelude.Text.{non_empty, or_else, lower}
use analysis_srv.Prelude.Result.{Result, ok, err}

pub record UapSource : Type 0 where
  pub source_id : String
  pub source_type : String

pub record UapIngest : Type 0 where
  pub project_id : String
  pub source : UapSource
  pub received_at : String
  pub mapping_id : String

pub record UapAuthor : Type 0 where
  pub author_id : Option String
  pub display_name : Option String
  pub username : Option String
  pub avatar_url : Option String
  pub is_verified : Bool

pub record UapAttachment : Type 0 where
  pub type : String
  pub url : String
  pub content : String

pub record UapContent : Type 0 where
  pub doc_id : String
  pub doc_type : String
  pub text : String
  pub url : Option String
  pub language : Option String
  pub published_at : Option String
  pub author : UapAuthor
  pub parent_id : Option String
  pub attachments : List UapAttachment

pub record UapEngagement : Type 0 where
  pub like_count : ℤ
  pub comment_count : ℤ
  pub share_count : ℤ
  pub view_count : ℤ
  pub save_count : ℤ

pub record UapContext : Type 0 where
  pub keywords_matched : List String
  pub campaign_id : Option String

pub record UapRecord (F : Type 0) : Type 0 where
  pub event_id : String
  pub ingest : UapIngest
  pub content : UapContent
  pub engagement : UapEngagement
  pub context : UapContext
  pub domain_type_code : String
  pub raw : JsonDict F

pub data UapError : Type 0 where
  project_id_required uap_id_required : UapError

-- A value that the wire format says is a text, or is absent.
unfoldable pub text_or_none : {F : Type 0} → Json F → Option String
text_or_none (str s) = some s
text_or_none _ = none

unfoldable pub text_or : {F : Type 0} → String → Json F → String
text_or default (str s) = s
text_or default _ = default
