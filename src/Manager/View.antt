-- ===== src/Manager/View.antt =====
-- crates/greentic-sorx-core/src/manager/view_model.rs: the types of a view. The fields `record` and
-- `value` of the source are `record_name` and `content` here.
use greentic_sorx.Prelude.{String, Bool, Option, List, ℕ}
use greentic_sorx.Json.{Value}
use greentic_sorx.Manager.Policy.{ManagerPolicyDecision}

pub record ManagerNavItem : Type 0 where
  pub record_name : String
  pub label_key : String
  pub label : String
  pub collection : String

pub record ManagerFieldRelationshipView : Type 0 where
  pub relationship_id : String
  pub to_record : String
  pub label : String

pub record ManagerFieldView : Type 0 where
  pub name : String
  pub label_key : String
  pub label : String
  pub json_type : Option String
  pub rules : Option Value
  pub generated : Bool
  pub relationship : Option ManagerFieldRelationshipView
  pub required : Bool
  pub read_only : Bool
  pub redacted : Bool
  pub content : Option Value
  pub hidden : Bool
  pub display_order : Option ℕ
  pub display_group : Option String
  pub policy : ManagerPolicyDecision

pub record ManagerRecordView : Type 0 where
  pub record_name : String
  pub collection : String
  pub label_key : String
  pub label : String
  pub plural_label_key : String
  pub plural_label : String
  pub fields : List ManagerFieldView
  pub create_field_names : List String
  pub endpoint_ids : List String
  pub policy : ManagerPolicyDecision

pub record ManagerRelationshipView : Type 0 where
  pub id : String
  pub from_record : String
  pub to_record : String
  pub label_key : String
  pub label : String
  pub limited_context : Bool
  pub policy : ManagerPolicyDecision

pub record ManagerActionView : Type 0 where
  pub action_id : String
  pub endpoint_id : String
  pub operation_id : String
  pub record_name : Option String
  pub label_key : String
  pub label : String
  pub risk : String
  pub approval_required : Bool
  pub policy : ManagerPolicyDecision

pub record ManagerPolicyHint : Type 0 where
  pub scope : String
  pub target : String
  pub decision : ManagerPolicyDecision

pub record ManagerViewModel : Type 0 where
  pub schema : String
  pub tenant_id : String
  pub sor_id : String
  pub title : String
  pub description : String
  pub locale : String
  pub navigation : List ManagerNavItem
  pub records : List ManagerRecordView
  pub relationships : List ManagerRelationshipView
  pub actions : List ManagerActionView
  pub policies : List ManagerPolicyHint
