-- ===== src/Manager/Examples.antt =====
-- A view of a record with a field to hide and one to redact, and a record to deny.
use greentic_sorx.Prelude.{[], ◌∷◌, String, false, not, none, some, ◌≡◌, ◌&&◌}
use greentic_sorx.Json
use greentic_sorx.Manager.Policy.{
  ManagerPolicyEffect, ManagerPolicyDecision, ManagerPolicySet, allowed, is_hidden,
}
use greentic_sorx.Manager.View.{
  ManagerNavItem, ManagerFieldView, ManagerRecordView, ManagerActionView, ManagerRelationshipView,
  ManagerViewModel,
}
use greentic_sorx.Manager.Filter.{filter_manager_view, is_visible, record_decision}
use greentic_sorx.Manager.Filter.Disclosed.{filter_manager_view-Discloses, Discloses}
use greentic_sorx.Manager.Filter.Visible.{is_visible-filter_manager_view}

abbrev with_effect : ManagerPolicyEffect → ManagerPolicyDecision
with_effect e = record allowed { effect = e }

abbrev text_field : String → ManagerFieldView
text_field name = record {
  name = name;
  label_key = name;
  label = name;
  json_type = some "string";
  rules = none;
  generated = false;
  relationship = none;
  required = false;
  read_only = false;
  redacted = false;
  content = some (Json.string "secret");
  hidden = false;
  display_order = none;
  display_group = none;
  policy = allowed;
}

abbrev listed : String → ManagerRecordView
listed name = record {
  record_name = name;
  collection = name;
  label_key = name;
  label = name;
  plural_label_key = name;
  plural_label = name;
  fields = text_field "name" ∷ text_field "email" ∷ text_field "note" ∷ [];
  create_field_names = [];
  endpoint_ids = [];
  policy = allowed;
}

abbrev item : String → ManagerNavItem
item name = record { record_name = name; label_key = name; label = name; collection = name }

abbrev evict : ManagerActionView
evict = record {
  action_id = "evict";
  endpoint_id = "tenant.evict";
  operation_id = "evict";
  record_name = some "Tenant";
  label_key = "evict";
  label = "Evict";
  risk = "high";
  approval_required = false;
  policy = allowed;
}

abbrev pays : ManagerRelationshipView
pays = record {
  id = "tenant_pays";
  from_record = "Tenant";
  to_record = "Payment";
  label_key = "pays";
  label = "pays";
  limited_context = false;
  policy = allowed;
}

abbrev tenancy : ManagerViewModel
tenancy = record {
  schema = "v1";
  tenant_id = "acme";
  sor_id = "tenancy";
  title = "Tenancy";
  description = "";
  locale = "en";
  navigation = item "Tenant" ∷ item "Payment" ∷ [];
  records = listed "Tenant" ∷ listed "Payment" ∷ [];
  relationships = pays ∷ [];
  actions = evict ∷ [];
  policies = [];
}

abbrev restricted : ManagerPolicySet
restricted = record {
  records = ("Payment", with_effect ManagerPolicyEffect.deny) ∷ [];
  fields =
      (
        "Tenant",
        ("email", with_effect ManagerPolicyEffect.redact)
            ∷ ("note", with_effect ManagerPolicyEffect.hide)
            ∷ [],
      )
      ∷ [];
  actions = ("tenant.evict", with_effect ManagerPolicyEffect.requires_approval) ∷ [];
  relationships = [];
}

filter_manager_view-Discloses_example :
    Discloses restricted tenancy (filter_manager_view tenancy restricted)
filter_manager_view-Discloses_example = filter_manager_view-Discloses tenancy restricted

is_visible-filter_manager_view_example :
    is_visible (filter_manager_view tenancy restricted).records "Payment"
    ≡ is_visible tenancy.records "Payment" && not (is_hidden (record_decision restricted "Payment"))
is_visible-filter_manager_view_example = is_visible-filter_manager_view tenancy restricted "Payment"
