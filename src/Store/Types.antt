-- ===== src/Store/Types.antt =====
-- crates/greentic-sorx-core/src/provider.rs: records and requests; providers/memory.rs: the state.
-- A field `data` of the source is `content` here. A moment is a number that the store only carries.
use greentic_sorx.Prelude.{ℕ, String, Option, List, []}
use greentic_sorx.Prelude.Maps.{Map}
use greentic_sorx.Json.{Value, Number}
use greentic_sorx.Error.{SorxResult}
use Prim.Native.Nat.{Ordering}

pub record ProviderNamespace : Type 0 where
  pub tenant_id : String
  pub sor_name : String

pub record EntityRecord : Type 0 where
  pub entity : String
  pub collection : String
  pub id : String
  pub content : Value
  pub version : ℕ

pub record UniqueIndex : Type 0 where
  pub id : String
  pub record_name : String
  pub collection : String
  pub fields : List String

pub data UniqueConflictBehavior : Type 0 where
  reject : UniqueConflictBehavior
  return_existing : (index : String) (fields : List String) → UniqueConflictBehavior

pub record CreateOp : Type 0 where
  pub namespace : ProviderNamespace
  pub entity : String
  pub collection : String
  pub input : Value
  pub idempotency_key : Option String
  pub unique_indexes : List UniqueIndex
  pub unique_behavior : UniqueConflictBehavior

pub record GetOp : Type 0 where
  pub namespace : ProviderNamespace
  pub entity : String
  pub collection : String
  pub id : String

pub record UpdateOp : Type 0 where
  pub namespace : ProviderNamespace
  pub entity : String
  pub collection : String
  pub id : String
  pub patch : Value
  pub unique_indexes : List UniqueIndex

pub data QueryOrderDirection : Type 0 where
  asc desc : QueryOrderDirection

pub record QueryOrder : Type 0 where
  pub order_field : String
  pub direction : QueryOrderDirection

pub record QueryOp : Type 0 where
  pub namespace : ProviderNamespace
  pub entity : String
  pub collection : String
  pub filter : Value
  pub order_by : List QueryOrder

pub record DeleteOp : Type 0 where
  pub namespace : ProviderNamespace
  pub entity : String
  pub collection : String
  pub id : String

pub record AppendEventOp : Type 0 where
  pub namespace : ProviderNamespace
  pub stream : String
  pub event_type : String
  pub capability : Option String
  pub producer : Option String
  pub subject_entity : String
  pub subject_id : String
  pub content : Value
  pub occurred_at : ℕ

pub record EventRecord : Type 0 where
  pub event_id : String
  pub stream : String
  pub event_type : String
  pub subject_entity : String
  pub subject_id : String
  pub content : Value
  pub envelope : Value
  pub sequence : ℕ
  pub occurred_at : ℕ

pub record TraverseOp : Type 0 where
  pub namespace : ProviderNamespace
  pub root_entity : String
  pub root_collection : String
  pub root_id : String
  pub max_depth : ℕ
  pub relationships : List String

pub record IndexQueryOp : Type 0 where
  pub namespace : ProviderNamespace
  pub entity : String
  pub collection : String
  pub index : String
  pub filter : Value

pub record ExternalRef : Type 0 where
  pub entity : String
  pub id : String
  pub system : String
  pub external_id : String

pub record ExternalRefsOp : Type 0 where
  pub namespace : ProviderNamespace
  pub entity : String
  pub collection : String
  pub id : String

pub record StoreEvidenceOp : Type 0 where
  pub namespace : ProviderNamespace
  pub entity : String
  pub collection : String
  pub id : String
  pub evidence : Value

pub record MemoryState : Type 0 where
  pub collections : Map (Map EntityRecord)
  pub idempotency : Map EntityRecord
  pub events : Map (List EventRecord)
  pub external_refs : Map (List ExternalRef)
  pub evidence : Map (List Value)

-- `MemoryState::default()`
abbrev pub empty_state : MemoryState
empty_state = record {
  collections = [];
  idempotency = [];
  events = [];
  external_refs = [];
  evidence = [];
}

-- What the store calls outside of the program: the write of the encoded state to a file, the debug
-- print of an index and its values, the order of two numbers as floats, and the text of a value.
pub record Host : Type 0 where
  pub persistence_path : Option String
  pub write_file : String → MemoryState → SorxResult (Unit {0})
  pub debug_values : List String → List Value → String
  pub number_cmp : Number → Number → Ordering
  pub to_json : Value → String
