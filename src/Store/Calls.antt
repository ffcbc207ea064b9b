-- ===== src/Store/Calls.antt =====
-- The calls that write a store, in any order.
use greentic_sorx.Prelude.{List, [], ◌∷◌}
use greentic_sorx.Store.Types.{
  CreateOp, UpdateOp, DeleteOp, AppendEventOp, StoreEvidenceOp, MemoryState, Host,
}
use greentic_sorx.Store.Memory
use greentic_sorx.Store.Events.{append_event, store_evidence}

pub data Call : Type 0 where
  create : CreateOp → Call
  update : UpdateOp → Call
  delete : DeleteOp → Call
  append : AppendEventOp → Call
  attach : StoreEvidenceOp → Call

module _ (host : Host) where
  -- The state after a call, whether it succeeds or fails.
  unfoldable pub perform : Call → MemoryState → MemoryState
  perform (create op) s = (Memory.create host op s).1
  perform (update op) s = (Memory.update host op s).1
  perform (delete op) s = (Memory.delete host op s).1
  perform (append op) s = (append_event host op s).1
  perform (attach op) s = (store_evidence host op s).1

  abbrev pub perform_all : List Call → MemoryState → MemoryState
  perform_all [] s = s
  perform_all (c ∷ cs) s = perform_all cs (perform c s)
