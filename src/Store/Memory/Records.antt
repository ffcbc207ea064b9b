-- ===== src/Store/Memory/Records.antt =====
-- The store as a map from collection and id to a record.
use greentic_sorx.Prelude.{refl, eq_iff, arith, [], some, none, ◌&&◌, ◌==◌, if◌then◌else◌, ◌≡◌}
use greentic_sorx.Store.Memory.{
  collection_at, String, write_at, remove_record, find_record, put_record,
}
use greentic_sorx.Store.Types.{EntityRecord, MemoryState}
use greentic_sorx.Prelude.Maps
use greentic_sorx.Prelude.Maps.{get-insert, get-remove}

get-empty : (j : String) → Maps.get {V = EntityRecord} j [] ≡ none
unfolding Maps.get
get-empty j = refl

pub find-write_at :
    (key id k i : String) (r : EntityRecord) (s : MemoryState)
    → find_record k i (write_at key id r s)
      ≡ (if key == k && id == i then some r else find_record k i s)
unfolding find_record write_at
find-write_at key id k i r s = ground (
  arith,
  eq_iff key k,
  get-insert key k (Maps.insert id r (collection_at key s)) s.collections,
  get-insert id i r (collection_at key s),
  get-empty i,
)

pub find-put_record :
    (key k i : String) (r : EntityRecord) (s : MemoryState)
    → find_record k i (put_record key r s)
      ≡ (if key == k && r.id == i then some r else find_record k i s)
unfolding put_record write_at
find-put_record key k i r s = find-write_at key r.id k i r s

pub find-remove :
    (key id k i : String) (s : MemoryState)
    → find_record k i (remove_record key id s)
      ≡ (if key == k && id == i then none else find_record k i s)
unfolding find_record remove_record
find-remove key id k i s = ground (
  arith,
  eq_iff key k,
  get-insert key k (Maps.remove id (collection_at key s)) s.collections,
  get-remove id i (collection_at key s),
)
