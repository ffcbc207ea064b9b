-- ===== src/Store/Memory/Querying.antt =====
-- What a query finds.
use greentic_sorx.Prelude.{
  inr, inl, Bool-cases, retain-mem, mem-retain, arith, refl, ◌∷◌, [], none, List, ◌↔◌, some, true,
  All, ◌≡◌,
}
use greentic_sorx.Store.Memory.{object_clone, collection_at, Option, query, found_records}
use greentic_sorx.Store.Query.{record_lt, is_value, matches_filter}
use greentic_sorx.Json.Equality.{value_eq_iff, unsigned_zeros}
use greentic_sorx.Prelude.Sorting.{sort_by, mem-sort_by, sort_by-mem}
use greentic_sorx.Store.Keys.{collection_key}
use mathlib.Core.List.{Memᴰ}
use greentic_sorx.Prelude.Results.{ok}
use greentic_sorx.Store.Types.{EntityRecord, MemoryState, QueryOp, Host}
use greentic_sorx.Prelude.Actions.{◌>>=◌}
use greentic_sorx.Prelude.Maps.{Map, values}
use greentic_sorx.Json.{Value, get}

-- The content has a value at the key, which is the expected one but for the signs of floats that are zero.
pub HasValue : Value → Option Value → Type 0
HasValue expected o =
    (found : Value) × (o ≡ some found) × (unsigned_zeros found ≡ unsigned_zeros expected)

-- The content has every key of the filter, with the filter's value.
abbrev pub Satisfies : Value → Map Value → Type 0
Satisfies content filter = All (λ entry. HasValue entry.1 (get entry.0 content)) filter

is_value_iff : (v : Value) (o : Option Value) → (is_value v o ≡ true) ↔ HasValue v o
unfolding HasValue
is_value_iff v none = (λ h. cc, λ (w, is, same). cc is)
is_value_iff v (some w) =
    let equal = value_eq_iff w v in
    (
      λ h. (w, refl, equal.0 h),
      λ (u, is, same). equal.1 (let one : u ≡ w = cc is in rw one at same),
    )

matches_filter_iff :
    (content : Value) (filter : Map Value)
    → (matches_filter content filter ≡ true) ↔ Satisfies content filter
unfolding matches_filter
matches_filter_iff content [] = (λ h. tt, λ h. refl)
matches_filter_iff content ((key, v) ∷ filter) =
    let first = is_value_iff v (get key content) in
    let rest = matches_filter_iff content filter in
    (
      λ h. elim (Bool-cases (is_value v (get key content))) [
        | inl t ↦ (first.0 t, rest.0 (ground (arith, t, h)))
        | inr f ↦ absurd (ground (arith, f, h))
      ],
      λ h. let hit = first.1 h.0 in rw hit (rest.1 h.1),
    )

module _ (host : Host) (op : QueryOp) (s : MemoryState) where
  -- A query that succeeds returns a record exactly where it is of the collection and its content has, at
  -- every key of the filter, the filter's value, where the floats 0.0 and -0.0 count as one value.
  pub query_iff :
      {found : List EntityRecord}
      → (query host op s).0 ≡ ok found
      → (r : EntityRecord)
      → Memᴰ r found ↔ (
          Memᴰ r (values (collection_at (collection_key op.namespace op.collection) s))
          × Satisfies r.content (object_clone op.filter))
  unfolding query found_records ◌>>=◌
  query_iff {found} done r =
      let all_found : sort_by (record_lt host op.order_by) (found_records op s) ≡ found =
        ground (arith, done) in
      (
        λ m.
            let (there, kept) =
              mem-retain _ (values (collection_at (collection_key op.namespace op.collection) s))
                (mem-sort_by (record_lt host op.order_by) (found_records op s) (rw all_found m)) in
            (there, (matches_filter_iff r.content (object_clone op.filter)).0 kept),
        λ h. rw (← all_found) (
            sort_by-mem (record_lt host op.order_by) (found_records op s) (
              retain-mem _ (values (collection_at (collection_key op.namespace op.collection) s))
                h.0 ((matches_filter_iff r.content (object_clone op.filter)).1 h.1))),
      )
