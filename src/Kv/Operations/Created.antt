-- ===== src/Kv/Operations/Created.antt =====
-- A record that was created is there to read.
use greentic_sorx.Prelude.{
  [], ◌∷◌, ◌++◌, List, ℕ, String, false, Option, none, some, ◌≡◌, refl, ◌∙◌, arith, if◌then◌else◌,
}
use greentic_sorx.Prelude.Results.{ok}
use greentic_sorx.Prelude.Matches.{match_option, match_if}
use greentic_sorx.Prelude.Triples.{
  Triple, Triple-bind, Triple-lifted, Triple-pure, Triple-fail, Triple-any,
}
use greentic_sorx.Prelude.Actions.{Action, ◌>>=◌}
use greentic_sorx.Error.{SorxError}
use greentic_sorx.Json.{Value}
use greentic_sorx.Store.Types.{
  ProviderNamespace, EntityRecord, UniqueIndex, UniqueConflictBehavior, CreateOp, Host,
}
use greentic_sorx.Store.Unique.{index_values}
use greentic_sorx.Store.Memory.{returns_existing}
use greentic_sorx.Store.Keys.{clean_key, key_prefix}
use greentic_sorx.Kv.Keys.{Bytes, join_key, join_segments, to_bytes, entity_key, uniq_key}
use greentic_sorx.Kv.Records.Equality.{bytes_eq_self}
use greentic_sorx.Kv.Records.{lifted, KvTxn, Codec, bytes_eq, write_unique_keys}
use greentic_sorx.Kv.Operations.{
  create, get, create_fresh, write_new, new_record, replayed, set_idempotent,
}

-- What a backend promises of its point reads and writes, over the entries that it holds.
pub record KvLaws {W : Type 0} (txn : KvTxn W) : Type 0 where
  pub held : Bytes → W → Option Bytes
  pub get-held : (k : Bytes) (w : W) → txn.get k w ≡ (ok (held k w), w)
  pub held-set :
      (j k v : Bytes) (w : W)
      → (txn.set k v w).0 ≡ ok tt
      → held j (txn.set k v w).1 ≡ (if bytes_eq k j then some v else held j w)

pub bytes_eq_prefix : (p xs ys : Bytes) → bytes_eq (p ++ xs) (p ++ ys) ≡ bytes_eq xs ys
unfolding bytes_eq
bytes_eq_prefix [] xs ys = refl
bytes_eq_prefix (b ∷ p) xs ys = ground (arith, bytes_eq_prefix p xs ys)

first_apart :
    (xs ys : List String)
    → bytes_eq (join_segments ("uniq" ∷ xs)) (join_segments ("e" ∷ ys)) ≡ false
unfolding bytes_eq join_segments to_bytes
first_apart xs ys = refl

uniq_apart :
    (text : List Value → String) (n : ProviderNamespace) (c i id : String) (vs : List Value)
    → bytes_eq (uniq_key text n c i vs) (entity_key n c id) ≡ false
unfolding uniq_key entity_key join_key
uniq_apart text n c i id vs =
    bytes_eq_prefix (to_bytes (key_prefix n))
      (join_segments ("uniq" ∷ clean_key c ∷ clean_key i ∷ clean_key (text vs) ∷ []))
      (join_segments ("e" ∷ clean_key c ∷ clean_key id ∷ []))
    ∙ first_apart (clean_key c ∷ clean_key i ∷ clean_key (text vs) ∷ [])
        (clean_key c ∷ clean_key id ∷ [])

module _ {W : Type 0} (txn : KvTxn W) (codec : Codec) (host : Host) (laws : KvLaws txn) where
  -- The entry of a record holds its encoding.
  Held : ProviderNamespace → String → String → Bytes → W → Type 0
  Held n c id encoded w = laws.held (entity_key n c id) w ≡ some encoded

  pub kept_set :
      (j k v encoded : Bytes)
      → bytes_eq k j ≡ false
      → Triple
          (λ w. laws.held j w ≡ some encoded)
          (txn.set k v)
          (λ _ w. laws.held j w ≡ some encoded)
  kept_set j k v encoded apart = record {
    after = λ w a h done. laws.held-set j k v w done ∙ rw apart h;
  }

  Held-write_unique :
      (n : ProviderNamespace) (c id : String) (encoded : Bytes) (r : EntityRecord)
      (indexes : List UniqueIndex)
      → Triple
          (Held n c id encoded)
          (write_unique_keys txn codec host n c indexes r)
          (λ _. Held n c id encoded)
  unfolding write_unique_keys Held
  Held-write_unique n c id encoded r [] = Triple-pure tt (λ w h. h)
  Held-write_unique n c id encoded r (index ∷ rest) =
      match_option
        (λ (m : Action W SorxError (Unit {0})).
          Triple (Held n c id encoded) m (λ _. Held n c id encoded))
        (index_values r.content index.fields) _ _
        (λ vs _.
          Triple-bind (λ _. Held n c id encoded) _ _
            (kept_set (entity_key n c id) _ (to_bytes r.id) encoded
              (uniq_apart _ n c index.id id vs))
            (λ _. Held-write_unique n c id encoded r rest))
        (λ _. Held-write_unique n c id encoded r rest)

  -- What a creation leaves of the record that it returns.
  IsStored : CreateOp → EntityRecord → W → Type 0
  IsStored op r w =
      (encoded : Bytes) × (codec.encode_record r ≡ ok encoded)
      × Held op.namespace op.collection r.id encoded w

  set-Held :
      (op : CreateOp) (r : EntityRecord) (encoded : Bytes) {P : W → Type 0}
      → Triple P
          (txn.set (entity_key op.namespace op.collection r.id) encoded)
          (λ _. Held op.namespace op.collection r.id encoded)
  unfolding Held
  set-Held op r encoded =
      let key = entity_key op.namespace op.collection r.id in
      record {
        after = λ w a h done. laws.held-set key key encoded w done ∙ rw (bytes_eq_self key) refl;
      }

  Held-set_idempotent :
      (n : ProviderNamespace) (c id : String) (encoded : Bytes) (key : Option String)
      → key ≡ none
      → Triple
          (Held n c id encoded)
          (set_idempotent txn codec host n c key encoded)
          (λ _. Held n c id encoded)
  unfolding set_idempotent
  Held-set_idempotent n c id encoded key unkeyed = rw unkeyed (Triple-pure tt (λ w h. h))

  written :
      (op : CreateOp) (r : EntityRecord) {P : W → Type 0}
      → op.idempotency_key ≡ none
      → Triple P (write_new txn codec host op r) (IsStored op)
  unfolding write_new IsStored
  written op r unkeyed =
      let here = Held op.namespace op.collection r.id in
      Triple-lifted (codec.encode_record r) _ λ encoded is.
        Triple-bind (λ _. here encoded) _ _ (set-Held op r encoded)
          λ _.
            Triple-bind (λ _. here encoded) _ _
              (Held-set_idempotent op.namespace op.collection r.id encoded op.idempotency_key
                unkeyed)
              λ _.
                Triple-bind (λ _. here encoded) _ _
                  (Held-write_unique op.namespace op.collection r.id encoded r op.unique_indexes)
                  λ _. Triple-pure r (λ w h. (encoded, is, h))

  abbrev Any : W → Type 0
  Any w = Unit

  replayed-none :
      (op : CreateOp) (key : Option String)
      → key ≡ none
      → Triple Any
          (replayed txn codec host op.namespace op.collection key)
          (λ known _. known ≡ none)
  unfolding replayed
  replayed-none op key unkeyed = rw unkeyed (Triple-pure none (λ w h. refl))

  module _ (rounds : ℕ) (going_on : SorxError) (op : CreateOp) (unkeyed : op.idempotency_key ≡ none)
      (refuses : op.unique_behavior ≡ UniqueConflictBehavior.reject) where
    fresh_IsStored :
        {P : W → Type 0} → Triple P (create_fresh txn codec host rounds going_on op) (IsStored op)
    unfolding create_fresh returns_existing
    fresh_IsStored =
        Triple-bind (λ _. Any) _ _ (Triple-any _ (λ _ _. tt))
          λ id.
            Triple-bind (λ _. Any) _ _ (Triple-any _ (λ _ _. tt))
              λ conflict.
                match_option (λ (m : Action W SorxError EntityRecord). Triple Any m (IsStored op))
                  conflict _ _
                  (λ c _.
                    match_if (λ (m : Action W SorxError EntityRecord). Triple Any m (IsStored op))
                      (returns_existing op.unique_behavior c.index) _ _
                      (λ t. absurd (ground (arith, rw refuses at t))) (λ _. Triple-fail _))
                  (λ _. written op (new_record txn codec host op id) unkeyed)

    create_IsStored : Triple Any (create txn codec host rounds going_on op) (IsStored op)
    unfolding create
    create_IsStored =
        Triple-bind (λ _. Any) _ _ (Triple-any _ (λ _ _. tt))
          λ _.
            Triple-bind (λ known _. known ≡ none) _ _ (replayed-none op op.idempotency_key unkeyed)
              λ known.
                match_option
                  (λ (m : Action W SorxError EntityRecord).
                    Triple (λ _. known ≡ none) m (IsStored op))
                  known _ _
                  (λ r is. record { after = λ w a h done. absurd (ground (arith, h, is)) })
                  (λ _. fresh_IsStored)

  get-Held :
      (n : ProviderNamespace) (e c id : String) (bytes : Bytes) (r : EntityRecord) (w : W)
      → Held n c id bytes w
      → codec.decode_record bytes ≡ ok r
      → (get txn codec host (record { namespace = n; entity = e; collection = c; id = id }) w).0
        ≡ ok (some r)
  unfolding get lifted ◌>>=◌ Held
  get-Held n e c id bytes r w h decoded = rw (laws.get-held (entity_key n c id) w, h, decoded) refl

  -- A creation without an idempotency key, which refuses a conflict, returns a record that a get of its id
  -- then finds, over a transaction that keeps the laws of its reads and writes, where the codec decodes
  -- what it encodes of that record.
  pub get-create :
      (rounds : ℕ) (going_on : SorxError) (op : CreateOp)
      → op.idempotency_key ≡ none
      → op.unique_behavior ≡ UniqueConflictBehavior.reject
      → (w : W) (r : EntityRecord) → (create txn codec host rounds going_on op w).0 ≡ ok r
      → ((bytes : Bytes) → codec.encode_record r ≡ ok bytes → codec.decode_record bytes ≡ ok r)
      → (get txn codec host
          (record {
            namespace = op.namespace;
            entity = op.entity;
            collection = op.collection;
            id = r.id;
          })
          (create txn codec host rounds going_on op w).1).0
        ≡ ok (some r)
  unfolding IsStored
  get-create rounds going_on op unkeyed refuses w r done decodes =
      let (bytes, is, h) = (create_IsStored rounds going_on op unkeyed refuses).after w r tt done in
      get-Held op.namespace op.entity op.collection r.id bytes r
        (create txn codec host rounds going_on op w).1 h (decodes bytes is)
