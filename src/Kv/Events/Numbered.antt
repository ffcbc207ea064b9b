-- ===== src/Kv/Events/Numbered.antt =====
-- The numbers of the events of a stream.
use Prim.Native.Nat.{◌^◌}
use greentic_sorx.Prelude.{
  [], ◌∷◌, List, ℕ, ◌<◌, String, false, some, ◌≡◌, refl, sym, ap, ◌∙◌, arith,
}
use greentic_sorx.Prelude.Results.{ok}
use greentic_sorx.Prelude.Matches.{match_option, match_if}
use greentic_sorx.Prelude.Triples.{
  Triple, Triple-bind, Triple-lifted, Triple-pure, Triple-any, Triple-given, Triple-weaken,
}
use greentic_sorx.Prelude.Actions.{Action}
use greentic_sorx.Error.{SorxError}
use greentic_sorx.Store.Types.{ProviderNamespace, EventRecord, AppendEventOp, Host}
use greentic_sorx.Store.Keys.{clean_key, key_prefix}
use greentic_sorx.Kv.Counter.{decode-to_le_bytes}
use greentic_sorx.Kv.Keys.{Bytes, join_key, join_segments, to_bytes, schema_key, evseq_key}
use greentic_sorx.Kv.Records.Equality.{bytes_eq_self}
use greentic_sorx.Kv.Records.{lifted, KvTxn, Codec, bytes_eq, write_schema_version, to_le_bytes}
use greentic_sorx.Kv.Operations.Created.{KvLaws, kept_set, bytes_eq_prefix}
use greentic_sorx.Kv.Events.{EventCodec, append_event, next_sequence, new_event, last_sequence}

marker_first :
    (xs : List String)
    → bytes_eq (join_segments ("meta" ∷ "schema_version" ∷ [])) (join_segments ("evseq" ∷ xs))
      ≡ false
unfolding bytes_eq join_segments to_bytes
marker_first xs = refl

marker_apart :
    (n : ProviderNamespace) (stream : String) → bytes_eq (schema_key n) (evseq_key n stream) ≡ false
unfolding schema_key evseq_key join_key
marker_apart n stream =
    bytes_eq_prefix (to_bytes (key_prefix n)) (join_segments ("meta" ∷ "schema_version" ∷ []))
      (join_segments ("evseq" ∷ clean_key stream ∷ []))
    ∙ marker_first (clean_key stream ∷ [])

next_below : (last : ℕ) → next_sequence last < 2 ^ 64
unfolding next_sequence
next_below last = omega arith

module _ {W : Type 0} (txn : KvTxn W) (codec : Codec) (events : EventCodec) (host : Host)
    (laws : KvLaws txn) where
  abbrev Any : W → Type 0
  Any w = Unit

  abbrev Counted : AppendEventOp → ℕ → W → Type 0
  Counted op number w = laws.held (evseq_key op.namespace op.stream) w ≡ some (to_le_bytes number)

  get_found :
      (k : Bytes) {P : W → Type 0} → Triple P (txn.get k) (λ found w. P w × (found ≡ laws.held k w))
  get_found k = record {
    after = λ w found h done. let e = laws.get-held k w in rw e (h, ground (arith, rw e at done));
  }

  kept_counter :
      (n : ProviderNamespace) (stream : String) (held : Bytes)
      → Triple
          (λ w. laws.held (evseq_key n stream) w ≡ some held)
          (write_schema_version txn codec host n)
          (λ _ w. laws.held (evseq_key n stream) w ≡ some held)
  unfolding write_schema_version
  kept_counter n stream held =
      let here : W → Type 0 = λ w. laws.held (evseq_key n stream) w ≡ some held in
      let marked =
        kept_set txn codec host laws (evseq_key n stream) (schema_key n) (49 ∷ []) held
          (marker_apart n stream) in
      Triple-bind (λ _. here) _ _ (Triple-weaken _ (get_found (schema_key n)) (λ found w h. h.0))
        λ found.
          match_option (λ (m : Action W SorxError (Unit {0})). Triple here m (λ _. here)) found _ _
            (λ bytes _.
              match_if (λ (m : Action W SorxError (Unit {0})). Triple here m (λ _. here))
                (bytes_eq bytes (49 ∷ [])) _ _ (λ _. Triple-pure tt (λ w h. h)) (λ _. marked))
            (λ _. marked)

  -- The counter after an append holds the number of its event.
  appended :
      (op : AppendEventOp) {P : W → Type 0}
      → Triple P
          (append_event txn codec events host op)
          (λ r w. Counted op r.sequence w × (r.sequence < 2 ^ 64))
  unfolding append_event new_event lifted
  appended op =
      let key = evseq_key op.namespace op.stream in
      Triple-bind (λ _. Any) _ _ (Triple-any _ (λ _ _. tt))
        λ _.
          Triple-bind (λ _. Any) _ _ (Triple-any _ (λ _ _. tt))
            λ found. Triple-lifted (last_sequence txn codec events host found) _ λ last _.
              Triple-lifted (events.encode_event (new_event op (next_sequence last))) _ λ encoded _.
                Triple-bind (λ _. Any) _ _ (Triple-any _ (λ _ _. tt))
                  λ _.
                    Triple-bind (λ _. Counted op (next_sequence last)) _ _
                      (record {
                        after = λ w a h done.
                            laws.held-set key key _ w done ∙ rw (bytes_eq_self key) refl;
                      })
                      λ _. Triple-pure _ (λ w h. (h, next_below last))

  -- Where the counter is at a number, the next append takes the number after it.
  appended_after :
      (op : AppendEventOp) (number : ℕ)
      → number < 2 ^ 64
      → Triple
          (Counted op number)
          (append_event txn codec events host op)
          (λ r _. r.sequence ≡ next_sequence number)
  unfolding append_event new_event lifted last_sequence
  appended_after op number below =
      let key = evseq_key op.namespace op.stream in
      Triple-bind (λ _. Counted op number) _ _
        (kept_counter op.namespace op.stream (to_le_bytes number))
        λ _.
          Triple-bind (λ found _. found ≡ some (to_le_bytes number)) _ _
            (Triple-weaken _ (get_found key) (λ found w h. h.1 ∙ h.0))
            λ found. Triple-given _ λ is.
              Triple-lifted (last_sequence txn codec events host found) _ λ last e.
                let same : number ≡ last =
                  ground (arith, decode-to_le_bytes number below, rw is at e) in
                Triple-lifted (events.encode_event (new_event op (next_sequence last))) _
                  λ encoded _.
                    Triple-bind (λ _. Any) _ _ (Triple-any _ (λ _ _. tt))
                      λ _.
                        Triple-bind (λ _. Any) _ _ (Triple-any _ (λ _ _. tt))
                          λ _. Triple-pure _ (λ w h. ap next_sequence (sym same))

  -- Of two appends to a stream that succeed one after the other, over a transaction that keeps the laws of
  -- its reads and writes, the second takes the number after that of the first, modulo 2 ^ 64.
  pub append_event_next :
      (first second : AppendEventOp)
      → first.namespace ≡ second.namespace
      → first.stream ≡ second.stream
      → (w : W) (r s : EventRecord) → (append_event txn codec events host first w).0 ≡ ok r
      → (append_event txn codec events host second (append_event txn codec events host first w).1).0
        ≡ ok s
      → s.sequence ≡ next_sequence r.sequence
  append_event_next first second n stream w r s one two =
      let (counted, below) = (appended first {P = λ _. Unit}).after w r tt one in
      (appended_after second r.sequence below).after (append_event txn codec events host first w).1
        s (rw (← n, ← stream) counted) two
