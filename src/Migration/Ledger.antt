-- ===== src/Migration/Ledger.antt =====
-- crates/greentic-sorx-core/src/migration/ledger.rs: `LocalMigrationLedger`, a file of one applied set
-- for each namespace, beside the store of `MemoryStoreProvider`.
pub mod Local
use greentic_sorx.Prelude.{
  ap, ◌∙◌, ◌≢◌, eq_iff, sym, inl, arith, inr, false, [], ◌==◌, if◌then◌else◌, true, String, Bool,
  ◌≡◌,
}
use greentic_sorx.Prelude.Results.{err, Result-cases, map_ok, ok}
use greentic_sorx.Json.{unwrap_or}
use greentic_sorx.Error.{SorxError, SorxResult}
use greentic_sorx.Migration.Plan.{AppliedMigrations}
use greentic_sorx.Prelude.Actions.{Action, reads, ◌>>=◌}
use greentic_sorx.Prelude.Maps.{add, Map, get-insert, get-remove}
use greentic_sorx.Prelude.Maps
use greentic_sorx.Store.Types.{ProviderNamespace}
use greentic_sorx.Store.Keys.{key_prefix}

-- `NamespacedLedger`
abbrev pub NamespacedLedger : Type 0
NamespacedLedger = Map AppliedMigrations

-- The file system under the ledger's path, with the JSON that goes through it: whether the file is
-- there, what it decodes to, and the write of an encoded ledger.
pub record LedgerFile (F : Type 0) : Type 0 where
  pub exists : F → Bool
  pub read : F → SorxResult NamespacedLedger
  pub write : NamespacedLedger → Action F SorxError (Unit {0})

-- What is written without an error is there and is read back.
pub record FileLaws {F : Type 0} (file : LedgerFile F) : Type 0 where
  pub exists-write :
      (l : NamespacedLedger) (f : F)
      → (file.write l f).0 ≡ ok tt
      → file.exists (file.write l f).1 ≡ true
  pub read-write :
      (l : NamespacedLedger) (f : F)
      → (file.write l f).0 ≡ ok tt
      → file.read (file.write l f).1 ≡ ok l

module _ {F : Type 0} (file : LedgerFile F) where
  unfoldable pub load_namespaced : F → SorxResult NamespacedLedger
  load_namespaced f = elim (file.exists f) [ true ↦ file.read f | false ↦ ok [] ]

  -- `remove(&prefix).unwrap_or_default()` on the map that was loaded for this call
  unfoldable pub load : ProviderNamespace → F → SorxResult AppliedMigrations
  unfolding load_namespaced
  load n f = map_ok (λ l. unwrap_or [] (Maps.get (key_prefix n) l)) (load_namespaced f)

  -- `entry(prefix).or_default().record(id)`
  unfoldable pub record_in : ProviderNamespace → String → NamespacedLedger → NamespacedLedger
  record_in n id l =
      Maps.insert (key_prefix n) (add id (unwrap_or [] (Maps.get (key_prefix n) l))) l

  unfoldable pub record_applied : ProviderNamespace → String → Action F SorxError (Unit {0})
  unfolding record_in
  record_applied n id = do l ← reads load_namespaced; file.write (record_in n id l)

  record_applied-loaded :
      (n : ProviderNamespace) (id : String) (f : F) {l : NamespacedLedger}
      → load_namespaced f ≡ ok l
      → record_applied n id f ≡ file.write (record_in n id l) f
  unfolding record_applied ◌>>=◌
  record_applied-loaded n id f h = rw h

  load-loaded :
      (n : ProviderNamespace) (f : F) {l : NamespacedLedger}
      → load_namespaced f ≡ ok l
      → load n f ≡ ok (unwrap_or [] (Maps.get (key_prefix n) l))
  unfolding load
  load-loaded n f h = rw h

  load_failed :
      (n : ProviderNamespace) (f : F) {e : SorxError} {old : AppliedMigrations}
      → load_namespaced f ≡ err e
      → load n f ≢ ok old
  unfolding load
  load_failed n f h loaded = ground (arith, h, loaded)

  set_of-record_in :
      (n m : ProviderNamespace) (id : String) (l : NamespacedLedger)
      → unwrap_or [] (Maps.get (key_prefix m) (record_in n id l)) ≡ (
          if key_prefix n == key_prefix m
          then add id (unwrap_or [] (Maps.get (key_prefix m) l))
          else unwrap_or [] (Maps.get (key_prefix m) l))
  unfolding record_in
  set_of-record_in n m id l = ground (
    arith,
    eq_iff (key_prefix n) (key_prefix m),
    get-insert (key_prefix n) (key_prefix m) (add id (unwrap_or [] (Maps.get (key_prefix n) l))) l,
  )

  module _ (laws : FileLaws file) where
    load_namespaced-write :
        (l : NamespacedLedger) (f : F)
        → (file.write l f).0 ≡ ok tt
        → load_namespaced (file.write l f).1 ≡ ok l
    unfolding load_namespaced
    load_namespaced-write l f done =
        rw (laws.exists-write l f done, load_namespaced) (laws.read-write l f done)

    -- Over a file that reads back what was written: where a namespace's set loads and an id is then
    -- recorded without an error, the set loads again, with the id where the id was recorded for the same
    -- key prefix, and as it was where it was recorded for another.
    pub load-record_applied :
        (n m : ProviderNamespace) (id : String) (f : F) (old : AppliedMigrations)
        → load m f ≡ ok old
        → (record_applied n id f).0 ≡ ok tt
        → load m (record_applied n id f).1
          ≡ ok (if key_prefix n == key_prefix m then add id old else old)
    load-record_applied n m id f old loaded done = elim (Result-cases (load_namespaced f)) [
      | inr (e, h) ↦ absurd (load_failed m f h loaded)
      | inl (l, h) ↦
          let step = record_applied-loaded n id f h in
          let before : ok (unwrap_or [] (Maps.get (key_prefix m) l)) ≡ ok old =
            sym (load-loaded m f h) ∙ loaded in
          let written =
            load_namespaced-write (record_in n id l) f (sym (ap (λ q. q.0) step) ∙ done) in
          rw step (
            load-loaded m (file.write (record_in n id l) f).1 written
            ∙ ground (arith, set_of-record_in n m id l, before))
    ]
