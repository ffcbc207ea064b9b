-- ===== src/Migration/Ledger/Local.antt =====
-- The backend of a single node: the store in memory and the ledger in a file.
use greentic_sorx.Store.Keys.{key_prefix}
use greentic_sorx.Migration.Ledger.{LedgerFile, FileLaws, load-record_applied}
use greentic_sorx.Error.{SorxError}
use greentic_sorx.Prelude.{eq_iff, arith, refl}
use greentic_sorx.Prelude.Actions.{Action}
use greentic_sorx.Store.Types.{MemoryState, Host}
use greentic_sorx.Migration.Backend.{Backend, LedgerLaws}
use greentic_sorx.Migration.Ledger
use greentic_sorx.Store.Memory.{query, update}

module _ (host : Host) {F : Type 0} (file : LedgerFile F) where
  pub record Node : Type 0 where
    pub store : MemoryState
    pub files : F

  on_store : {A : Type 0} → Action MemoryState SorxError A → Action Node SorxError A
  on_store m w = ((m w.store).0, record w { store = (m w.store).1 })

  on_files : {A : Type 0} → Action F SorxError A → Action Node SorxError A
  on_files m w = ((m w.files).0, record w { files = (m w.files).1 })

  unfoldable pub local : Backend Node
  unfolding on_store on_files
  local = record {
    query = λ op. on_store (query host op);
    update = λ op. on_store (update host op);
    load = λ n w. Ledger.load file n w.files;
    record_applied = λ n id. on_files (Ledger.record_applied file n id);
  }

  -- The file ledger beside the store in memory keeps what the trait asks for, where the file reads back
  -- what was written.
  pub local-LedgerLaws : FileLaws file → LedgerLaws local
  unfolding local
  local-LedgerLaws laws = record {
    load-query = λ op n w. refl;
    load-update = λ op n w. refl;
    load-record = λ n id w applied loaded done. ground (
      arith,
      eq_iff (key_prefix n) (key_prefix n),
      load-record_applied file laws n n id w.files applied loaded done,
    );
  }
