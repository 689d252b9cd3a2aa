-- ===== src/RescueLedger.antt =====
-- utils/rescue-ledger.ts: transfers that wait in IndexedDB, or in memory where it does not open.
-- IndexedDB's object store is a parameter, and what a call meets there is an argument.
pub mod Refines
mod Tests
use vault_drive.Base.{
  ℕ, Bool, true, false, not, String, Option, none, some, List, [], ◌∷◌, ◌++◌, filter, Outcome, ok,
  throw, ◌==◌, text_eq,
}

pub data TransferStatus : Type 0 where
  staged uploading paused : TransferStatus

pub record StagedTransfer : Type 0 where
  pub id : String
  pub filename : String
  pub size : ℕ
  pub mime_type : String
  pub folder_id : Option String
  pub created_at : ℕ
  pub status : TransferStatus

-- An object store whose key is `id`.
pub record ObjectStore : Type 1 where
  pub Contents : Type 0
  pub empty : Contents
  pub put : StagedTransfer → Contents → Contents
  pub get_all : Contents → List StagedTransfer
  pub delete : String → Contents → Contents
  pub clear : Contents → Contents

-- What a call meets: a database that does not open, a request that fails, or one that succeeds.
pub data Access : Type 0 where
  unopened : Access
  request_fails : String → Access
  request_succeeds : Access

abbrev pub other_than : String → List StagedTransfer → List StagedTransfer
other_than id = filter (λ t. not (t.id == id))

module _ (s : ObjectStore) where
  pub record Ledger : Type 0 where
    pub memory_fallback : List StagedTransfer
    pub stored : s.Contents

  unfoldable pub save_staged_transfer :
      Access → StagedTransfer → Ledger → Outcome (Unit {0}) × Ledger
  save_staged_transfer unopened item l =
      let kept = other_than item.id l.memory_fallback in
      (ok tt, record l { memory_fallback = kept ++ item ∷ [] })
  save_staged_transfer (request_fails error) item l = (throw error, l)
  save_staged_transfer request_succeeds item l = (ok tt, record l { stored = s.put item l.stored })

  unfoldable pub get_staged_transfers : Access → Ledger → Outcome (List StagedTransfer)
  get_staged_transfers unopened l = ok l.memory_fallback
  get_staged_transfers (request_fails error) l = throw error
  get_staged_transfers request_succeeds l = ok (s.get_all l.stored)

  unfoldable pub remove_staged_transfer : Access → String → Ledger → Outcome (Unit {0}) × Ledger
  remove_staged_transfer unopened id l =
      (ok tt, record l { memory_fallback = other_than id l.memory_fallback })
  remove_staged_transfer (request_fails error) id l = (throw error, l)
  remove_staged_transfer request_succeeds id l = (ok tt, record l { stored = s.delete id l.stored })

  unfoldable pub clear_staged_transfers : Access → Ledger → Outcome (Unit {0}) × Ledger
  clear_staged_transfers unopened l = (ok tt, record l { memory_fallback = [] })
  clear_staged_transfers (request_fails error) l = (throw error, l)
  clear_staged_transfers request_succeeds l = (ok tt, record l { stored = s.clear l.stored })
