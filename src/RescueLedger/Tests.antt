-- ===== src/RescueLedger/Tests.antt =====
-- Runs of the ledger over an object store that is a list, and the instance of its theorem.
use vault_drive.Base.{ℕ, String, none, List, [], ◌∷◌, ◌++◌, ok, throw, ◌≡◌, refl, text_eq}
use vault_drive.RescueLedger.{
  StagedTransfer, staged, ObjectStore, Access, unopened, request_fails, request_succeeds,
  other_than, Ledger, get_staged_transfers, save_staged_transfer,
}
use vault_drive.RescueLedger.Refines.{
  Command, save, remove, Documented, listed-saved, listed-other_than, map_run, is_unopened,
  is_success, nothing, answered, run, get_staged_transfers-map_run,
}

abbrev listing_store : ObjectStore
listing_store = record {
  Contents = List StagedTransfer;
  empty = [];
  put = λ item c. other_than item.id c ++ item ∷ [];
  get_all = λ c. c;
  delete = other_than;
  clear = λ c. [];
}

listing_store-Documented : Documented listing_store
listing_store-Documented = record {
  listed-empty = λ id. refl;
  listed-put = λ item c id. listed-saved item id c;
  listed-delete = λ key c id. listed-other_than key id c;
  listed-clear = λ c id. refl;
}

abbrev transfer : String → ℕ → StagedTransfer
transfer id size = record {
  id = id;
  filename = id;
  size = size;
  mime_type = "text/plain";
  folder_id = none;
  created_at = 0;
  status = staged;
}

abbrev calls_made : List (Access × Command)
calls_made =
    (unopened, save (transfer "a" 1))
    ∷ (request_succeeds, save (transfer "b" 2))
    ∷ (request_fails "QuotaExceededError", save (transfer "c" 3))
    ∷ (unopened, save (transfer "a" 4))
    ∷ (unopened, remove "b")
    ∷ []

abbrev start : Ledger listing_store
start = record { memory_fallback = []; stored = [] }

in_memory :
    get_staged_transfers listing_store unopened (run listing_store calls_made start)
    ≡ ok (transfer "a" 4 ∷ [])
unfolding run get_staged_transfers
in_memory = refl

in_database :
    get_staged_transfers listing_store request_succeeds (run listing_store calls_made start)
    ≡ ok (transfer "b" 2 ∷ [])
unfolding run get_staged_transfers
in_database = refl

-- A request that fails is no reason to keep the transfer in memory.
not_kept :
    save_staged_transfer listing_store (request_fails "QuotaExceededError") (transfer "c" 3) start
    ≡ (throw "QuotaExceededError", start)
unfolding save_staged_transfer
not_kept = refl

get_staged_transfers-map_run_example :
    (answered (get_staged_transfers listing_store unopened (run listing_store calls_made start))
      ≡ ok (map_run is_unopened calls_made nothing))
    × (answered
          (get_staged_transfers listing_store request_succeeds (run listing_store calls_made start))
        ≡ ok (map_run is_success calls_made nothing))
    × (answered (
          get_staged_transfers listing_store
            (request_fails "AbortError")
            (run listing_store calls_made start))
        ≡ throw "AbortError")
get_staged_transfers-map_run_example =
    get_staged_transfers-map_run listing_store listing_store-Documented calls_made "AbortError"
