-- ===== src/OptimisticVault.antt =====
-- hooks/use-optimistic-vault.ts: files are renamed or removed on the screen before the server has
-- answered, and a ledger keeps what to put back. A file's other fields are one value.
mod Tests
use vault_drive.Base.{
  Bool, true, false, not, String, Option, none, some, List, [], ◌∷◌, ◌++◌, ◌≡◌, refl, sym, ap, ap₂,
  ◌∙◌, map, filter, find, filter-append, append-nil, All, inl, inr, arith, if◌then◌else◌, is_empty,
  ◌==◌, text_eq, ==_refl, Bool-cases, Option-cases,
}

pub record OptimisticFile : Type 0 where
  pub id : String
  pub filename : String
  pub other_fields : String

pub data RollbackAction : Type 0 where
  rename delete update : RollbackAction

pub record RollbackEntry : Type 0 where
  pub file_id : String
  pub previous_state : OptimisticFile
  pub action : RollbackAction

pub record OptimisticVault : Type 0 where
  pub files : List OptimisticFile
  pub rollback_ledger : List RollbackEntry

unfoldable pub sync_files : List OptimisticFile → OptimisticVault → OptimisticVault
sync_files server_files v = record v { files = server_files }

abbrev pub replace_file :
    String → (OptimisticFile → OptimisticFile) → List OptimisticFile → List OptimisticFile
replace_file file_id change = map (λ f. if f.id == file_id then change f else f)

unfoldable pub optimistic_rename : String → String → OptimisticVault → OptimisticVault
optimistic_rename file_id new_filename v = elim (find (λ f. f.id == file_id) v.files) [
  | none ↦ v
  | some target ↦ record {
    files = replace_file file_id (λ f. record f { filename = new_filename }) v.files;
    rollback_ledger =
        v.rollback_ledger
        ++ record { file_id = file_id; previous_state = target; action = rename } ∷ [];
  }
]

unfoldable pub optimistic_delete : String → OptimisticVault → OptimisticVault
optimistic_delete file_id v = elim (find (λ f. f.id == file_id) v.files) [
  | none ↦ v
  | some target ↦ record {
    files = filter (λ f. not (f.id == file_id)) v.files;
    rollback_ledger =
        v.rollback_ledger
        ++ record { file_id = file_id; previous_state = target; action = delete } ∷ [];
  }
]

abbrev pub put_back : String → RollbackEntry → List OptimisticFile → List OptimisticFile
put_back file_id entry files = elim entry.action [
  | delete ↦ files ++ entry.previous_state ∷ []
  | rename ↦ replace_file file_id (λ f. entry.previous_state) files
  | update ↦ replace_file file_id (λ f. entry.previous_state) files
]

abbrev pub without_entry : String → List RollbackEntry → List RollbackEntry
without_entry file_id = filter (λ e. not (e.file_id == file_id))

unfoldable pub rollback : String → OptimisticVault → OptimisticVault
rollback file_id v = elim (find (λ e. e.file_id == file_id) v.rollback_ledger) [
  | none ↦ v
  | some entry ↦ record {
    files = put_back file_id entry v.files;
    rollback_ledger = without_entry file_id v.rollback_ledger;
  }
]

unfoldable pub commit : String → OptimisticVault → OptimisticVault
commit file_id v = record v { rollback_ledger = without_entry file_id v.rollback_ledger }

unfoldable pub has_pending_rollback : OptimisticVault → Bool
has_pending_rollback v = not (is_empty v.rollback_ledger)

-- No two files share the identifier: all that have it are this one.
abbrev pub OnlyOne : String → OptimisticFile → List OptimisticFile → Type 0
OnlyOne file_id target = All (λ f. (f.id == file_id) ≡ true → f ≡ target)

replace_file-back :
    (file_id new_filename : String) (target : OptimisticFile) (files : List OptimisticFile)
    → OnlyOne file_id target files
    → replace_file file_id
        (λ f. target)
        (replace_file file_id (λ f. record f { filename = new_filename }) files)
      ≡ files
replace_file-back file_id new_filename target [] h = refl
replace_file-back file_id new_filename target (f ∷ files) (h, hs) =
    ground (arith, h, replace_file-back file_id new_filename target files hs)

find-entry :
    (file_id : String) (entry : RollbackEntry) (ledger : List RollbackEntry)
    → find (λ e. e.file_id == file_id) ledger ≡ none
    → (entry.file_id == file_id) ≡ true
    → (find (λ e. e.file_id == file_id) (ledger ++ entry ∷ []) ≡ some entry)
      × (without_entry file_id (ledger ++ entry ∷ []) ≡ ledger)
find-entry file_id entry [] none_there here = (ground (arith, here), ground (arith, here))
find-entry file_id entry (e ∷ ledger) none_there here =
    let (found, dropped) = find-entry file_id entry ledger (ground (arith, none_there)) here in
    (ground (arith, none_there, found), ground (arith, none_there, dropped))

-- Taking back a rename gives the files and the ledger as they were, when no two files share the
-- identifier and nothing was pending for it.
pub rollback-optimistic_rename :
    (file_id new_filename : String) (target : OptimisticFile) (v : OptimisticVault)
    → find (λ f. f.id == file_id) v.files ≡ some target
    → OnlyOne file_id target v.files
    → find (λ e. e.file_id == file_id) v.rollback_ledger ≡ none
    → rollback file_id (optimistic_rename file_id new_filename v) ≡ v
unfolding rollback optimistic_rename
rollback-optimistic_rename file_id new_filename target v found only nothing_pending =
    let entry : RollbackEntry = record {
      file_id = file_id;
      previous_state = target;
      action = rename;
    } in
    let (entry_found, dropped) =
      find-entry file_id entry v.rollback_ledger nothing_pending (==_refl file_id) in
    let renamed : OptimisticVault = record {
      files = replace_file file_id (λ f. record f { filename = new_filename }) v.files;
      rollback_ledger = v.rollback_ledger ++ entry ∷ [];
    } in
    let to_renamed : optimistic_rename file_id new_filename v ≡ renamed =
      rw (optimistic_rename, found) refl in
    let back : rollback file_id renamed ≡ record {
      files = put_back file_id entry renamed.files;
      rollback_ledger = without_entry file_id renamed.rollback_ledger;
    } =
      rw (rollback, entry_found) refl in
    ap (rollback file_id) to_renamed
    ∙ back
    ∙ ap₂ {C = OptimisticVault} (λ a b. record { files = a; rollback_ledger = b })
        (replace_file-back file_id new_filename target v.files only) dropped
