-- ===== src/FolderUpload/Tests.antt =====
-- An upload into two folders, one of which exists, and the instance of the theorem.
use vault_drive.Base.{
  ◌≤◌, Option, none, some, List, [], ◌∷◌, ◌≡◌, refl, length, ◌++◌, is_empty, false, list_eq,
  number_eq,
}
use vault_drive.Base.JsMap.{get}
use vault_drive.Base.JsSet.{member}
use vault_drive.Base.JsText.{Text, units}
use vault_drive.FolderUpload.{
  FolderInfo, CreateAnswer, Request, Upload, going, dir_paths, lookup_key, ensure_folder_structure,
  get_folder_id_for_file,
}
use vault_drive.FolderUpload.Resolved.{Has}
use vault_drive.FolderUpload.Parents.{
  ensure_folder_structure-Has_dir, ensure_folder_structure-under,
}

abbrev files : List Text
files = units "a/b/x" ∷ units "a/y" ∷ []

abbrev existing : List FolderInfo
existing = record { id = units "1"; name = units "a"; parent_id = none } ∷ []

abbrev server : Request → List Request → CreateAnswer
server request before = CreateAnswer.created (units "2")

abbrev ready : Upload
ready = record {
  existing = (units "root/a", units "1") ∷ (units "1/b", units "2") ∷ [];
  path_to_id = (units "a", units "1") ∷ (units "a/b", units "2") ∷ [];
  requests = (units "b", some (units "1")) ∷ [];
}

ensured : ensure_folder_structure server none (some (units "token")) files existing ≡ going ready
unfolding ensure_folder_structure vault_drive.Base.Sorting.sort vault_drive.Base.JsText.split
    vault_drive.Base.JsSet.add vault_drive.Base.JsText.join vault_drive.Base.JsMap.get
    vault_drive.Base.JsMap.set
ensured = refl

placed : get_folder_id_for_file (units "a/b/x") ready.path_to_id none ≡ some (units "2")
unfolding get_folder_id_for_file vault_drive.Base.JsText.split vault_drive.Base.JsMap.get
    vault_drive.Base.JsText.join
placed = refl

ensure_folder_structure-Has_dir_example :
    Has ready.path_to_id (units "a/b") × (length ready.requests ≤ length (dir_paths files []))
unfolding member
ensure_folder_structure-Has_dir_example =
    ensure_folder_structure-Has_dir server none (some (units "token")) files existing ready
      (units "a/b/x") (units "a/b") (units "x") ensured refl refl

server_named :
    (request : Request) (before : List Request) (id : Text)
    → server request before ≡ CreateAnswer.created id
    → is_empty id ≡ false
server_named request before id h = let e : units "2" ≡ id = cc h in rw (← e) refl

ensure_folder_structure-under_example :
    (parent_id id : Text) × (get (units "a") ready.path_to_id ≡ some parent_id)
    × (get (units "a" ++ b'/' ∷ units "b") ready.path_to_id ≡ some id)
    × (is_empty id ≡ false)
    × (get (lookup_key (some parent_id) (units "b")) ready.existing ≡ some id)
unfolding member
ensure_folder_structure-under_example =
    ensure_folder_structure-under server none (some (units "token")) files existing ready
      (units "a/b/x") (units "a") (units "b") (units "x") server_named ensured refl refl refl refl
