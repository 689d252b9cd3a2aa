-- ===== src/FolderUpload.antt =====
-- utils/folder-upload.ts: the folders that an upload needs are found or created, parents first. The
-- server is a parameter, whose answers may depend on the folders that were created before.
pub mod Paths
pub mod Resolved
pub mod Placed
pub mod Parents
mod Tests
use vault_drive.Base.{
  ℕ, ◌-◌, Bool, ◌||◌, Option, none, some, List, [], ◌∷◌, ◌++◌, map, ltb, leb, if◌then◌else◌, get_or,
  length, get_last?, take, is_empty, ◌==◌, number_eq, list_eq,
}
use vault_drive.Base.JsMap.{JsMap, get, set}
use vault_drive.Base.JsSet.{add}
use vault_drive.Base.JsText.{Text, split, join, units}
use vault_drive.Base.Sorting.{sort}

pub record FolderInfo : Type 0 where
  pub id : Text
  pub name : Text
  pub parent_id : Option Text

-- The answer to `POST /folders`: the new folder's id, a refusal with the error of its body, or none.
pub data CreateAnswer : Type 0 where
  created : Text → CreateAnswer
  refused : Option Text → CreateAnswer
  fails : CreateAnswer

-- A request for a folder: its name and its parent.
abbrev pub Request : Type 0
Request = Text × Option Text

pub data Problem : Type 0 where
  not_authenticated unreachable : Problem
  server_error failed_to_create : Text → Problem

-- `parts.slice(0, i).join("/")` for `i` from 1 to the last but one.
unfoldable pub ancestor_paths : List Text → List Text → List Text
ancestor_paths before [] = []
ancestor_paths before (p ∷ []) = []
ancestor_paths before (p ∷ q ∷ parts) =
    join b'/' (before ++ p ∷ []) ∷ ancestor_paths (before ++ p ∷ []) (q ∷ parts)

unfoldable pub add_dirs : List Text → List Text → List Text
add_dirs [] dirs = dirs
add_dirs (p ∷ paths) dirs = add_dirs paths (add p dirs)

-- The unique directories of the files' relative paths.
unfoldable pub dir_paths : List Text → List Text → List Text
unfolding ancestor_paths add_dirs
dir_paths [] dirs = dirs
dir_paths (rel ∷ files) dirs =
    dir_paths files
      (if is_empty rel then dirs else add_dirs (ancestor_paths [] (split b'/' rel)) dirs)

abbrev pub depth : Text → ℕ
depth path = length (split b'/' path)

unfoldable pub sorted_paths : List Text → List Text
sorted_paths = sort (λ a b. ltb (depth a) (depth b))

-- `${parentId ?? "root"}/${name}`
abbrev pub lookup_key : Option Text → Text → Text
lookup_key parent name = get_or parent (units "root") ++ b'/' ∷ name

unfoldable pub existing_by_key : List FolderInfo → JsMap Text Text → JsMap Text Text
existing_by_key [] m = m
existing_by_key (f ∷ folders) m =
    existing_by_key folders (set (lookup_key f.parent_id f.name) f.id m)

abbrev pub folder_name : Text → Text
folder_name path = get_or (get_last? (split b'/' path)) []

abbrev pub all_but_last : List Text → List Text
all_but_last parts = take (length parts - 1) parts

-- The parent's path, where an empty one counts as none.
abbrev pub parent_path : Text → Text
parent_path path =
    if ltb 1 (length (split b'/' path)) then join b'/' (all_but_last (split b'/' path)) else []

pub record Upload : Type 0 where
  pub existing : JsMap Text Text
  pub path_to_id : JsMap Text Text
  pub requests : List Request

pub data Progress : Type 0 where
  going : Upload → Progress
  stopped : Problem → List Request → Progress

abbrev pub found_id : Option Text → Option Text
found_id none = none
found_id (some id) = if is_empty id then none else some id

module _ (server : Request → List Request → CreateAnswer) (root_folder_id : Option Text) where
  unfoldable pub parent_id_of : Upload → Text → Option Text
  parent_id_of u path =
      if is_empty (parent_path path) then root_folder_id else get (parent_path path) u.path_to_id

  -- `parentId || undefined` of the request's body.
  unfoldable pub create_folder : Upload → Text → Option Text → Progress
  create_folder u path parent =
      let request : Request = (folder_name path, found_id parent) in
      let requests = u.requests ++ request ∷ [] in
      elim (server request u.requests) [
        | created id ↦ going (record {
          existing = set (lookup_key parent (folder_name path)) id u.existing;
          path_to_id = set path id u.path_to_id;
          requests = requests;
        })
        | refused none ↦ stopped (failed_to_create (folder_name path)) requests
        | refused (some e) ↦
            stopped (if is_empty e then failed_to_create (folder_name path) else server_error e)
              requests
        | fails ↦ stopped unreachable requests
      ]

  -- One directory: found among the existing folders, or created.
  unfoldable pub ensure_dir : Upload → Text → Progress
  unfolding parent_id_of create_folder
  ensure_dir u path =
      elim (found_id (get (lookup_key (parent_id_of u path) (folder_name path)) u.existing)) [
        | some id ↦ going (record u { path_to_id = set path id u.path_to_id })
        | none ↦ create_folder u path (parent_id_of u path)
      ]

  abbrev pub next_dir : Progress → (Upload → Progress) → Progress
  next_dir (going u) f = f u
  next_dir (stopped p requests) f = stopped p requests

  unfoldable pub ensure_dirs : List Text → Upload → Progress
  unfolding ensure_dir
  ensure_dirs [] u = going u
  ensure_dirs (path ∷ paths) u = next_dir (ensure_dir u path) (ensure_dirs paths)

  unfoldable pub ensure_folder_structure : Option Text → List Text → List FolderInfo → Progress
  unfolding dir_paths sorted_paths existing_by_key ensure_dirs
  ensure_folder_structure token files existing_folders =
      if is_empty (get_or token [])
      then stopped not_authenticated []
      else ensure_dirs (sorted_paths (dir_paths files [])) (record {
        existing = existing_by_key existing_folders [];
        path_to_id = [];
        requests = [];
      })

unfoldable pub get_folder_id_for_file : Text → JsMap Text Text → Option Text → Option Text
get_folder_id_for_file rel path_to_id fallback =
    if is_empty rel || leb (length (split b'/' rel)) 1
    then fallback
    else elim (get (join b'/' (all_but_last (split b'/' rel))) path_to_id) [
      | none ↦ fallback
      | some id ↦ some id
    ]
