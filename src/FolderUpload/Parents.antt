-- ===== src/FolderUpload/Parents.antt =====
-- Every directory of the files has a folder, and one inside another has it in the other's folder.
use vault_drive.Base.{
  ◌≤◌, true, false, Option, some, List, [], ◌∷◌, ◌++◌, ◌≡◌, inl, inr, refl, sym, ap, ap₂, ◌∙◌,
  arith, length, is_empty, All, All-map, append_assoc, Option-cases, Bool-cases, list_eq, number_eq,
  ==_refl, get_or,
}
use vault_drive.Base.JsMap.{get}
use vault_drive.Base.JsSet.{member, member-cons}
use vault_drive.Base.JsText.{Text}
use vault_drive.Base.Sorting.{sort, sort-Sorted, length-sort, All-sort_back}
use vault_drive.FolderUpload.{
  FolderInfo, CreateAnswer, created, Request, Upload, going, lookup_key, parent_path, parent_id_of,
  dir_paths, sorted_paths, ensure_folder_structure,
}
use vault_drive.FolderUpload.Resolved.{Has, ensure_folder_structure-Has}
use vault_drive.FolderUpload.Paths.{
  IsName, member-All, All-dir_paths, folder_name-under, parent_path-under, depth-under,
}
use vault_drive.FolderUpload.Placed.{precedes, ensure_dirs-IsPlaced}

own_members : (xs : List Text) → All (λ x. member x xs ≡ true) xs
own_members [] = tt
own_members (y ∷ ys) = (
  ground (arith, member-cons y y ys, ==_refl y),
  All-map ys (λ x h. ground (arith, member-cons y x ys, h)) (own_members ys),
)

precedes_asymmetric : (x y : Text) → precedes x y ≡ true → precedes y x ≡ false
precedes_asymmetric x y h = ground (arith, h)

precedes_negatively :
    (x y z : Text) → precedes y x ≡ false → precedes z y ≡ false → precedes z x ≡ false
precedes_negatively x y z h k = ground (arith, h, k)

-- Every directory of the files is among the sorted ones.
member-sorted_paths :
    (files : List Text) (rel dir rest : Text)
    → member rel files ≡ true
    → rel ≡ dir ++ b'/' ∷ rest
    → member dir (sorted_paths (dir_paths files [])) ≡ true
unfolding sorted_paths
member-sorted_paths files rel dir rest m e =
    let dirs = dir_paths files [] in
    let P : Text → Type 0 = λ d. member d (sorted_paths dirs) ≡ true in
    All-dir_paths P files [] rel dir rest
      (All-sort_back precedes P dirs (own_members (sort precedes dirs))) m e

-- When the folders of an upload are ready, every directory of a file, which is any text before a slash
-- of its relative path, has a folder; and no more folders were asked for than dirPaths lists.
pub ensure_folder_structure-Has_dir :
    (server : Request → List Request → CreateAnswer) (root_folder_id : Option Text)
    (token : Option Text) (files : List Text) (existing : List FolderInfo) (u : Upload)
    (rel dir rest : Text)
    → ensure_folder_structure server root_folder_id token files existing ≡ going u
    → member rel files ≡ true
    → rel ≡ dir ++ b'/' ∷ rest
    → Has u.path_to_id dir × (length u.requests ≤ length (dir_paths files []))
ensure_folder_structure-Has_dir server root token files existing u rel dir rest e m at =
    let (all_there, few) = ensure_folder_structure-Has server root token files existing u e in
    (
      member-All (Has u.path_to_id) dir (sorted_paths (dir_paths files []))
          (member-sorted_paths files rel dir rest m at) all_there,
      omega (arith, few, length-sorted_paths),
    )
  where
    length-sorted_paths : length (sorted_paths (dir_paths files [])) ≡ length (dir_paths files [])
    length-sorted_paths = unfold sorted_paths in length-sort precedes (dir_paths files [])

parent_id_of-parent :
    (server : Request → List Request → CreateAnswer) (root_folder_id : Option Text) (u : Upload)
    (path parent : Text)
    → parent_path path ≡ parent
    → is_empty parent ≡ false
    → parent_id_of server root_folder_id u path ≡ get parent u.path_to_id
unfolding parent_id_of
parent_id_of-parent server root u path parent up full = rw (parent_id_of, up, full) refl

-- When the folders of an upload are ready and the server gives no empty identifiers, a directory of a
-- file that is inside another, whose path is not empty, has a folder, and the lookup of the folders that
-- were there or were created has that folder under the directory's name and the identifier of the
-- other's folder.
pub ensure_folder_structure-under :
    (server : Request → List Request → CreateAnswer) (root_folder_id : Option Text)
    (token : Option Text) (files : List Text) (existing : List FolderInfo) (u : Upload)
    (rel parent name rest : Text)
    → ((request : Request) (before : List Request) (id : Text)
        → server request before ≡ created id
        → is_empty id ≡ false)
    → ensure_folder_structure server root_folder_id token files existing ≡ going u
    → member rel files ≡ true
    → rel ≡ parent ++ b'/' ∷ (name ++ b'/' ∷ rest)
    → IsName name
    → is_empty parent ≡ false
    → (parent_id id : Text) × (get parent u.path_to_id ≡ some parent_id)
      × (get (parent ++ b'/' ∷ name) u.path_to_id ≡ some id)
      × (is_empty id ≡ false)
      × (get (lookup_key (some parent_id) name) u.existing ≡ some id)
unfolding ensure_folder_structure sorted_paths
ensure_folder_structure-under server root token files existing u rel parent name rest named_ids e m
      at named given =
    let dir = parent ++ b'/' ∷ name in
    let at' : rel ≡ dir ++ b'/' ∷ rest =
      at ∙ sym (append_assoc parent (b'/' ∷ name) (b'/' ∷ rest)) in
    let up = parent_path-under parent name named in
    let above : precedes (parent_path dir) dir ≡ true =
      rw up (ground (arith, depth-under parent name named)) in
    let (has_parent, few) =
      ensure_folder_structure-Has_dir server root token files existing u rel parent
        (name ++ b'/' ∷ rest) e m at in
    elim (Bool-cases (is_empty (get_or token []))) [
      | inl none_there ↦ absurd (cc (rw none_there at e))
      | inr signed_in ↦
          let (id, full, here, known) =
            ensure_dirs-IsPlaced server root named_ids dir (λ g. above)
              (sorted_paths (dir_paths files [])) _ u
              (sort-Sorted precedes precedes_asymmetric precedes_negatively (dir_paths files []))
              (member-sorted_paths files rel dir rest m at') (rw signed_in at e) in
          elim (Option-cases (get parent u.path_to_id)) [
            | inl missing ↦ absurd (cc (rw missing at has_parent))
            | inr (parent_id, found) ↦ (
              parent_id,
              id,
              found,
              here,
              full,
              ap (λ k. get k u.existing)
                    (ap₂ lookup_key (sym (parent_id_under u dir parent parent_id up given found))
                      (sym (folder_name-under parent name named)))
                  ∙ known,
            )
          ]
    ]
  where
    parent_id_under :
        (v : Upload) (path above_it parent_id : Text)
        → parent_path path ≡ above_it
        → is_empty above_it ≡ false
        → get above_it v.path_to_id ≡ some parent_id
        → parent_id_of server root v path ≡ some parent_id
    parent_id_under v path above_it parent_id up full found =
        parent_id_of-parent server root v path above_it up full ∙ found
