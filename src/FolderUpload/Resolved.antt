-- ===== src/FolderUpload/Resolved.antt =====
-- When all folders are there, each directory has its folder, and no more were asked for than needed.
use vault_drive.Base.{
  ◌+◌, ◌≤◌, true, Option, none, some, List, [], ◌∷◌, ◌++◌, ◌≡◌, ◌⊎◌, inl, inr, refl, arith, length,
  length-append, is_empty, is_some, All, Option-cases, Bool-cases, list_eq, number_eq,
  list_same_iff, get_or,
}
use vault_drive.Base.JsMap.{JsMap, get, set, get-set}
use vault_drive.Base.JsText.{Text}
use vault_drive.FolderUpload.{
  FolderInfo, CreateAnswer, created, refused, fails, Request, Upload, Progress, going, stopped,
  Problem, found_id, folder_name, lookup_key, parent_id_of, create_folder, ensure_dir, ensure_dirs,
  dir_paths, sorted_paths, ensure_folder_structure,
}

abbrev pub Has : JsMap Text Text → Text → Type 0
Has m path = is_some (get path m) ≡ true

Has-set :
    (path other id : Text) (m : JsMap Text Text)
    → ((path ≡ other) ⊎ Has m other)
    → Has (set path id m) other
Has-set path other id m (inl e) =
    ground (arith, e, get-set path other id m, list_same_iff path other)
Has-set path other id m (inr h) =
    ground (arith, h, get-set path other id m, list_same_iff path other)

pub Answer-cases :
    (a : CreateAnswer)
    → ((id : Text) × (a ≡ created id)) ⊎ (((e : Option Text) × (a ≡ refused e)) ⊎ (a ≡ fails))
Answer-cases (created id) = inl (id, refl)
Answer-cases (refused e) = inr (inl (e, refl))
Answer-cases fails = inr (inr refl)

-- What one directory adds.
record Step (u v : Upload) (path : Text) : Type 0 where
  here : Has v.path_to_id path
  kept : (other : Text) → Has u.path_to_id other → Has v.path_to_id other
  one_more : length v.requests ≤ length u.requests + 1

module _ (server : Request → List Request → CreateAnswer) (root_folder_id : Option Text) where
  create_folder-Step :
      (u v : Upload) (path : Text) (parent : Option Text)
      → create_folder server root_folder_id u path parent ≡ going v
      → Step u v path
  unfolding create_folder
  create_folder-Step u v path parent e =
      elim (Answer-cases (server (folder_name path, found_id parent) u.requests)) [
        | inl (id, answered) ↦
            let paths : set path id u.path_to_id ≡ v.path_to_id = ground (arith, e, answered) in
            let sent : u.requests ++ (folder_name path, found_id parent) ∷ [] ≡ v.requests =
              ground (arith, e, answered) in
            record {
              here = rw (← paths) (Has-set path path id u.path_to_id (inl refl));
              kept = λ other h. rw (← paths) (Has-set path other id u.path_to_id (inr h));
              one_more = rw (← sent) (
                  omega
                    (arith, length-append u.requests ((folder_name path, found_id parent) ∷ [])));
            }
        | inr (inl (none, answered)) ↦ absurd (ground (arith, e, answered))
        | inr (inl (some m, answered)) ↦ absurd (ground (arith, e, answered))
        | inr (inr answered) ↦ absurd (ground (arith, e, answered))
      ]

  ensure_dir-Step :
      (u v : Upload) (path : Text)
      → ensure_dir server root_folder_id u path ≡ going v
      → Step u v path
  unfolding ensure_dir
  ensure_dir-Step u v path e =
      elim (Option-cases (
        found_id (
          get (lookup_key (parent_id_of server root_folder_id u path) (folder_name path))
            u.existing))) [
              | inr (id, found) ↦
                  let paths : set path id u.path_to_id ≡ v.path_to_id = ground (arith, e, found) in
                  let sent : u.requests ≡ v.requests = ground (arith, e, found) in
                  record {
                    here = rw (← paths) (Has-set path path id u.path_to_id (inl refl));
                    kept = λ other h. rw (← paths) (Has-set path other id u.path_to_id (inr h));
                    one_more = rw (← sent) (omega arith);
                  }
              | inl missing ↦
                  create_folder-Step u v path (parent_id_of server root_folder_id u path)
                    (ground (arith, e, missing))
            ]

  pub Progress-cases :
      (p : Progress)
      → ((u : Upload) × (p ≡ going u)) ⊎ ((q : Problem) × (r : List Request) × (p ≡ stopped q r))
  Progress-cases (going u) = inl (u, refl)
  Progress-cases (stopped q r) = inr (q, r, refl)

  ensure_dirs-Has :
      (paths : List Text) (u v : Upload)
      → ensure_dirs server root_folder_id paths u ≡ going v
      → All (Has v.path_to_id) paths
        × ((other : Text) → Has u.path_to_id other → Has v.path_to_id other)
        × (length v.requests ≤ length u.requests + length paths)
  unfolding ensure_dirs
  ensure_dirs-Has [] u v e =
      let same_state : u ≡ v = ground (arith, e) in
      (tt, λ other h. rw (← same_state) h, rw (← same_state) (omega arith))
  ensure_dirs-Has (path ∷ paths) u v e =
      elim (Progress-cases (ensure_dir server root_folder_id u path)) [
        | inr (q, r, halted) ↦ absurd (ground (arith, e, halted))
        | inl (w, went) ↦
            let step = ensure_dir-Step u w path went in
            let (rest, kept, few) = ensure_dirs-Has paths w v (rw went at e) in
            (
              (kept path step.here, rest),
              λ other h. kept other (step.kept other h),
              omega (arith, few, step.one_more),
            )
      ]

  -- The directories that the code sorts, and the requests.
  pub ensure_folder_structure-Has :
      (token : Option Text) (files : List Text) (existing : List FolderInfo) (u : Upload)
      → ensure_folder_structure server root_folder_id token files existing ≡ going u
      → All (Has u.path_to_id) (sorted_paths (dir_paths files []))
        × (length u.requests ≤ length (sorted_paths (dir_paths files [])))
  unfolding ensure_folder_structure
  ensure_folder_structure-Has token files existing u e =
      elim (Bool-cases (is_empty (get_or token []))) [
        | inl none_there ↦ absurd (ground (arith, e, none_there))
        | inr signed_in ↦
            let (all_there, kept, few) =
              ensure_dirs-Has (sorted_paths (dir_paths files [])) _ u (rw signed_in at e) in
            (all_there, omega (arith, few))
      ]
