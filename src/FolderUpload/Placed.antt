-- ===== src/FolderUpload/Placed.antt =====
-- Parents first: each directory's folder is found or made in the folder of its parent.
use vault_drive.Base.{
  true, false, Bool, Option, none, some, List, [], ◌∷◌, ◌≡◌, inl, inr, refl, sym, ap, ◌∙◌, subst,
  arith, is_empty, All, Option-cases, Bool-cases, list_eq, number_eq, ==→eq, ltb, ◌==◌,
}
use vault_drive.Base.JsMap.{JsMap, get, set, get-set, get-set_here}
use vault_drive.Base.JsSet.{member}
use vault_drive.Base.JsText.{Text}
use vault_drive.Base.Sorting.{Sorted}
use vault_drive.FolderUpload.{
  CreateAnswer, created, Request, Upload, going, found_id, folder_name, lookup_key, parent_path,
  parent_id_of, create_folder, ensure_dir, ensure_dirs, depth,
}
use vault_drive.FolderUpload.Resolved.{Answer-cases, Progress-cases}

abbrev pub precedes : Text → Text → Bool
precedes a b = ltb (depth a) (depth b)

module _ (server : Request → List Request → CreateAnswer) (root_folder_id : Option Text)
    (named_ids : (request : Request) (before : List Request) (id : Text)
      → server request before ≡ created id
      → is_empty id ≡ false) where
  abbrev pub key : Upload → Text → Text
  key u path = lookup_key (parent_id_of server root_folder_id u path) (folder_name path)

  -- The directory has a folder, which is known under its name in the folder of its parent.
  abbrev pub IsPlaced : Upload → Text → Type 0
  IsPlaced u dir =
      (id : Text) × (is_empty id ≡ false)
      × (get dir u.path_to_id ≡ some id)
      × (get (key u dir) u.existing ≡ some id)

  record Placing (u v : Upload) (path : Text) : Type 0 where
    id : Text
    filled : is_empty id ≡ false
    paths : v.path_to_id ≡ set path id u.path_to_id
    keyed : get (key u path) v.existing ≡ some id
    kept : (k j : Text) → get k u.existing ≡ some j → is_empty j ≡ false → get k v.existing ≡ some j

  found_id-filled :
      (o : Option Text) (id : Text) → found_id o ≡ some id → (o ≡ some id) × (is_empty id ≡ false)
  found_id-filled none id h = cc h
  found_id-filled (some j) id h = elim (Bool-cases (is_empty j)) [
    | inl empty ↦ absurd (cc (rw empty at h))
    | inr full ↦ let e : j ≡ id = cc (rw full at h) in (ap some e, rw (← e) full)
  ]

  found_id-none : (o : Option Text) (j : Text) → found_id o ≡ none → o ≡ some j → is_empty j ≡ true
  found_id-none none j h e = cc e
  found_id-none (some i) j h e = elim (Bool-cases (is_empty i)) [
    | inl empty ↦ let same : i ≡ j = cc e in rw (← same) empty
    | inr full ↦ absurd (cc (rw full at h))
  ]

  create_folder-Placing :
      (u v : Upload) (path : Text)
      → found_id (get (key u path) u.existing) ≡ none
      → create_folder server root_folder_id u path (parent_id_of server root_folder_id u path)
        ≡ going v
      → Placing u v path
  unfolding create_folder
  create_folder-Placing u v path missing e =
      let parent = parent_id_of server root_folder_id u path in
      elim (Answer-cases (server (folder_name path, found_id parent) u.requests)) [
        | inl (id, answered) ↦
            let paths : set path id u.path_to_id ≡ v.path_to_id = ground (arith, e, answered) in
            let existing : set (key u path) id u.existing ≡ v.existing =
              ground (arith, e, answered) in
            record {
              id = id;
              filled = named_ids (folder_name path, found_id parent) u.requests id answered;
              paths = sym paths;
              keyed = rw (← existing) (get-set_here (key u path) id u.existing);
              kept = λ k j h full.
                  rw (← existing) (other_key (key u path) k j id u.existing missing h full);
            }
        | inr (inl (none, answered)) ↦ absurd (ground (arith, e, answered))
        | inr (inl (some m, answered)) ↦ absurd (ground (arith, e, answered))
        | inr (inr answered) ↦ absurd (ground (arith, e, answered))
      ]
    where
      other_key :
          (new k j id : Text) (m : JsMap Text Text)
          → found_id (get new m) ≡ none
          → get k m ≡ some j
          → is_empty j ≡ false
          → get k (set new id m) ≡ some j
      other_key new k j id m absent h full = elim (Bool-cases (new == k)) [
        | inl same ↦
            let there : get new m ≡ some j = rw (==→eq new k same) h in
            absurd (cc (found_id-none (get new m) j absent there, full))
        | inr apart ↦ get-set new k id m ∙ rw apart h
      ]

  ensure_dir-Placing :
      (u v : Upload) (path : Text)
      → ensure_dir server root_folder_id u path ≡ going v
      → Placing u v path
  unfolding ensure_dir
  ensure_dir-Placing u v path e = elim (Option-cases (found_id (get (key u path) u.existing))) [
    | inr (id, found) ↦
        let paths : set path id u.path_to_id ≡ v.path_to_id = ground (arith, e, found) in
        let existing : u.existing ≡ v.existing = ground (arith, e, found) in
        let (there, full) = found_id-filled (get (key u path) u.existing) id found in
        record {
          id = id;
          filled = full;
          paths = sym paths;
          keyed = rw (← existing) there;
          kept = λ k j h f. rw (← existing) h;
        }
    | inl missing ↦ create_folder-Placing u v path missing (ground (arith, e, missing))
  ]

  -- A directory whose parent's path is above it.
  module _ (dir : Text)
      (above : is_empty (parent_path dir) ≡ false → precedes (parent_path dir) dir ≡ true) where
    other_parent :
        (path : Text)
        → precedes path dir ≡ false
        → is_empty (parent_path dir) ≡ false
        → (path == parent_path dir) ≡ false
    other_parent path later given = elim (Bool-cases (path == parent_path dir)) [
      | inl same ↦ absurd (
          cc (
            above given,
            subst (λ p. precedes p dir ≡ false) (==→eq path (parent_path dir) same) later,
          ))
      | inr apart ↦ apart
    ]

    same_parent :
        (u v : Upload) (path : Text)
        → precedes path dir ≡ false
        → Placing u v path
        → parent_id_of server root_folder_id v dir ≡ parent_id_of server root_folder_id u dir
    unfolding parent_id_of
    same_parent u v path later step = elim (Bool-cases (is_empty (parent_path dir))) [
      | inl top ↦ rw top refl
      | inr given ↦
          rw (given, step.paths)
            (get-set path (parent_path dir) step.id u.path_to_id
              ∙ rw (other_parent path later given) refl)
    ]

    same_key :
        (u v : Upload) (path : Text)
        → precedes path dir ≡ false
        → Placing u v path
        → key v dir ≡ key u dir
    same_key u v path later step =
        ap (λ o. lookup_key o (folder_name dir)) (same_parent u v path later step)

    Placing-own :
        (u v : Upload) (path : Text)
        → precedes path dir ≡ false
        → Placing u v path
        → path ≡ dir
        → IsPlaced v dir
    Placing-own u v path later step same =
        let own = subst (Placing u v) same step in
        (
          own.id,
          own.filled,
          rw own.paths (get-set_here dir own.id u.path_to_id),
          rw (same_key u v path later step) own.keyed,
        )

    Placing-IsPlaced :
        (u v : Upload) (path : Text)
        → precedes path dir ≡ false
        → Placing u v path
        → IsPlaced u dir
        → IsPlaced v dir
    Placing-IsPlaced u v path later step (id, full, here, known) = elim (Bool-cases (path == dir)) [
      | inl same ↦ Placing-own u v path later step (==→eq path dir same)
      | inr apart ↦ (
        id,
        full,
        rw step.paths (get-set path dir step.id u.path_to_id ∙ rw apart here),
        rw (same_key u v path later step) (step.kept (key u dir) id known full),
      )
    ]

    -- Later directories leave it where it is.
    ensure_dirs-kept :
        (paths : List Text) (u v : Upload)
        → All (λ p. precedes p dir ≡ false) paths
        → IsPlaced u dir
        → ensure_dirs server root_folder_id paths u ≡ going v
        → IsPlaced v dir
    unfolding ensure_dirs
    ensure_dirs-kept [] u v later placed e =
        let same : u ≡ v = ground (arith, e) in subst (λ s. IsPlaced s dir) same placed
    ensure_dirs-kept (path ∷ paths) u v (first, later) placed e =
        elim (Progress-cases server root_folder_id (ensure_dir server root_folder_id u path)) [
          | inr (q, r, halted) ↦ absurd (ground (arith, e, halted))
          | inl (w, went) ↦
              let step = ensure_dir-Placing u w path went in
              ensure_dirs-kept paths w v later (Placing-IsPlaced u w path first step placed)
                (rw went at e)
        ]

    pub ensure_dirs-IsPlaced :
        (paths : List Text) (u v : Upload)
        → Sorted precedes paths
        → member dir paths ≡ true
        → ensure_dirs server root_folder_id paths u ≡ going v
        → IsPlaced v dir
    unfolding ensure_dirs
    ensure_dirs-IsPlaced [] u v sorted m e = absurd (unfold member in ground (arith, m))
    ensure_dirs-IsPlaced (path ∷ paths) u v (later, sorted) m e =
        elim (Progress-cases server root_folder_id (ensure_dir server root_folder_id u path)) [
          | inr (q, r, halted) ↦ absurd (ground (arith, e, halted))
          | inl (w, went) ↦ elim (Bool-cases (path == dir)) [
            | inl same ↦
                let here = ==→eq path dir same in
                let step = ensure_dir-Placing u w path went in
                let itself : precedes path dir ≡ false = rw here (ground arith) in
                ensure_dirs-kept paths w v
                  (subst (λ d. All (λ p. precedes p d ≡ false) paths) here later)
                  (Placing-own u w path itself step here) (rw went at e)
            | inr apart ↦
                ensure_dirs-IsPlaced paths w v sorted (unfold member in ground (arith, m, apart))
                  (rw went at e)
          ]
        ]
