-- ===== src/FolderUpload/Paths.antt =====
-- The directories of a relative path, as texts before a slash.
use vault_drive.Base.{
  ℕ, ◌+◌, ◌<◌, true, false, not, List, [], ◌∷◌, ◌++◌, ◌≡◌, refl, sym, ap, ◌∙◌, arith, length,
  length-append, take, take-append, get_last?, get_or, is_empty, all, ltb, ◌==◌, number_eq, list_eq,
  ==→eq, ==_refl, inl, inr, Bool-cases, All, append-nil, append_assoc, subst,
}
use vault_drive.Base.JsSet.{member, add}
use vault_drive.Base.JsText.{Text, split, split_from, join}
use vault_drive.FolderUpload.{
  ancestor_paths, add_dirs, dir_paths, depth, folder_name, all_but_last, parent_path,
}

-- A name without a slash.
abbrev pub IsName : Text → Type 0
IsName name = all (λ c. not (c == b'/')) name ≡ true

join-snoc :
    (before : List Text) (part x : Text)
    → join b'/' (before ++ part ∷ [] ++ x ∷ []) ≡ join b'/' (before ++ part ∷ []) ++ b'/' ∷ x
unfolding join
join-snoc [] part x = refl
join-snoc (p ∷ []) part x = sym (append_assoc p (b'/' ∷ part) (b'/' ∷ x))
join-snoc (p ∷ q ∷ before) part x =
    ap (λ t. p ++ b'/' ∷ t) (join-snoc (q ∷ before) part x)
    ∙ sym (append_assoc p (b'/' ∷ join b'/' (q ∷ before ++ part ∷ [])) (b'/' ∷ x))

join-longer :
    (before : List Text) (part x : Text)
    → join b'/' (before ++ (part ++ x) ∷ []) ≡ join b'/' (before ++ part ∷ []) ++ x
unfolding join
join-longer [] part x = refl
join-longer (p ∷ []) part x = sym (append_assoc p (b'/' ∷ part) x)
join-longer (p ∷ q ∷ before) part x =
    ap (λ t. p ++ b'/' ∷ t) (join-longer (q ∷ before) part x)
    ∙ sym (append_assoc p (b'/' ∷ join b'/' (q ∷ before ++ part ∷ [])) x)

split_from-cons :
    (part s : Text) → (q : Text) × (parts : List Text) × (split_from b'/' part s ≡ q ∷ parts)
unfolding split_from
split_from-cons part [] = (part, [], refl)
split_from-cons part (c ∷ s) = elim (Bool-cases (c == b'/')) [
  | inl cut ↦ (part, split_from b'/' [] s, rw cut refl)
  | inr longer ↦ let (q, parts, e) = split_from-cons (part ++ c ∷ []) s in (q, parts, rw longer e)
]

split_from-name : (part name : Text) → IsName name → split_from b'/' part name ≡ (part ++ name) ∷ []
unfolding split_from
split_from-name part [] h = ap (λ t. t ∷ []) (sym (append-nil part))
split_from-name part (c ∷ name) h =
    let other : (c == b'/') ≡ false = ground (arith, h) in
    let rest : IsName name = ground (arith, h) in
    rw other (
      split_from-name (part ++ c ∷ []) name rest
      ∙ ap (λ t. t ∷ []) (append_assoc part (c ∷ []) name))

split_from-append :
    (part s t : Text)
    → split_from b'/' part (s ++ b'/' ∷ t) ≡ split_from b'/' part s ++ split_from b'/' [] t
unfolding split_from
split_from-append part [] t = refl
split_from-append part (c ∷ s) t = elim (Bool-cases (c == b'/')) [
  | inl cut ↦ rw cut (ap (λ parts. part ∷ parts) (split_from-append [] s t))
  | inr longer ↦ rw longer (split_from-append (part ++ c ∷ []) s t)
]

join-split_from : (part s : Text) → join b'/' (split_from b'/' part s) ≡ part ++ s
unfolding split_from join
join-split_from part [] = sym (append-nil part)
join-split_from part (c ∷ s) = elim (Bool-cases (c == b'/')) [
  | inl cut ↦
      let (q, parts, e) = split_from-cons [] s in
      let back : join b'/' (q ∷ parts) ≡ s = ap (join b'/') (sym e) ∙ join-split_from [] s in
      let here : c ≡ b'/' = ==→eq c b'/' cut in
      rw (cut, e) (ap (λ t. part ++ b'/' ∷ t) back ∙ ap (λ d. part ++ d ∷ s) (sym here))
  | inr longer ↦ rw longer (join-split_from (part ++ c ∷ []) s ∙ append_assoc part (c ∷ []) s)
]

-- The directories that a path's parts give hold every text before a slash of it.
module _ {κ} (P : Text → Type κ) where
  All-ancestor_paths_from :
      (before : List Text) (part s u rest : Text)
      → All P (ancestor_paths before (split_from b'/' part s))
      → s ≡ u ++ b'/' ∷ rest
      → P (join b'/' (before ++ part ∷ []) ++ u)
  unfolding split_from ancestor_paths
  All-ancestor_paths_from before part [] [] rest h e = absurd (cc e)
  All-ancestor_paths_from before part [] (d ∷ u) rest h e = absurd (cc e)
  All-ancestor_paths_from before part (c ∷ s) [] rest h e =
      let here : c ≡ b'/' = cc e in
      let cut : (c == b'/') ≡ true = ap (λ d. d == b'/') here ∙ ==_refl {A = ℕ} b'/' in
      let (q, parts, f) = split_from-cons [] s in
      let (first, later) = rw (cut, f) at h in
      subst P (sym (append-nil (join b'/' (before ++ part ∷ [])))) first
  All-ancestor_paths_from before part (c ∷ s) (d ∷ u) rest h e =
      let same : c ≡ d = cc e in
      let tail : s ≡ u ++ b'/' ∷ rest = cc e in
      elim (Bool-cases (c == b'/')) [
        | inl cut ↦
            let (q, parts, f) = split_from-cons [] s in
            let (first, later) = rw (cut, f) at h in
            let more =
              All-ancestor_paths_from (before ++ part ∷ []) [] s u rest
                (subst (λ tail_parts. All P (ancestor_paths (before ++ part ∷ []) tail_parts))
                  (sym f) later)
                tail in
            let here : b'/' ≡ d = sym (==→eq c b'/' cut) ∙ same in
            subst P
              (ap (λ t. t ++ u) (join-snoc before part [])
                ∙ append_assoc (join b'/' (before ++ part ∷ [])) (b'/' ∷ []) u
                ∙ ap (λ x. join b'/' (before ++ part ∷ []) ++ x ∷ u) here)
              more
        | inr longer ↦
            let more =
              All-ancestor_paths_from before (part ++ c ∷ []) s u rest (rw longer at h) tail in
            subst P
              (ap (λ t. t ++ u) (join-longer before part (c ∷ []))
                ∙ append_assoc (join b'/' (before ++ part ∷ [])) (c ∷ []) u
                ∙ ap (λ x. join b'/' (before ++ part ∷ []) ++ x ∷ u) same)
              more
      ]

  pub member-All : (x : Text) (xs : List Text) → member x xs ≡ true → All P xs → P x
  unfolding member
  member-All x [] m h = absurd (ground (arith, m))
  member-All x (y ∷ xs) m (p, h) = elim (Bool-cases (y == x)) [
    | inl same ↦ subst P (==→eq y x same) p
    | inr other ↦ member-All x xs (ground (arith, m, other)) h
  ]

  All-add : (x : Text) (xs : List Text) → All P (add x xs) → P x × All P xs
  unfolding add
  All-add x xs h = elim (Bool-cases (member x xs)) [
    | inl there ↦ let h' = rw there at h in (member-All x xs there h', h')
    | inr fresh ↦ let (hs, p) = All-split xs (rw fresh at h) in (p, hs)
  ]
    where
      All-split : (ys : List Text) → All P (ys ++ x ∷ []) → All P ys × P x
      All-split [] k = (tt, k.0)
      All-split (y ∷ ys) k = let (ks, p) = All-split ys k.1 in ((k.0, ks), p)

  All-add_dirs : (paths dirs : List Text) → All P (add_dirs paths dirs) → All P paths × All P dirs
  unfolding add_dirs
  All-add_dirs [] dirs h = (tt, h)
  All-add_dirs (p ∷ paths) dirs h =
      let (hs, h') = All-add_dirs paths (add p dirs) h in
      let (q, k) = All-add p dirs h' in ((q, hs), k)

  All-dir_paths_later : (files dirs : List Text) → All P (dir_paths files dirs) → All P dirs
  unfolding dir_paths
  All-dir_paths_later [] dirs h = h
  All-dir_paths_later (rel ∷ files) dirs h = elim (Bool-cases (is_empty rel)) [
    | inl none_there ↦ All-dir_paths_later files dirs (rw none_there at h)
    | inr given ↦
        (All-add_dirs (ancestor_paths [] (split b'/' rel)) dirs
          (All-dir_paths_later files _ (rw given at h))).1
  ]

  pub All-dir_paths :
      (files dirs : List Text) (rel dir rest : Text)
      → All P (dir_paths files dirs)
      → member rel files ≡ true
      → rel ≡ dir ++ b'/' ∷ rest
      → P dir
  unfolding dir_paths split join
  All-dir_paths [] dirs rel dir rest h m e = absurd (unfold member in ground (arith, m))
  All-dir_paths (f ∷ files) dirs rel dir rest h m e = elim (Bool-cases (f == rel)) [
    | inl same ↦
        let e' : f ≡ dir ++ b'/' ∷ rest = ==→eq f rel same ∙ e in
        let given = not_empty f dir rest e' in
        let added =
          All-add_dirs (ancestor_paths [] (split b'/' f)) dirs
            (All-dir_paths_later files _ (rw given at h)) in
        All-ancestor_paths_from [] [] f dir rest (unfold split in added.0) e'
    | inr other ↦
        let m' : member rel files ≡ true = unfold member in ground (arith, m, other) in
        All-dir_paths files _ rel dir rest h m' e
  ]
    where
      not_empty : (t before after : Text) → t ≡ before ++ b'/' ∷ after → is_empty t ≡ false
      not_empty t [] after k = rw k refl
      not_empty t (c ∷ before) after k = rw k refl

-- A path with a parent: its parts, its name, its parent and its depth.
module _ (parent name : Text) (named : IsName name) where
  split-under : split b'/' (parent ++ b'/' ∷ name) ≡ split b'/' parent ++ name ∷ []
  unfolding split
  split-under =
      split_from-append [] parent name
      ∙ ap (λ parts. split_from b'/' [] parent ++ parts) (split_from-name [] name named)

  length-split : length (split b'/' (parent ++ b'/' ∷ name)) ≡ length (split b'/' parent) + 1
  length-split = rw split-under (length-append (split b'/' parent) (name ∷ []))

  pub folder_name-under : folder_name (parent ++ b'/' ∷ name) ≡ name
  folder_name-under = rw split-under (last_of (split b'/' parent))
    where
      last_of : (parts : List Text) → get_or (get_last? (parts ++ name ∷ [])) [] ≡ name
      last_of [] = refl
      last_of (p ∷ []) = refl
      last_of (p ∷ q ∷ parts) = last_of (q ∷ parts)

  all_but_last-snoc : (parts : List Text) → all_but_last (parts ++ name ∷ []) ≡ parts
  all_but_last-snoc parts =
      ap (λ n. take n (parts ++ name ∷ [])) (omega (arith, length-append parts (name ∷ [])))
      ∙ take-append parts (name ∷ [])

  split-cons : (q : Text) × (parts : List Text) × (split b'/' parent ≡ q ∷ parts)
  unfolding split
  split-cons = split_from-cons [] parent

  join-split : join b'/' (split b'/' parent) ≡ parent
  unfolding split
  join-split = join-split_from [] parent

  pub parent_path-under : parent_path (parent ++ b'/' ∷ name) ≡ parent
  parent_path-under =
      let (q, parts, f) = split-cons in
      let long : ltb 1 (length (split b'/' (parent ++ b'/' ∷ name))) ≡ true =
        ground (arith, length-split, ap length f) in
      rw (long, split-under, all_but_last-snoc (split b'/' parent)) join-split

  pub depth-under : depth parent < depth (parent ++ b'/' ∷ name)
  depth-under = omega (arith, length-split)
