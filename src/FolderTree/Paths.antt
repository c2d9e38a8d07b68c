-- ===== src/FolderTree/Paths.antt =====
-- That the questions about a folder tree agree (crates/tuta/src/folder_system.rs).
use tutabridge.Prelude.{
  ℕ, suc, String, Option, none, some, List, [], ◌∷◌, ◌++◌, if◌then◌else◌, Bool-cases, inl, inr, ◌≡◌,
  refl, sym, ◌∙◌,
}
use tutabridge.FolderTree.Defs.{
  MailSet, FolderSubtree, subtree, Subtrees, no_trees, tree, IndentedFolder, FolderSystem, has_id,
  or_else, in_path, folder_of, subtree_by_id, path_in_subtrees, collect_indented, folder_by_id,
  path_to_folder, indented_list, or_no_path,
}
use tutabridge.Model.{MailSetKind}

abbrev pub last : List MailSet → Option MailSet
last [] = none
last (folder ∷ []) = some folder
last (folder ∷ other ∷ path) = last (other ∷ path)

abbrev last_of : Option (List MailSet) → Option MailSet
last_of none = none
last_of (some path) = last path

abbrev first_listed : String → List IndentedFolder → Option MailSet
first_listed eid [] = none
first_listed eid (f ∷ fs) = if has_id eid f.folder then some f.folder else first_listed eid fs

first_listed-append :
    (eid : String) (fs gs : List IndentedFolder)
    → first_listed eid (fs ++ gs) ≡ or_else (first_listed eid fs) (first_listed eid gs)
first_listed-append eid [] gs = refl
first_listed-append eid (f ∷ fs) gs = elim (Bool-cases (has_id eid f.folder)) [
  | inl e ↦ rw e refl
  | inr e ↦ rw e (first_listed-append eid fs gs)
]

folder_of-or_else :
    (a b : Option FolderSubtree) → folder_of (or_else a b) ≡ or_else (folder_of a) (folder_of b)
folder_of-or_else none b = refl
folder_of-or_else (some (subtree folder children)) b = refl

collected :
    (ts : Subtrees) (eid : String) (level : ℕ)
    → first_listed eid (collect_indented ts level) ≡ folder_of (subtree_by_id ts eid)
unfolding collect_indented subtree_by_id
collected no_trees eid level = refl
collected (tree (subtree folder children) rest) eid level = elim (Bool-cases (has_id eid folder)) [
  | inl e ↦ rw e refl
  | inr e ↦ rw e (
      first_listed-append eid (collect_indented children (suc level)) (collect_indented rest level)
      ∙ rw (collected children eid (suc level), collected rest eid level)
          (sym (folder_of-or_else (subtree_by_id children eid) (subtree_by_id rest eid))))
]

some_last :
    (folder : MailSet) (path : List MailSet) (x : Option MailSet)
    → or_else (last (folder ∷ path)) x ≡ last (folder ∷ path)
some_last folder [] x = refl
some_last folder (f ∷ path) x = some_last f path x

last-or_else :
    (folder : MailSet) (p q : Option (List MailSet))
    → last_of (or_else (in_path folder p) q) ≡ or_else (last_of (in_path folder p)) (last_of q)
last-or_else folder none q = refl
last-or_else folder (some path) q = sym (some_last folder path (last_of q))

in_path_twice :
    (folder f : MailSet) (p later : Option (List MailSet))
    → last_of (in_path folder later) ≡ last_of later
    → last_of (in_path folder (or_else (in_path f p) later)) ≡ last_of (or_else (in_path f p) later)
in_path_twice folder f none later h = h
in_path_twice folder f (some path) later h = refl

-- A folder in front of a path is not its last one.
last-in_path :
    (ts : Subtrees) (eid : String) (folder : MailSet)
    → last_of (in_path folder (path_in_subtrees ts eid)) ≡ last_of (path_in_subtrees ts eid)
unfolding path_in_subtrees
last-in_path no_trees eid folder = refl
last-in_path (tree (subtree f children) rest) eid folder = elim (Bool-cases (has_id eid f)) [
  | inl e ↦ rw e refl
  | inr e ↦ rw e (
      in_path_twice folder f (path_in_subtrees children eid) (path_in_subtrees rest eid)
        (last-in_path rest eid folder))
]

no_folder : MailSet
no_folder = record { id = none; kind = MailSetKind.inbox; name = ""; parent_folder = none }

-- A path that a folder can stand in front of without a change of its last one is not empty.
last-or_else_path :
    (p q : Option (List MailSet))
    → last_of (in_path no_folder p) ≡ last_of p
    → last_of (or_else p q) ≡ or_else (last_of p) (last_of q)
last-or_else_path none q h = refl
last-or_else_path (some path) q h = sym (rw (sym h) (some_last no_folder path (last_of q)))

last-or_no_path : (p : Option (List MailSet)) → last (or_no_path p) ≡ last_of p
last-or_no_path none = refl
last-or_no_path (some path) = refl

last_is_found :
    (ts : Subtrees) (eid : String)
    → last_of (path_in_subtrees ts eid) ≡ folder_of (subtree_by_id ts eid)
unfolding path_in_subtrees subtree_by_id
last_is_found no_trees eid = refl
last_is_found (tree (subtree folder children) rest) eid = elim (Bool-cases (has_id eid folder)) [
  | inl e ↦ rw e refl
  | inr e ↦ rw e (
      last-or_else folder (path_in_subtrees children eid) (path_in_subtrees rest eid)
      ∙ rw (last-in_path children eid folder) (
          rw (last_is_found children eid, last_is_found rest eid)
            (sym (folder_of-or_else (subtree_by_id children eid) (subtree_by_id rest eid)))))
]

-- The folder with an id is the last one on the path to it, and the first one with that id in the
-- indented list; without one, the path is empty.
pub path_to_folder_lem :
    (fs : FolderSystem) (eid : String)
    → (last (path_to_folder fs eid) ≡ folder_by_id fs eid)
      × (first_listed eid (indented_list fs) ≡ folder_by_id fs eid)
unfolding path_to_folder folder_by_id indented_list
path_to_folder_lem fs eid = (
  last-or_no_path (
        or_else (path_in_subtrees fs.system_subtrees eid) (path_in_subtrees fs.custom_subtrees eid))
      ∙ (last-or_else_path (path_in_subtrees fs.system_subtrees eid)
            (path_in_subtrees fs.custom_subtrees eid)
            (last-in_path fs.system_subtrees eid no_folder)
          ∙ rw (last_is_found fs.system_subtrees eid, last_is_found fs.custom_subtrees eid)
              (sym (
                folder_of-or_else (subtree_by_id fs.system_subtrees eid)
                  (subtree_by_id fs.custom_subtrees eid)))),
  first_listed-append eid (collect_indented fs.system_subtrees 0)
        (collect_indented fs.custom_subtrees 0)
      ∙ rw (collected fs.system_subtrees eid 0, collected fs.custom_subtrees eid 0)
          (sym (
            folder_of-or_else (subtree_by_id fs.system_subtrees eid)
              (subtree_by_id fs.custom_subtrees eid))),
)
