-- ===== src/FolderTree/Defs.antt =====
-- The trees of a `FolderSystem` and what is asked of them (crates/tuta/src/folder_system.rs).
use tutabridge.Prelude.{
  ℕ, suc, String, Bool, false, Option, none, some, List, [], ◌∷◌, ◌++◌, ◌=s◌, if◌then◌else◌,
}
use tutabridge.Model.{IdTuple, MailSetKind, inbox, sent, trash, archive, spam, draft, scheduled}

pub record MailSet : Type 0 where
  pub id : Option IdTuple
  pub kind : MailSetKind
  pub name : String
  pub parent_folder : Option IdTuple

mutual
  pub data FolderSubtree : Type 0 where
    subtree : MailSet → Subtrees → FolderSubtree

  pub data Subtrees : Type 0 where
    no_trees : Subtrees
    tree : FolderSubtree → Subtrees → Subtrees

pub record IndentedFolder : Type 0 where
  pub level : ℕ
  pub folder : MailSet

pub record FolderSystem : Type 0 where
  pub system_subtrees : Subtrees
  pub custom_subtrees : Subtrees
  pub imported_mail_set : Option MailSet

abbrev pub names_id : String → Option IdTuple → Bool
names_id eid none = false
names_id eid (some id) = id.element_id =s eid

abbrev pub has_id : String → MailSet → Bool
has_id eid folder = names_id eid folder.id

abbrev pub or_else : {A : Type 0} → Option A → Option A → Option A
or_else none later = later
or_else (some a) later = some a

abbrev pub in_path : MailSet → Option (List MailSet) → Option (List MailSet)
in_path folder none = none
in_path folder (some path) = some (folder ∷ path)

abbrev pub folder_of : Option FolderSubtree → Option MailSet
folder_of none = none
folder_of (some (subtree folder children)) = some folder

unfoldable pub subtree_by_id : Subtrees → String → Option FolderSubtree
subtree_by_id no_trees eid = none
subtree_by_id (tree (subtree folder children) rest) eid =
    let below = subtree_by_id children eid in
    let later = subtree_by_id rest eid in
    if has_id eid folder then some (subtree folder children) else or_else below later

unfoldable pub path_in_subtrees : Subtrees → String → Option (List MailSet)
path_in_subtrees no_trees eid = none
path_in_subtrees (tree (subtree folder children) rest) eid =
    let below = in_path folder (path_in_subtrees children eid) in
    let later = path_in_subtrees rest eid in
    if has_id eid folder then some (folder ∷ []) else or_else below later

unfoldable pub collect_indented : Subtrees → ℕ → List IndentedFolder
collect_indented no_trees level = []
collect_indented (tree (subtree folder children) rest) level =
    record { level = level; folder = folder }
    ∷ (collect_indented children (suc level) ++ collect_indented rest level)

abbrev pub or_no_path : Option (List MailSet) → List MailSet
or_no_path none = []
or_no_path (some path) = path

unfoldable pub folder_by_id : FolderSystem → String → Option MailSet
folder_by_id fs eid =
    folder_of
      (or_else (subtree_by_id fs.system_subtrees eid) (subtree_by_id fs.custom_subtrees eid))

unfoldable pub path_to_folder : FolderSystem → String → List MailSet
path_to_folder fs eid =
    or_no_path
      (or_else (path_in_subtrees fs.system_subtrees eid) (path_in_subtrees fs.custom_subtrees eid))

unfoldable pub indented_list : FolderSystem → List IndentedFolder
indented_list fs = collect_indented fs.system_subtrees 0 ++ collect_indented fs.custom_subtrees 0

-- Along the sets of a mail.
unfoldable folder_by_mail : FolderSystem → List IdTuple → Option MailSet
folder_by_mail fs [] = none
folder_by_mail fs (set ∷ sets) =
    let later = folder_by_mail fs sets in or_else (folder_by_id fs set.element_id) later

abbrev folders_of : Subtrees → List MailSet
folders_of no_trees = []
folders_of (tree (subtree folder children) rest) = folder ∷ folders_of rest

abbrev children_of : Option FolderSubtree → List MailSet
children_of none = []
children_of (some (subtree folder children)) = folders_of children

unfoldable custom_folders_of_parent : FolderSystem → Option IdTuple → List MailSet
custom_folders_of_parent fs none = folders_of fs.custom_subtrees
custom_folders_of_parent fs (some parent) = children_of (
    or_else (subtree_by_id fs.system_subtrees parent.element_id)
      (subtree_by_id fs.custom_subtrees parent.element_id))

-- `system_order`
unfoldable pub system_order : MailSetKind → ℕ
system_order inbox = 0
system_order draft = 1
system_order scheduled = 2
system_order sent = 3
system_order trash = 4
system_order archive = 5
system_order spam = 6
system_order _ = 7
