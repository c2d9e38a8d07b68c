-- ===== src/FolderTree/Build.antt =====
-- `FolderSystem::new` and `make_subtree` (crates/tuta/src/folder_system.rs). The trees are built on fuel,
-- one unit for each level, since a cycle of parents below a system folder has no last level; a level of
-- folders without a cycle needs no more than there are folders.
use tutabridge.Prelude.{
  ℕ, zero, suc, String, Bool, true, false, ◌&&◌, Option, none, some, List, [], ◌∷◌, keep, first,
  length, leb, if◌then◌else◌,
}
use Prim.Native.String.{compare}
use Prim.Native.Nat.{Ordering}
use tutabridge.Model.{
  IdTuple, MailSetKind, custom, inbox, sent, trash, archive, spam, draft, scheduled, imported,
}
use tutabridge.FolderTree.Defs.{
  MailSet, names_id, FolderSubtree, subtree, Subtrees, no_trees, tree, FolderSystem, system_order,
}

unfoldable is_visible_system : MailSetKind → Bool
is_visible_system inbox = true
is_visible_system sent = true
is_visible_system trash = true
is_visible_system archive = true
is_visible_system spam = true
is_visible_system draft = true
is_visible_system scheduled = true
is_visible_system _ = false

-- `compare_system` and `compare_custom`: whether the first may stand before the second.
unfoldable before_system : MailSet → MailSet → Bool
unfolding system_order
before_system a b = leb (system_order a.kind) (system_order b.kind)

unfoldable before_custom : MailSet → MailSet → Bool
before_custom a b = elim (compare a.name b.name) [ Ordering.gt ↦ false | _ ↦ true ]

-- `sort_by`, which is stable.
unfoldable insert_by : (MailSet → MailSet → Bool) → MailSet → List MailSet → List MailSet
insert_by before f [] = f ∷ []
insert_by before f (g ∷ gs) =
    let rest = insert_by before f gs in if before f g then f ∷ g ∷ gs else g ∷ rest

unfoldable sort_by : (MailSet → MailSet → Bool) → List MailSet → List MailSet
unfolding insert_by
sort_by before [] = []
sort_by before (f ∷ fs) = insert_by before f (sort_by before fs)

-- The folders that name the id as their parent, in the order of the list.
unfoldable children_of_id : List MailSet → String → List MailSet
children_of_id folders eid = keep (λ f. names_id eid f.parent_folder) folders

abbrev kids : List MailSet → Option IdTuple → List MailSet
kids folders none = []
kids folders (some id) = sort_by before_custom (children_of_id folders id.element_id)

abbrev trees_of : (MailSet → FolderSubtree) → List MailSet → Subtrees
trees_of make [] = no_trees
trees_of make (f ∷ fs) = tree (make f) (trees_of make fs)

unfoldable make_subtree : ℕ → List MailSet → MailSet → FolderSubtree
unfolding sort_by before_custom children_of_id
make_subtree zero folders parent = subtree parent no_trees
make_subtree (suc fuel) folders parent =
    subtree parent (trees_of (make_subtree fuel folders) (kids folders parent.id))

abbrev is_custom : MailSetKind → Bool
is_custom custom = true
is_custom _ = false

abbrev is_imported : MailSetKind → Bool
is_imported imported = true
is_imported _ = false

abbrev is_top : Option IdTuple → Bool
is_top none = true
is_top (some id) = false

unfoldable new_folder_system : List MailSet → FolderSystem
unfolding is_visible_system sort_by before_system before_custom make_subtree
new_folder_system folders =
    let make = make_subtree (length folders) folders in
    record {
      system_subtrees =
          trees_of make
            (sort_by before_system (keep {A = MailSet} (λ f. is_visible_system f.kind) folders));
      custom_subtrees = trees_of make (
          sort_by before_custom
            (keep {A = MailSet} (λ f. is_custom f.kind && is_top f.parent_folder) folders));
      imported_mail_set = first {A = MailSet} (λ f. is_imported f.kind) folders;
    }
