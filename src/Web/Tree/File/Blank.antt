-- ===== src/Web/Tree/File/Blank.antt =====
-- The page of a file without a visible character.
use quire.Prelude.{ℕ, ◌≡◌, ◌∙◌, refl, ap, true, Option, none, some, List, [], ◌∷◌, ◌++◌, all}
use quire.Prelude.Bytes.{Bytes, bytes}
use quire.Push.Hook.{is_whitespace}
use quire.Web.Git.Outputs.{run_git-blank, run_git-none}
use quire.Web.Tree.{read_tree_data, tree_data}
use quire.Web.Tree.File.{
  not_found, file_or_404, page_of, from_outputs, at_head, read_file_data, tree_or_file,
}

read_file_data-blank :
    (git : List Bytes → Option Bytes) (path blob : Bytes)
    → git (bytes "show" ∷ (bytes "HEAD:" ++ path) ∷ []) ≡ some blob
    → all is_whitespace blob ≡ true
    → read_file_data git path ≡ none
unfolding read_file_data from_outputs at_head
read_file_data-blank git path blob h b = rw (run_git-blank git _ blob h b) refl

no_tree :
    (git : List Bytes → Option Bytes) (c : ℕ) (path : Bytes)
    → git (bytes "ls-tree" ∷ (bytes "HEAD:" ++ c ∷ path) ∷ []) ≡ none
    → read_tree_data git (c ∷ path) ≡ none
unfolding read_tree_data tree_data
no_tree git c path h = ap (tree_data git (c ∷ path)) (run_git-none git _ h)

-- A path that git lists no directory for, and for which it shows a text that is empty or all white
-- space, is answered with 404, although the file is there.
pub tree_or_file-blank :
    (git : List Bytes → Option Bytes) (repo_display path : Bytes) (c : ℕ) (blob : Bytes)
    → git (bytes "ls-tree" ∷ (bytes "HEAD:" ++ c ∷ path) ∷ []) ≡ none
    → git (bytes "show" ∷ (bytes "HEAD:" ++ c ∷ path) ∷ []) ≡ some blob
    → all is_whitespace blob ≡ true
    → tree_or_file git repo_display (c ∷ path) ≡ not_found
unfolding tree_or_file page_of
tree_or_file-blank git repo_display path c blob l h b =
    ap (page_of git repo_display (c ∷ path)) (no_tree git c path l)
    ∙ ap (file_or_404 repo_display) (read_file_data-blank git (c ∷ path) blob h b)
