-- ===== src/Web/Commit.antt =====
-- The page of a commit: quire-server/src/quire/web/handlers/commit.rs, up to the template. Git is
-- an argument, as in `Git`; `git rev-parse` and `git log` are called with the text of the URL.
pub mod Parsed
use quire.Prelude.{
  ℕ, zero, suc, ◌+◌, ◌*◌, ◌-◌, Bool, Option, none, some, List, [], ◌∷◌, ◌++◌, length, eqb, leb, ltb,
  if◌then◌else◌,
}
use quire.Prelude.Bytes.{Bytes, bytes}
use quire.Prelude.Int.{ℤ, pos, negsuc}
use quire.Push.Hook.{split_whitespace}
use quire.Repo.{Directory, FoundRepo, found, resolve_repo_name, repo}
use quire.Web.Pages.{CommitId, SectionLink, nav_sections, or_else, skip_min, trim_end}
use quire.Web.Git.{run_git, str_lines, first_or_empty, rest_of, change_id, commit_id}

pub record CommitParent : Type 0 where
  pub id : CommitId
  pub commit_url : Bytes

-- What is read of the lines of `%H%n%P%n%s%n%b%n%an%n%ae%n%at`.
pub record CommitFields : Type 0 where
  pub sha : Bytes
  pub parents : Bytes
  pub subject : Bytes
  pub body : Bytes
  pub author : Bytes
  pub email : Bytes
  pub timestamp_ms : ℤ

pub record CommitPage : Type 0 where
  pub sections : List SectionLink
  pub repo : Bytes
  pub short : Bytes
  pub sha_head : Bytes
  pub sha_tail : Bytes
  pub fields : CommitFields
  pub parents : List CommitParent
  pub diff : Bytes
  pub change_id_shown : Bytes

-- `[T]::join` with a newline
abbrev pub join_lines : List Bytes → Bytes
join_lines [] = []
join_lines (l ∷ []) = l
join_lines (l ∷ m ∷ ls) = l ++ 10 ∷ join_lines (m ∷ ls)

-- The value of digits below a bound, after what was read of them.
abbrev pub digits_below : ℕ → ℕ → Bytes → Option ℕ
digits_below bound n [] = if ltb n bound then some n else none
digits_below bound n (c ∷ s) =
    let rest = digits_below bound (n * 10 + (c - b'0')) s in
    if ltb c b'0' then none else if ltb b'9' c then none else rest

-- A number without sign, and one behind a minus, as thousandths.
abbrev pub millis_of : Option ℕ → Option ℤ
millis_of none = none
millis_of (some n) = some (pos (n * 1000))

abbrev pub minus_millis_of : Option ℕ → Option ℤ
minus_millis_of none = none
minus_millis_of (some zero) = some (pos 0)
minus_millis_of (some (suc n)) = some (negsuc (n * 1000 + 999))

-- `str::parse` of an `i64`, times 1000; git's times are far below the bounds of the product.
unfoldable pub parse_secs : Bytes → Option ℤ
parse_secs [] = none
parse_secs (c ∷ []) = millis_of (digits_below 9223372036854775808 0 (c ∷ []))
parse_secs (c ∷ d ∷ s) =
    if eqb c b'+'
    then millis_of (digits_below 9223372036854775808 0 (d ∷ s))
    else if eqb c b'-'
    then minus_millis_of (digits_below 9223372036854775809 0 (d ∷ s))
    else millis_of (digits_below 9223372036854775808 0 (c ∷ d ∷ s))

with_time : Bytes → Bytes → Bytes → List Bytes → Bytes → Bytes → Option ℤ → Option CommitFields
with_time sha parents subject body author email none = none
with_time sha parents subject body author email (some ms) = some (record {
  sha = sha;
  parents = parents;
  subject = subject;
  body = join_lines body;
  author = author;
  email = email;
  timestamp_ms = ms;
})

-- The lines behind the subject: those before the last three are the body.
unfoldable pub from_rest : Bytes → Bytes → Bytes → List Bytes → List Bytes → Option CommitFields
unfolding with_time
from_rest sha parents subject body (author ∷ email ∷ time ∷ []) =
    with_time sha parents subject body author email (parse_secs time)
from_rest sha parents subject body (l ∷ m ∷ n ∷ o ∷ ls) =
    from_rest sha parents subject (body ++ l ∷ []) (m ∷ n ∷ o ∷ ls)
from_rest sha parents subject body _ = none

unfoldable pub commit_fields : List Bytes → Option CommitFields
unfolding from_rest
commit_fields [] = none
commit_fields (sha ∷ ls) =
    from_rest sha (first_or_empty ls) (first_or_empty (rest_of ls)) [] (rest_of (rest_of ls))

abbrev pub info_args_of : Bytes → List Bytes
info_args_of full_sha =
    bytes "log" ∷ bytes "-1" ∷ bytes "--format=%H%n%P%n%s%n%b%n%an%n%ae%n%at" ∷ full_sha ∷ []

abbrev pub diff_args : Bytes → List Bytes
diff_args full_sha = bytes "log" ∷ bytes "-1" ∷ bytes "--patch" ∷ bytes "--format=" ∷ full_sha ∷ []

-- The id for the badge: the change id if there is one.
abbrev pub nav_id : Bytes → Bytes → Bytes
nav_id sha [] = sha
nav_id sha (c ∷ change) = c ∷ change

fields_of : Option Bytes → Option CommitFields
fields_of none = none
fields_of (some info) = commit_fields (str_lines info)

-- `not_found` is answered with 404, and a panic with nothing.
pub data CommitAnswer : Type 0 where
  not_found panicked : CommitAnswer
  shown : CommitPage → CommitAnswer
  no_repo : FoundRepo → CommitAnswer

-- The bytes of a character in UTF-8.
abbrev pub len_utf8 : ℕ → ℕ
len_utf8 c = if ltb c 128 then 1 else if ltb c 2048 then 2 else if ltb c 65536 then 3 else 4

abbrev cons_cut : ℕ → Option Bytes → Option Bytes
cons_cut c none = none
cons_cut c (some s) = some (c ∷ s)

-- `&s[..s.len().min(n)]` in bytes: a place within a character panics.
unfoldable pub cut : ℕ → Bytes → Option Bytes
cut n [] = some []
cut n (c ∷ s) =
    let rest = cons_cut c (cut (n - len_utf8 c) s) in
    if eqb n 0 then some [] else if leb (len_utf8 c) n then rest else none

module _ (git : List Bytes → Option Bytes) where
  abbrev pub full_sha : Bytes → Bytes
  full_sha sha = or_else (run_git git (bytes "rev-parse" ∷ sha ∷ [])) sha

  parent_links : Bytes → List Bytes → List CommitParent
  parent_links repo_display [] = []
  parent_links repo_display (p ∷ ps) =
      record { id = commit_id git p; commit_url = b'/' ∷ (repo_display ++ bytes "/commits/" ++ p) }
      ∷ parent_links repo_display ps

  -- The page, from what is cut of its ids.
  with_ids :
      Bytes
      → Bool
      → Bytes
      → CommitFields
      → Bytes
      → Option Bytes
      → Option Bytes
      → Option Bytes
      → CommitAnswer
  unfolding parent_links
  with_ids repo_display authed full f change (some short) (some head) (some eight) = shown (record {
    sections = nav_sections repo_display (bytes "log") authed;
    repo = repo_display;
    short = short;
    sha_head = head;
    sha_tail = skip_min (length head) eight;
    fields = f;
    parents = parent_links repo_display (split_whitespace f.parents);
    diff = or_else (run_git git (diff_args full)) [];
    change_id_shown = change;
  })
  with_ids repo_display authed full f change _ _ _ = panicked

  page_from : Bytes → Bool → Bytes → Option CommitFields → CommitAnswer
  unfolding with_ids
  page_from repo_display authed full none = not_found
  page_from repo_display authed full (some f) =
      let change = or_else (change_id git full) [] in
      let nav = nav_id f.sha change in
      with_ids repo_display authed full f change (cut 8 f.sha) (cut 4 nav) (cut 8 nav)

  -- What is answered for a repository that is there.
  unfoldable pub commit_page : Bytes → Bytes → Bool → CommitAnswer
  unfolding page_from fields_of
  commit_page repo_display sha authed =
      page_from repo_display authed (full_sha sha)
        (fields_of (run_git git (info_args_of (full_sha sha))))

module _ (is_dir : Directory → Bool) (base_dir : Directory) (git : List Bytes → Option Bytes) where
  view_in : Bytes → Bytes → Bool → FoundRepo → CommitAnswer
  view_in name sha authed (found r) = commit_page git (trim_end (bytes ".git") name) sha authed
  view_in name sha authed o = no_repo o

  -- Git runs in the repository that is found.
  unfoldable pub commit_view : Bytes → Bytes → Bool → CommitAnswer
  unfolding view_in
  commit_view name sha authed =
      view_in name sha authed (repo is_dir base_dir (resolve_repo_name name))
