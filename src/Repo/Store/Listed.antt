-- ===== src/Repo/Store/Listed.antt =====
-- `repos` lists what `repo` finds.
use quire.Prelude.{
  ℕ, ◌≤◌, ◌<◌, ◌≡◌, ◌∙◌, refl, sym, ap, Bool, true, false, ◌||◌, Option, none, some, List, [], ◌∷◌,
  ◌++◌, All, any, length, map, leb, eqb, arith, ◌==◌, ==_iff, ==_refl, bytes_eq, path_eq,
  if◌then◌else◌, if_true, if_false, or_false, eqb_iff, Bool-cases, inl, inr, append-nil,
}
use mathlib.Core.Path.{subst}
use quire.Prelude.Bytes.{Bytes, bytes, contains}
use quire.Prelude.Sorting.{any-order_by}
use quire.Repo.{
  ParsedName, accepted, refused, split, push_byte, is_empty, from_str, Directory, join, walk, path,
  Repo, new, FoundRepo, found, repo_not_found, repo, look_up,
}
use quire.Repo.Names.{below, path-below, from_str-accepted, split-one}
use quire.Repo.Store.{
  FileSystem, is_dir, strip_prefix, slashed, parsed_name, name_below, entry_name, add_name,
  entry_names, by_name, repos, list,
}

-- No component has a slash.
abbrev pub IsPlain : Directory → Type 0
IsPlain = All (λ c. contains b'/' c ≡ false)

split-slash :
    (c s : Bytes) → contains b'/' c ≡ false → split b'/' (c ++ b'/' ∷ s) ≡ c ∷ split b'/' s
unfolding split
split-slash [] s h = refl
split-slash (x ∷ c) s h =
    let (other, rest) = or_false (eqb x b'/') (contains b'/' c) h in
    if_false _ _ _ other ∙ ap (push_byte x) (split-slash c s rest)

pub split-slashed :
    (c : Bytes) (cs : List Bytes) → IsPlain (c ∷ cs) → split b'/' (slashed (c ∷ cs)) ≡ c ∷ cs
unfolding slashed
split-slashed c [] h = split-one b'/' c h.0
split-slashed c (d ∷ cs) h =
    split-slash c (slashed (d ∷ cs)) h.0 ∙ ap (λ (x : List Bytes). c ∷ x) (split-slashed d cs h.1)

slashed-push_byte :
    (x : ℕ) (cs : List Bytes) → (1 ≤ length cs) → slashed (push_byte x cs) ≡ x ∷ slashed cs
unfolding slashed
slashed-push_byte x [] h = absurd (omega (arith, h))
slashed-push_byte x (c ∷ []) h = refl
slashed-push_byte x (c ∷ d ∷ cs) h = refl

length-split : (s : Bytes) → 1 ≤ length (split b'/' s)
unfolding split
length-split [] = omega arith
length-split (x ∷ s) = elim (Bool-cases (eqb x b'/')) [
  | inl e ↦ rw e (omega arith)
  | inr e ↦ rw e (pushed x (split b'/' s))
]
  where
    pushed : (x : ℕ) (cs : List Bytes) → 1 ≤ length (push_byte x cs)
    pushed x [] = omega arith
    pushed x (c ∷ cs) = omega arith

pub slashed-split : (s : Bytes) → slashed (split b'/' s) ≡ s
unfolding split slashed
slashed-split [] = refl
slashed-split (x ∷ s) = elim (Bool-cases (eqb x b'/')) [
  | inl e ↦ rw e (first (split b'/' s) (length-split s) (slashed-split s) ((eqb_iff x b'/').0 e))
  | inr e ↦ rw e (
      slashed-push_byte x (split b'/' s) (length-split s)
      ∙ ap (λ (y : Bytes). x ∷ y) (slashed-split s))
]
  where
    first :
        (cs : List Bytes) → 1 ≤ length cs → slashed cs ≡ s → x ≡ b'/' → slashed ([] ∷ cs) ≡ x ∷ s
    first [] h e sep = absurd (omega (arith, h))
    first (c ∷ cs) h e sep = ap (λ (y : Bytes). b'/' ∷ y) e ∙ ap (λ n. n ∷ s) (sym sep)

bool_eq : (a b : Bool) → (a ≡ true → b ≡ true) → (b ≡ true → a ≡ true) → a ≡ b
bool_eq true b f g = sym (f refl)
bool_eq false b f g = elim (Bool-cases b) [ inl e ↦ g e ∙ sym e | inr e ↦ sym e ]

some-injective : {A : Type 0} {a b : A} → some a ≡ some b → a ≡ b
some-injective h = cc

-- What `strip_prefix` finds leads down to the directory.
pub strip_prefix-below :
    (top d : Directory) (rest cs : List Bytes)
    → strip_prefix top d rest ≡ some cs
    → below top cs ≡ below d rest
unfolding strip_prefix
strip_prefix-below top [] rest cs h = elim (Bool-cases ([] == top)) [
  | inl e ↦
      let same = some-injective (sym (if_true _ _ _ e) ∙ h) in
      ap (below top) (sym same) ∙ ap (λ (t : Directory). below t rest) (sym ((==_iff [] top).0 e))
  | inr e ↦ absurd (ground (arith, sym (if_false ([] == top) (some rest) none e) ∙ h))
]
strip_prefix-below top (c ∷ d) rest cs h = elim (Bool-cases ((c ∷ d) == top)) [
  | inl e ↦
      let same = some-injective (sym (if_true _ _ _ e) ∙ h) in
      ap (below top) (sym same)
      ∙ ap (λ (t : Directory). below t rest) (sym ((==_iff (c ∷ d) top).0 e))
  | inr e ↦ strip_prefix-below top d (c ∷ rest) cs (sym (if_false _ _ _ e) ∙ h)
]

pub strip_prefix-IsPlain :
    (top d : Directory) (rest cs : List Bytes)
    → IsPlain d
    → IsPlain rest
    → strip_prefix top d rest ≡ some cs
    → IsPlain cs
unfolding strip_prefix
strip_prefix-IsPlain top [] rest cs p q h = elim (Bool-cases ([] == top)) [
  | inl e ↦ subst IsPlain (some-injective (sym (if_true _ _ _ e) ∙ h)) q
  | inr e ↦ absurd (ground (arith, sym (if_false ([] == top) (some rest) none e) ∙ h))
]
strip_prefix-IsPlain top (c ∷ d) rest cs p q h = elim (Bool-cases ((c ∷ d) == top)) [
  | inl e ↦ subst IsPlain (some-injective (sym (if_true _ _ _ e) ∙ h)) q
  | inr e ↦ strip_prefix-IsPlain top d (c ∷ rest) cs p.1 (p.0, q) (sym (if_false _ _ _ e) ∙ h)
]

longer-ne : (d top : Directory) → length top < length d → (d == top) ≡ false
longer-ne d top h = elim (Bool-cases (d == top)) [
  | inl e ↦ absurd (omega (arith, h, ap length ((==_iff d top).0 e)))
  | inr e ↦ e
]

pub strip_prefix-top : (top : Directory) (rest : List Bytes) → strip_prefix top top rest ≡ some rest
unfolding strip_prefix
strip_prefix-top [] rest = refl
strip_prefix-top (c ∷ d) rest = if_true _ _ _ (==_refl (c ∷ d))

pub strip_prefix-down :
    (top d : Directory) (xs rest : List Bytes)
    → length top ≤ length d
    → strip_prefix top (below d xs) rest ≡ strip_prefix top d (xs ++ rest)
unfolding strip_prefix
strip_prefix-down top d [] rest h = refl
strip_prefix-down top d (x ∷ xs) rest h =
    strip_prefix-down top (x ∷ d) xs rest (omega (arith, h))
    ∙ if_false _ _ _ (longer-ne (x ∷ d) top (omega (arith, h)))

abbrev names_it : Bytes → Option Bytes → Bool
names_it n none = false
names_it n (some m) = m == n

record Named (n : Bytes) (o : Option (List Bytes)) : Type 0 where
  way : List Bytes
  found_way : o ≡ some way
  text : slashed way ≡ n
  good : from_str n ≡ accepted n

names_it-Named :
    (n : Bytes) (o : Option (List Bytes)) → names_it n (name_below (λ s. s) o) ≡ true → Named n o
names_it-Named n none h = absurd (ground (arith, h))
names_it-Named n (some cs) h = elim (Bool-cases (leb (length cs) 2)) [
  | inl e ↦ parsed (from_str (slashed cs)) refl (ap (names_it n) (sym (if_true _ _ _ e)) ∙ h)
  | inr e ↦ absurd (
      ground (
        arith,
        sym (
              ap (names_it n)
                (if_false (leb (length cs) 2) (parsed_name (from_str (slashed cs))) none e))
            ∙ h,
      ))
]
  where
    parsed :
        (p : ParsedName)
        → from_str (slashed cs) ≡ p
        → names_it n (parsed_name p) ≡ true
        → Named n (some cs)
    parsed (refused err) e k = absurd (ground (arith, k))
    parsed (accepted m) e k =
        let same = (==_iff m n).0 k in
        let is_text = (from_str-accepted (slashed cs) m e).0 ∙ same in
        record {
          way = cs;
          found_way = refl;
          text = is_text;
          good = ap from_str (sym is_text) ∙ e ∙ ap accepted same;
        }

Named-path :
    (base d : Directory) (n : Bytes)
    → IsPlain d
    → Named n (strip_prefix (bytes "repos" ∷ base) d [])
    → d ≡ path (new (bytes "repos" ∷ base) n)
unfolding slashed from_str is_empty
Named-path base d n p w = by w.way w.found_way w.text
  where
    by :
        (cs : List Bytes)
        → strip_prefix (bytes "repos" ∷ base) d [] ≡ some cs
        → slashed cs ≡ n
        → d ≡ path (new (bytes "repos" ∷ base) n)
    by [] e t = absurd (ground (arith, ap from_str t ∙ w.good))
    by (c ∷ cs) e t =
        sym (strip_prefix-below (bytes "repos" ∷ base) d [] (c ∷ cs) e)
        ∙ ap (below (bytes "repos" ∷ base)) (
            sym (split-slashed c cs (strip_prefix-IsPlain _ d [] (c ∷ cs) p tt e))
            ∙ ap (split b'/') t)
        ∙ sym (path-below base n n w.good).0

name_below-few :
    (cs : List Bytes) (n : Bytes)
    → length cs ≤ 2
    → slashed cs ≡ n
    → from_str n ≡ accepted n
    → names_it n (name_below (λ s. s) (some cs)) ≡ true
name_below-few cs n few t good =
    ap (names_it n) (
      if_true (leb (length cs) 2) _ none (ground (arith, few))
      ∙ ap (λ (x : Bytes). parsed_name (from_str x)) t
      ∙ ap parsed_name good)
    ∙ ==_refl n

entry_name-path :
    (base : Directory) (n : Bytes)
    → from_str n ≡ accepted n
    → names_it n (entry_name (λ s. s) (bytes "repos" ∷ base) (path (new (bytes "repos" ∷ base) n)))
      ≡ true
entry_name-path base n good =
    let top = bytes "repos" ∷ base in
    let (at, _, few, _, _) = path-below base n n good in
    ap (λ (o : Option (List Bytes)). names_it n (name_below (λ s. s) o))
      (ap (λ (d : Directory). strip_prefix top d []) at
        ∙ strip_prefix-down top top (split b'/' n) [] (omega arith)
        ∙ strip_prefix-top top (split b'/' n ++ [])
        ∙ ap some (append-nil (split b'/' n)))
    ∙ name_below-few (split b'/' n) n few (slashed-split n) good

-- an entry has the name exactly if it is the repository's directory
entry_name_iff :
    (base d : Directory) (n : Bytes)
    → IsPlain d
    → from_str n ≡ accepted n
    → names_it n (entry_name (λ s. s) (bytes "repos" ∷ base) d)
      ≡ (d == path (new (bytes "repos" ∷ base) n))
entry_name_iff base d n p good =
    bool_eq _ _ (λ h. (==_iff d _).1 (Named-path base d n p (names_it-Named n _ h)))
      (λ h.
        ap (λ (x : Directory). names_it n (entry_name (λ s. s) (bytes "repos" ∷ base) x))
          ((==_iff d _).0 h)
        ∙ entry_name-path base n good)

any-map :
    {A B : Type 0} (p : B → Bool) (f : A → B) (xs : List A)
    → any p (map f xs) ≡ any (λ x. p (f x)) xs
any-map p f [] = refl
any-map p f (x ∷ xs) = ap (λ b. p (f x) || b) (any-map p f xs)

any-add_name :
    (n : Bytes) (o : Option Bytes) (ns : List Bytes)
    → any (λ m. m == n) (add_name o ns) ≡ (names_it n o || any (λ m. m == n) ns)
any-add_name n none ns = refl
any-add_name n (some m) ns = refl

any-entry_names :
    (lossy : Bytes → Bytes) (top : Directory) (n : Bytes) (fs : FileSystem)
    → any (λ m. m == n) (entry_names lossy top fs)
      ≡ any (λ d. names_it n (entry_name lossy top d)) fs
any-entry_names lossy top n [] = refl
any-entry_names lossy top n (d ∷ fs) =
    any-add_name n (entry_name lossy top d) _
    ∙ ap (λ b. names_it n (entry_name lossy top d) || b) (any-entry_names lossy top n fs)

any-same :
    {A : Type 0} (p q : A → Bool) (P : A → Type 0) (xs : List A)
    → ((x : A) → P x → p x ≡ q x)
    → All P xs
    → any p xs ≡ any q xs
any-same p q P [] h a = refl
any-same p q P (x ∷ xs) h a =
    ap (λ b. b || any p xs) (h x a.0) ∙ ap (λ b. q x || b) (any-same p q P xs h a.1)

abbrev pub is_found : FoundRepo → Bool
is_found (found r) = true
is_found _ = false

any-none : {A : Type 0} (p : A → Bool) (xs : List A) → ((x : A) → p x ≡ false) → any p xs ≡ false
any-none p [] h = refl
any-none p (x ∷ xs) h = ap (λ b. b || any p xs) (h x) ∙ any-none p xs h

is_found-if :
    (b : Bool) (r : Repo) (n : Bytes) → b ≡ is_found (if b then found r else repo_not_found n)
is_found-if true r n = refl
is_found-if false r n = refl

join-repos : (base : Directory) → join base (bytes "repos") ≡ bytes "repos" ∷ base
unfolding join walk split is_empty
join-repos base = refl

list-entry_names :
    (lossy : Bytes → Bytes) (fs : FileSystem) (base : Directory) (n : Bytes)
    → any (λ m. m == n) (list lossy fs base)
      ≡ any (λ d. names_it n (entry_name lossy (bytes "repos" ∷ base) d)) fs
unfolding list repos new
list-entry_names lossy fs base n =
    let top = bytes "repos" ∷ base in
    any-map (λ m. m == n) (λ (r : Repo). r.name) _
    ∙ any-order_by (λ (r : Repo). r.name == n) by_name _
    ∙ any-map (λ (r : Repo). r.name == n) (new (join base (bytes "repos"))) _
    ∙ ap (λ (t : Directory). any (λ m. m == n) (entry_names lossy t fs)) (join-repos base)
    ∙ any-entry_names lossy top n fs

-- `to_string_lossy` leaves the way from one directory down to another as it is.
abbrev pub IsUtf8 : (Bytes → Bytes) → Directory → Directory → Type 0
IsUtf8 lossy top d =
    (cs : List Bytes) → strip_prefix top d [] ≡ some cs → lossy (slashed cs) ≡ slashed cs

name_below-lossy :
    (lossy : Bytes → Bytes) (o : Option (List Bytes))
    → ((cs : List Bytes) → o ≡ some cs → lossy (slashed cs) ≡ slashed cs)
    → name_below lossy o ≡ name_below (λ s. s) o
name_below-lossy lossy none h = refl
name_below-lossy lossy (some cs) h =
    ap (λ (x : Bytes). if leb (length cs) 2 then parsed_name (from_str x) else none) (h cs refl)

-- When no component of a directory has a slash, and the paths of all directories below `repos` are
-- UTF-8, `quire repo list` prints a name exactly if `Quire::repo` finds a repository by it.
pub list-repo :
    (lossy : Bytes → Bytes) (fs : FileSystem) (base : Directory) (n : Bytes)
    → All IsPlain fs
    → All (IsUtf8 lossy (bytes "repos" ∷ base)) fs
    → any (λ m. m == n) (list lossy fs base) ≡ is_found (repo (is_dir fs) base n)
unfolding repo look_up is_dir
list-repo lossy fs base n plain utf8 =
    list-entry_names lossy fs base n
    ∙ any-same _ _ (IsUtf8 lossy (bytes "repos" ∷ base)) fs
        (λ d u. ap (names_it n) (name_below-lossy lossy _ u)) utf8
    ∙ by (from_str n) refl
  where
    by :
        (p : ParsedName)
        → from_str n ≡ p
        → any (λ d. names_it n (entry_name (λ s. s) (bytes "repos" ∷ base) d)) fs
          ≡ is_found (look_up (is_dir fs) base p)
    by (refused e) h = any-none _ fs (λ d.
        elim (Bool-cases (names_it n (entry_name (λ s. s) (bytes "repos" ∷ base) d))) [
          | inl k ↦ absurd (
              ground (
                arith,
                sym (names_it-Named n (strip_prefix (bytes "repos" ∷ base) d []) k).good ∙ h,
              ))
          | inr k ↦ k
        ])
    by (accepted m) h =
        let same = (from_str-accepted n m h).0 in
        any-same _ _ IsPlain fs (λ d p. entry_name_iff base d n p (h ∙ ap accepted (sym same)))
          plain
        ∙ ap (λ (t : Directory). is_dir fs (path (new t n))) (sym (join-repos base))
        ∙ is_found-if (is_dir fs (path (new (join base (bytes "repos")) n)))
            (new (join base (bytes "repos")) n) n
        ∙ ap (λ (x : Bytes). is_found (look_up (is_dir fs) base (accepted x))) same
