-- ===== src/Finding/FilePath.antt =====
-- internal/finding/path.go: canonical repository-relative paths; and `filepath.Clean` of the
-- standard library on the supported platform, where `ToSlash` is the identity.
use togi.Prelude.{ℕ, ◌≡◌, refl, Bool, false, ◌&&◌, ◌||◌, List, [], ◌∷◌, leb, ◌==◌, if◌then◌else◌}
use mathlib.Core.List.{reverse}
use togi.Text.{Bytes, ascii, bytes_eqb, is_empty, has_prefix}
use togi.Text.Space.{is_blank, join}
use togi.Text.Split.{split}

abbrev pub dot : Bytes
dot = ascii "."

abbrev pub dotdot : Bytes
dotdot = ascii ".."

-- One component of a path, onto the components kept so far, the last first.
unfoldable pub clean_step : Bool → List Bytes → Bytes → List Bytes
unfolding bytes_eqb
clean_step rooted kept c =
    if is_empty c || bytes_eqb c dot
    then kept
    else if bytes_eqb c dotdot
    then elim kept [
      | [] ↦ if rooted then [] else dotdot ∷ []
      | last ∷ before ↦ if bytes_eqb last dotdot then dotdot ∷ last ∷ before else before
    ]
    else c ∷ kept

unfoldable pub clean_components : Bool → List Bytes → List Bytes → List Bytes
unfolding clean_step
clean_components rooted kept [] = kept
clean_components rooted kept (c ∷ cs) = clean_components rooted (clean_step rooted kept c) cs

-- filepath.Clean
unfoldable pub clean_path : Bytes → Bytes
unfolding clean_components join split has_prefix
clean_path path =
    let rooted = has_prefix path (ascii "/") in
    let body = join (ascii "/") (reverse (clean_components rooted [] (split b'/' path))) in
    if rooted then b'/' ∷ body else if is_empty body then dot else body

clean_test : clean_path (ascii "a/./b//../c/") ≡ ascii "a/c"
unfolding clean_path
clean_test = refl

clean_up_test : clean_path (ascii "a/../../x") ≡ ascii "../x"
unfolding clean_path
clean_up_test = refl

clean_empty_test : clean_path [] ≡ ascii "."
unfolding clean_path
clean_empty_test = refl

clean_root_test : clean_path (ascii "/../a") ≡ ascii "/a"
unfolding clean_path
clean_root_test = refl

pub data PathError : Type 0 where
  path_empty path_not_relative path_traversal path_outside : PathError

pub data PathResult : Type 0 where
  minted : Bytes → PathResult
  refused : PathError → PathResult

-- strings.ReplaceAll(path, `\`, "/")
unfoldable pub portable : Bytes → Bytes
portable [] = []
portable (c ∷ s) = (if c == 0x5C then b'/' else c) ∷ portable s

abbrev ascii_letter : ℕ → Bool
ascii_letter c = leb b'a' c && leb c b'z' || leb b'A' c && leb c b'Z'

unfoldable pub is_windows_absolute : Bytes → Bool
is_windows_absolute (a ∷ b ∷ c ∷ _) = ascii_letter a && (b == b':' && c == b'/')
is_windows_absolute _ = false

unfoldable pub has_dotdot : List Bytes → Bool
unfolding bytes_eqb
has_dotdot [] = false
has_dotdot (c ∷ cs) = bytes_eqb c dotdot || has_dotdot cs

unfoldable pub parse_path : Bytes → PathResult
unfolding is_blank portable has_prefix is_windows_absolute has_dotdot split clean_path
parse_path path =
    if is_blank path
    then refused path_empty
    else if has_prefix path (ascii "/")
        || has_prefix (portable path) (ascii "/")
        || is_windows_absolute (portable path)
    then refused path_not_relative
    else if has_dotdot (split b'/' (portable path))
    then refused path_traversal
    else minted (clean_path path)

parse_path_test : parse_path (ascii "internal//run/./a.go") ≡ minted (ascii "internal/run/a.go")
unfolding parse_path
parse_path_test = refl

parse_path_windows_test : parse_path (ascii "C:\\x") ≡ refused path_not_relative
unfolding parse_path
parse_path_windows_test = refl

parse_path_traversal_test : parse_path (ascii "a\\..\\b") ≡ refused path_traversal
unfolding parse_path
parse_path_traversal_test = refl
