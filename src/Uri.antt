-- ===== src/Uri.antt =====
-- The URIs of files: flutelib/uri.h and flutelib/uri.c. A string is the list of its characters, a
-- pointer into the copied string the rest from there on, and a field that is NULL is `none`;
-- allocations succeed. The classes of characters are those of the C locale.
pub mod RoundTrip
pub mod FileName
mod Tests
use route.Base.{
  ℕ, ◌+◌, Bool, true, false, ◌&&◌, ◌||◌, Option, none, some, List, [], ◌∷◌, ◌++◌, map, leb, ◌==◌,
  if◌then◌else◌,
}
use route.Text.{equal, skip_space, split_at}

-- `uri_t`
pub record Uri : Type 0 where
  pub scheme : Option (List ℕ)
  pub host : Option (List ℕ)
  pub port : Option (List ℕ)
  pub path : Option (List ℕ)
  pub params : Option (List ℕ)
  pub query : Option (List ℕ)
  pub frag : Option (List ℕ)
  pub user : Option (List ℕ)
  pub passwd : Option (List ℕ)

abbrev pub alloc_uri_struct : Uri
alloc_uri_struct = record {
  scheme = none;
  host = none;
  port = none;
  path = none;
  params = none;
  query = none;
  frag = none;
  user = none;
  passwd = none;
}

unfoldable pub is_scheme_char : ℕ → Bool
is_scheme_char c =
    leb b'a' c && leb c b'z'
    || leb b'A' c && leb c b'Z'
    || leb b'0' c && leb c b'9'
    || c == b'+'
    || c == b'-'
    || c == b'.'

unfoldable pub tolower : ℕ → ℕ
tolower c = if leb b'A' c && leb c b'Z' then c + 32 else c

-- The characters that a scheme can have, and the rest.
unfoldable pub scheme_chars : List ℕ → List ℕ × List ℕ
unfolding is_scheme_char
scheme_chars [] = ([], [])
scheme_chars (c ∷ cs) =
    let (s, rest) = scheme_chars cs in if is_scheme_char c then (c ∷ s, rest) else ([], c ∷ cs)

abbrev pub scheme_found : Uri → List ℕ → List ℕ × List ℕ → Uri × List ℕ
scheme_found uri uri_pointer (s, []) = (uri, uri_pointer)
scheme_found uri uri_pointer ([], d ∷ rest) = (uri, uri_pointer)
scheme_found uri uri_pointer (c ∷ s, d ∷ rest) =
    if d == b':'
    then (record uri { scheme = some (map tolower (c ∷ s)) }, rest)
    else (uri, uri_pointer)

unfoldable pub parse_scheme : Uri → List ℕ → Uri × List ℕ
unfolding skip_space scheme_chars tolower
parse_scheme uri uri_pointer = scheme_found uri uri_pointer (scheme_chars (skip_space uri_pointer))

abbrev pub with_user : Uri → List ℕ → Option (List ℕ × List ℕ) → Uri
with_user uri start none = record uri { user = some start }
with_user uri start (some (user, passwd)) = record uri { user = some user; passwd = some passwd }

abbrev pub userinfo_found : Uri → List ℕ → Option (List ℕ × List ℕ) → Uri × List ℕ
userinfo_found uri start none = (uri, start)
userinfo_found uri start (some (info, rest)) = (with_user uri info (split_at b':' info), rest)

unfoldable pub parse_userinfo : Uri → List ℕ → Uri × List ℕ
parse_userinfo uri uri_pointer = userinfo_found uri uri_pointer (split_at b'@' uri_pointer)

abbrev pub hostport_found : Uri → List ℕ → Option (List ℕ × List ℕ) → Uri
hostport_found uri start none = record uri { host = some start }
hostport_found uri start (some (host, port)) = record uri { host = some host; port = some port }

unfoldable pub parse_hostport : Uri → List ℕ → Uri
parse_hostport uri uri_pointer = hostport_found uri uri_pointer (split_at b':' uri_pointer)

abbrev pub after_slash : List ℕ → Option (List ℕ)
after_slash [] = none
after_slash (c ∷ cs) = if c == b'/' then some cs else none

abbrev pub authority : Uri → List ℕ → Uri
authority uri userinfo =
    let (uri', hostport) = parse_userinfo uri userinfo in parse_hostport uri' hostport

-- The URI and the pointer, which is `none` behind the 0 of the string.
abbrev pub authority_found : Uri → List ℕ → Option (List ℕ × List ℕ) → Uri × Option (List ℕ)
authority_found uri start none = (authority uri start, none)
authority_found uri start (some (info, path)) = (authority uri info, some path)

abbrev pub two_slashes : Uri → List ℕ → Option (List ℕ) → Uri × Option (List ℕ)
two_slashes uri start none = authority_found uri start (split_at b'/' start)
two_slashes uri start (some path) = (uri, some path)

abbrev pub one_slash : Uri → List ℕ → Option (List ℕ) → Uri × Option (List ℕ)
one_slash uri start none = (uri, some start)
one_slash uri start (some rest) = two_slashes uri rest (after_slash rest)

abbrev pub no_slash : Uri → List ℕ → Option (List ℕ) → Uri × Option (List ℕ)
no_slash uri start none = (uri, some start)
no_slash uri start (some rest) = one_slash uri start (after_slash rest)

unfoldable pub parse_authority : Uri → List ℕ → Uri × Option (List ℕ)
unfolding parse_userinfo parse_hostport
parse_authority uri uri_pointer = no_slash uri uri_pointer (after_slash uri_pointer)

-- `parse_path` and, if it finds one, `parse_frag`.
abbrev pub path_found : Uri → List ℕ → Option (List ℕ × List ℕ) → Uri
path_found uri start none = record uri { path = some start }
path_found uri start (some (path, frag)) = record uri { path = some path; frag = some frag }

unfoldable pub parse_path : Uri → List ℕ → Uri
parse_path uri uri_pointer = path_found uri uri_pointer (split_at b'#' uri_pointer)

abbrev pub path_behind : Uri × Option (List ℕ) → Option Uri
path_behind (uri, none) = none
path_behind (uri, some uri_pointer) = some (parse_path uri uri_pointer)

-- `none` reads behind the end of the copied string.
unfoldable pub parse_uri : List ℕ → Option Uri
unfolding parse_scheme parse_authority parse_path
parse_uri uri_string =
    let (uri, uri_pointer) = parse_scheme alloc_uri_struct uri_string in
    if equal uri_pointer uri_string
    then some (parse_path uri uri_pointer)
    else path_behind (parse_authority uri uri_pointer)

-- A part that is there, behind its mark.
abbrev pub part : List ℕ → Option (List ℕ) → List ℕ
part mark none = []
part mark (some text) = mark ++ text

abbrev pub file_scheme : List ℕ
file_scheme = b'f' ∷ b'i' ∷ b'l' ∷ b'e' ∷ []

-- `none` compares a scheme that is NULL.
abbrev pub with_scheme : Uri → Option (List ℕ) → Option (List ℕ)
with_scheme uri none = none
with_scheme uri (some scheme) = some (
    scheme
    ++ b':'
      ∷ b'/'
      ∷ b'/'
      ∷ (if equal scheme file_scheme
          then part [] uri.host ++ (part (b':' ∷ []) uri.port ++ part (b'/' ∷ []) uri.path)
          else []))

unfoldable pub uri_string : Uri → Option (List ℕ)
uri_string uri = with_scheme uri uri.scheme

-- `none` takes the length of a path that is NULL.
abbrev pub host_and : Option (List ℕ) → Option (List ℕ) → Option (List ℕ)
host_and host none = none
host_and none (some path) = some path
host_and (some host) (some path) = some (host ++ b'/' ∷ path)

unfoldable pub get_uri_host_and_path : Uri → Option (List ℕ)
get_uri_host_and_path uri = host_and uri.host uri.path
