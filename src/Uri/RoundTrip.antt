-- ===== src/Uri/RoundTrip.antt =====
-- `uri_string` and `parse_uri`: what comes back, and what is read where there is no path.
use route.Base.{
  ℕ, ◌≡◌, ◌≢◌, refl, arith, ap, sym, ◌∙◌, false, Option, none, some, List, [], ◌∷◌, ◌++◌,
  Bool-cases, inl, inr,
}
use mathlib.Core.List.{append-nil, append_assoc}
use route.Text.{equal, split_at, Without, equal-length, split_at-found, split_at-none}
use route.Uri.{
  Uri, alloc_uri_struct, parse_scheme, parse_userinfo, userinfo_found, parse_hostport,
  hostport_found, authority, authority_found, after_slash, two_slashes, parse_authority, path_found,
  parse_path, path_behind, parse_uri, part, file_scheme, uri_string,
}

abbrev pub of_file : Uri
of_file = record alloc_uri_struct { scheme = some file_scheme }

abbrev pub behind_scheme : List ℕ → List ℕ
behind_scheme text = file_scheme ++ b':' ∷ b'/' ∷ b'/' ∷ text

file_parsed :
    (text : List ℕ)
    → parse_scheme alloc_uri_struct (behind_scheme text) ≡ (of_file, b'/' ∷ b'/' ∷ text)
unfolding parse_scheme
file_parsed text = refl

shorter : (text : List ℕ) → equal (b'/' ∷ b'/' ∷ text) (behind_scheme text) ≡ false
shorter text = elim (Bool-cases (equal (b'/' ∷ b'/' ∷ text) (behind_scheme text))) [
  | inl e ↦ absurd (omega (arith, equal-length (b'/' ∷ b'/' ∷ text) (behind_scheme text) e))
  | inr e ↦ e
]

parse_uri-file :
    (text : List ℕ)
    → parse_uri (behind_scheme text) ≡ path_behind (parse_authority of_file (b'/' ∷ b'/' ∷ text))
unfolding parse_uri
parse_uri-file text = rw (shorter text, parse_uri) refl

after_other : (c : ℕ) (cs : List ℕ) → c ≢ b'/' → after_slash (c ∷ cs) ≡ none
after_other c cs ne = ground arith

-- The authority ends at the slash.
parse_authority-slash :
    (uri : Uri) (c : ℕ) (cs path : List ℕ)
    → Without b'/' (c ∷ cs)
    → parse_authority uri (b'/' ∷ b'/' ∷ c ∷ cs ++ b'/' ∷ path)
      ≡ (authority uri (c ∷ cs), some path)
unfolding parse_authority
parse_authority-slash uri c cs path w =
    ap (two_slashes uri (c ∷ cs ++ b'/' ∷ path)) (after_other c (cs ++ b'/' ∷ path) w.0)
    ∙ ap (authority_found uri (c ∷ cs ++ b'/' ∷ path)) (split_at-found b'/' (c ∷ cs) path w)

parse_authority-end :
    (uri : Uri) (c : ℕ) (cs : List ℕ)
    → Without b'/' (c ∷ cs)
    → parse_authority uri (b'/' ∷ b'/' ∷ c ∷ cs) ≡ (authority uri (c ∷ cs), none)
unfolding parse_authority
parse_authority-end uri c cs w =
    ap (two_slashes uri (c ∷ cs)) (after_other c cs w.0)
    ∙ ap (authority_found uri (c ∷ cs)) (split_at-none b'/' (c ∷ cs) w)

no_user : (text : List ℕ) → Without b'@' text → parse_userinfo of_file text ≡ (of_file, text)
unfolding parse_userinfo
no_user text w = ap (userinfo_found of_file text) (split_at-none b'@' text w)

-- What `uri_string` writes of the host and the port, and what is read of it.
abbrev pub hostport : List ℕ → Option (List ℕ) → List ℕ
hostport host port = host ++ part (b':' ∷ []) port

hostport-parsed :
    (host : List ℕ) (port : Option (List ℕ))
    → Without b':' host
    → parse_hostport of_file (hostport host port) ≡ record of_file { host = some host; port = port }
unfolding parse_hostport
hostport-parsed host none w =
    ap (λ t. hostport_found of_file t (split_at b':' t)) (append-nil host)
    ∙ ap (hostport_found of_file host) (split_at-none b':' host w)
hostport-parsed host (some port) w =
    ap (hostport_found of_file (host ++ b':' ∷ port)) (split_at-found b':' host port w)

authority-parsed :
    (host : List ℕ) (port : Option (List ℕ))
    → Without b':' host
    → Without b'@' (hostport host port)
    → authority of_file (hostport host port) ≡ record of_file { host = some host; port = port }
authority-parsed host port w u =
    ap (λ (p : Uri × List ℕ). parse_hostport p.0 p.1) (no_user (hostport host port) u)
    ∙ hostport-parsed host port w

path-parsed :
    (uri : Uri) (path : List ℕ)
    → Without b'#' path
    → parse_path uri path ≡ record uri { path = some path }
unfolding parse_path
path-parsed uri path w = ap (path_found uri path) (split_at-none b'#' path w)

-- A host and a port that can be told apart again, and from the path: neither, or a host that is
-- not empty, with a port or without one.
abbrev pub IsAuthority : Option (List ℕ) → Option (List ℕ) → Type 0
IsAuthority none none = Unit
IsAuthority none (some port) = ⊥
IsAuthority (some []) port = ⊥
IsAuthority (some (c ∷ cs)) port =
    Without b'/' (hostport (c ∷ cs) port)
    × Without b':' (c ∷ cs)
    × Without b'@' (hostport (c ∷ cs) port)

abbrev pub file_uri : Option (List ℕ) → Option (List ℕ) → Option (List ℕ) → Uri
file_uri host port path = record of_file { host = host; port = port; path = path }

abbrev pub read_back : Option (List ℕ) → Option Uri
read_back none = none
read_back (some text) = parse_uri text

pub parse_uri-local :
    (path : List ℕ)
    → Without b'#' path
    → parse_uri (behind_scheme (b'/' ∷ path)) ≡ some (file_uri none none (some path))
unfolding parse_authority
parse_uri-local path w = parse_uri-file (b'/' ∷ path) ∙ ap some (path-parsed of_file path w)

-- The URI of a file that `uri_string` writes is read back by `parse_uri`, if it has no user, no
-- password and no fragment, its path has no `#`, and its host and port can be told apart.
pub parse_uri-uri_string :
    (host port : Option (List ℕ)) (path : List ℕ)
    → IsAuthority host port
    → Without b'#' path
    → read_back (uri_string (file_uri host port (some path)))
      ≡ some (file_uri host port (some path))
unfolding uri_string equal
parse_uri-uri_string none none path a w = parse_uri-local path w
parse_uri-uri_string none (some port) path a w = absurd a
parse_uri-uri_string (some []) port path a w = absurd a
parse_uri-uri_string (some (c ∷ cs)) port path a w =
    let text = part (b':' ∷ []) port in
    ap (λ (t : List ℕ). parse_uri (behind_scheme t))
      (sym (append_assoc (c ∷ cs) text (b'/' ∷ path)))
    ∙ parse_uri-file (hostport (c ∷ cs) port ++ b'/' ∷ path)
    ∙ ap path_behind (parse_authority-slash of_file c (cs ++ text) path a.0)
    ∙ ap (λ u. some (parse_path u path)) (authority-parsed (c ∷ cs) port a.1 a.2)
    ∙ ap some (path-parsed (record of_file { host = some (c ∷ cs); port = port }) path w)

-- Without a path, `parse_uri` reads behind the end of the string that `uri_string` writes.
pub parse_uri-no_path :
    (c : ℕ) (cs : List ℕ) (port : Option (List ℕ))
    → IsAuthority (some (c ∷ cs)) port
    → read_back (uri_string (file_uri (some (c ∷ cs)) port none)) ≡ none
unfolding uri_string equal
parse_uri-no_path c cs port a =
    let text = part (b':' ∷ []) port in
    ap (λ (t : List ℕ). parse_uri (behind_scheme (c ∷ cs ++ t))) (append-nil text)
    ∙ parse_uri-file (hostport (c ∷ cs) port)
    ∙ ap path_behind (parse_authority-end of_file c (cs ++ text) a.0)
