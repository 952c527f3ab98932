-- ===== src/Uri/Tests.antt =====
-- URIs of files, written and read.
use route.Base.{ℕ, ◌≡◌, refl, arith, some, List}
use route.Text.{codes, equal, split_at}
use route.Uri.{Uri, alloc_uri_struct, parse_uri, uri_string, get_uri_host_and_path}
use route.Uri.RoundTrip.{file_uri, read_back, parse_uri-uri_string}
use route.Uri.FileName.{get_uri_host_and_path-parse_uri}

parse_uri-uri_string_example :
    read_back (uri_string (file_uri (some (codes "h")) (some (codes "8")) (some (codes "a/b"))))
    ≡ some (file_uri (some (codes "h")) (some (codes "8")) (some (codes "a/b")))
parse_uri-uri_string_example =
    parse_uri-uri_string (some (codes "h")) (some (codes "8")) (codes "a/b")
      (
        ((λ e. omega arith), ((λ e. omega arith), ((λ e. omega arith), tt))),
        ((λ e. omega arith), tt),
        ((λ e. omega arith), ((λ e. omega arith), ((λ e. omega arith), tt))),
      )
      ((λ e. omega arith), ((λ e. omega arith), ((λ e. omega arith), tt)))

abbrev full : Uri
full = record alloc_uri_struct {
  scheme = some (codes "http");
  user = some (codes "u");
  passwd = some (codes "p");
  host = some (codes "h");
  port = some (codes "8");
  path = some (codes "a/b");
  frag = some (codes "f");
}

parses : parse_uri (codes " HTTP://u:p@h:8/a/b#f") ≡ some full
unfolding parse_uri equal split_at
parses = refl

get_uri_host_and_path-parse_uri_example : (file : List ℕ) × (get_uri_host_and_path full ≡ some file)
get_uri_host_and_path-parse_uri_example =
    get_uri_host_and_path-parse_uri (codes " HTTP://u:p@h:8/a/b#f") full parses

-- Of another scheme than that of a file nothing else is written.
writes : uri_string full ≡ some (codes "http://")
unfolding uri_string equal
writes = refl
