-- ===== src/Uri/FileName.antt =====
-- The name of the file that the receiver takes from a URI.
use route.Base.{ℕ, ◌≡◌, refl, Bool, true, false, Option, none, some, List, ◌∷◌, ◌++◌, if◌then◌else◌}
use mathlib.Core.Path.{subst}
use route.Text.{equal, split_at}
use route.Uri.{
  Uri, alloc_uri_struct, parse_scheme, parse_authority, path_found, parse_path, path_behind,
  parse_uri, get_uri_host_and_path, host_and,
}

abbrev HasPath : Option Uri → Type 0
HasPath none = Unit
HasPath (some uri) = (file : List ℕ) × (get_uri_host_and_path uri ≡ some file)

parse_path-HasPath : (uri : Uri) (text : List ℕ) → HasPath (some (parse_path uri text))
unfolding parse_path get_uri_host_and_path
parse_path-HasPath uri text = set uri text (split_at b'#' text)
  where
    joined :
        (host : Option (List ℕ)) (path : List ℕ)
        → (file : List ℕ) × (host_and host (some path) ≡ some file)
    joined none path = (path, refl)
    joined (some host) path = (host ++ b'/' ∷ path, refl)

    set :
        (uri : Uri) (text : List ℕ) (found : Option (List ℕ × List ℕ))
        → HasPath (some (path_found uri text found))
    set uri text none = joined uri.host text
    set uri text (some (path, frag)) = joined uri.host path

path_behind-HasPath : (p : Uri × Option (List ℕ)) → HasPath (path_behind p)
path_behind-HasPath (uri, none) = tt
path_behind-HasPath (uri, some text) = parse_path-HasPath uri text

-- A URI that `parse_uri` has read has a file name for `get_uri_host_and_path`, which does not
-- follow a null pointer.
pub get_uri_host_and_path-parse_uri :
    (text : List ℕ) (uri : Uri)
    → parse_uri text ≡ some uri
    → (file : List ℕ) × (get_uri_host_and_path uri ≡ some file)
unfolding parse_uri
get_uri_host_and_path-parse_uri text uri e = subst HasPath e parsed
  where
    chosen : (b : Bool) (x y : Option Uri) → HasPath x → HasPath y → HasPath (if b then x else y)
    chosen true x y p q = p
    chosen false x y p q = q

    found :
        (p : Uri × List ℕ)
        → HasPath (
            if equal p.1 text
            then some (parse_path p.0 p.1)
            else path_behind (parse_authority p.0 p.1))
    found (u, ptr) =
        chosen (equal ptr text) _ _ (parse_path-HasPath u ptr)
          (path_behind-HasPath (parse_authority u ptr))

    parsed : HasPath (parse_uri text)
    parsed = found (parse_scheme alloc_uri_struct text)
