-- ===== src/Connector/Urls.antt =====
-- connector/connector.go: the URLs under which a connector registers and deregisters, as net/url
-- resolves them against the URL of a router.
use crank4go.Base.{
  ℕ, List, [], ◌∷◌, ◌++◌, Text, codes, text_eq, split, parts, join, if◌then◌else◌, ◌==◌, but_last,
}
use crank4go.Connector.Farm.{Url}

abbrev slash : ℕ
slash = b'/'

keep_slash : ℕ → Text → Text
keep_slash c [] = if c == slash then c ∷ [] else []
keep_slash c (d ∷ s) = c ∷ d ∷ s

-- `base[:strings.LastIndex(base, "/")+1]`
up_to_last_slash : Text → Text
unfolding keep_slash
up_to_last_slash [] = []
up_to_last_slash (c ∷ s) = keep_slash c (up_to_last_slash s)

drop_last : List Text → List Text
drop_last [] = []
drop_last (e ∷ es) = but_last e es

-- The loop over the elements: "." is dropped, ".." takes out the element in front of it.
drop_dots : List Text → List Text → List Text
unfolding drop_last
drop_dots dst [] = dst
drop_dots dst (e ∷ es) =
    drop_dots
      (if text_eq e (codes ".")
        then dst
        else if text_eq e (codes "..")
        then drop_last dst
        else dst ++ e ∷ [])
      es

join_all : List Text → Text
join_all [] = []
join_all (e ∷ es) = join slash e es

absolute : Text → Text
absolute [] = slash ∷ []
absolute (c ∷ s) = if c == slash then c ∷ s else slash ∷ c ∷ s

-- `resolvePath` of net/url, on a relative path that ends in a slash.
unfoldable pub resolve_path : Text → Text → Text
unfolding up_to_last_slash drop_dots join_all absolute
resolve_path base ref =
    absolute (join_all (drop_dots [] (parts (split slash (up_to_last_slash base ++ ref)))))

query : Text → Text → Text
query instance_id component =
    codes "connectorInstanceID=" ++ (instance_id ++ (codes "&componentName=" ++ component))

unfoldable pub register_uri : Text → Text → Url → Url
unfolding resolve_path query
register_uri instance_id component router = record router {
  path = resolve_path router.path (codes "register/");
  raw_query = query instance_id component;
}

unfoldable pub deregister_uri : Text → Text → Url → Url
unfolding resolve_path query
deregister_uri instance_id component router = record router {
  path = resolve_path router.path (codes "deregister/");
  raw_query = query instance_id component;
}
