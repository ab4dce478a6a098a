-- ===== src/Middleware/Scope.antt =====
-- Scopes of middleware/policyvalidator.go: an action and a resource in which the parameters of the URL stand in braces.
-- urlParamRegex is `\{([^\}]+)\}`.
pub mod Expanded
use self_host.Prelude.{
  ℕ, Bool, true, false, Option, none, some, List, [], ◌∷◌, ◌++◌, ◌==◌, if◌then◌else◌, is_empty,
  length, drop,
}
use self_host.Text.{Text, codes, has_prefix, split}

-- FindAllStringSubmatch of urlParamRegex: the names in the matches, from left to right. `some run` are the characters since
-- the brace at which a match may begin.
unfoldable pub find_params : Option Text → Text → List Text
find_params run [] = []
find_params none (c ∷ s) = find_params (if c == 123 then some [] else none) s
find_params (some run) (c ∷ s) =
    let outside = find_params none s in
    let inside = find_params (some (run ++ c ∷ [])) s in
    if c == 125 then (if is_empty run then outside else run ∷ outside) else inside

-- strings.Replace with n = 1, of a part that is not empty
unfoldable pub replace_first : Text → Text → Text → Text
replace_first [] old new = []
replace_first (c ∷ s) old new =
    let rest = replace_first s old new in
    if has_prefix (c ∷ s) old then new ++ drop (length old) (c ∷ s) else c ∷ rest

-- The match of a name
unfoldable pub placeholder : Text → Text
placeholder name = 123 ∷ (name ++ 125 ∷ [])

-- The loop over the matches
unfoldable pub replace_params : (Text → Text) → List Text → Text → Text
unfolding replace_first placeholder
replace_params url_param [] resource = resource
replace_params url_param (name ∷ names) resource =
    replace_params url_param names (replace_first resource (placeholder name) (url_param name))

unfoldable pub rewrite_resource : (Text → Text) → Text → Text
unfolding find_params replace_params
rewrite_resource url_param resource = replace_params url_param (find_params none resource) resource

unfoldable pub pair_of : List Text → Option (Text × Text)
pair_of (a ∷ r ∷ []) = some (a, r)
pair_of _ = none

-- The action and the resource of a scope: `strings.Split(scope, ":")` of two parts
unfoldable pub split_scope : Text → Option (Text × Text)
unfolding pair_of
split_scope scope = pair_of (split scope 58)
