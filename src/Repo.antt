-- ===== src/Repo.antt =====
-- GetOrgRepo and SplitOrgRepo of pkg/util/repo_util.go: "org/repo" and its two parts.
use Prim.Native.Char.{code}
use Prim.Native.String.{◌++◌}
use text.Mathlib.Text.{◌==◌ as str_eq}
use dingospeed.Base.{String, ◌==◌, if◌then◌else◌}

-- fmt.Sprintf("%s/%s", org, repo), unless there is no organisation.
unfoldable pub get_org_repo : String → String → String
get_org_repo org repo = if str_eq org "" then repo else org ++ ("/" ++ repo)

-- The first two parts of strings.Split(s, "/"); the parts that are not there are "".
unfoldable pub first_part : String → String
first_part String.[] = ""
first_part (String.◌∷◌ c s) = if code c == b'/' then "" else String.◌∷◌ c (first_part s)

unfoldable pub after_first : String → String
after_first String.[] = ""
after_first (String.◌∷◌ c s) = if code c == b'/' then s else after_first s

unfoldable pub split_org_repo : String → String × String
unfolding first_part after_first
split_org_repo org_repo = (first_part org_repo, first_part (after_first org_repo))
