-- ===== src/Tests/Keys.antt =====
-- Two BuildSpecs with one BuildKey.
use k_dash.Base.{String, Bool, true, false, ◌&&◌, ◌⊎◌, inl, inr, [], ◌∷◌, ◌==◌, nat_eq}
use k_dash.Json.{Value, int, str, obj, end, field}
use k_dash.Json.Numbers.{pos}
use k_dash.External.{Bytes, Libraries, complete}
use k_dash.Model.{BuildSpec, spec_dict}
use k_dash.Tests.Fixtures.{libraries}
use k_dash.Tests.Creating.{encode}

abbrev spec : BuildSpec
spec = record {
  release_digest = "sha256:iii,";
  args = str "fast";
  target = str "hopper";
  buildspec_version = 1;
}

abbrev all_four : (a b c d : Bool) → Bool
all_four a b c d = a && b && c && d

-- The dict of the BuildSpec, and no other
abbrev is_spec : Value → Bool
is_spec (obj (field k (int (pos n)) (field l (str s) (field m (str t) (field o (str u) end))))) =
    all_four (k == "buildspec_version") (l == "release_digest") (m == "args") (o == "target")
    && all_four (nat_eq n 1) (s == "sha256:iii,") (t == "fast") (u == "hopper")
is_spec _ = false

abbrev one_form : Bool → String ⊎ Bytes
one_form true = inr (2 ∷ [])
one_form false = inl "unsupported"

-- Texts are written by their characters; of dicts there is only the one.
abbrev form : Value → String ⊎ Bytes
form (str s) = inr (0 ∷ encode s)
form v = one_form (is_spec v)

abbrev spec_libraries : Libraries
spec_libraries = record libraries { jcs = form; scan_json = λ bytes. complete (spec_dict spec) }
