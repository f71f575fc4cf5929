-- ===== src/Profiles/ConfigMap.antt =====
-- jupyterhub-profiles/generate_profile_configmap_templates.py: the template of the profiles' ConfigMap.
-- `pretty` is the text of `json.dumps` with an indent of 2, whose lines end at line feeds.
use teehr_cloud_core.Base.{String, List, [], ◌∷◌, map, ◌<>◌, Result}
use teehr_cloud_core.Base.Split.{split_on}
use teehr_cloud_core.Api.Sql.{join}
use teehr_cloud_core.Profiles.{Arguments, UsageError, paths_of}

abbrev pub template_header : List String
template_header =
    "apiVersion: v1" ∷ "kind: ConfigMap" ∷ "metadata:" ∷ "  name: jupyterhub-profile-list"
    ∷ "  namespace: ${environment.namespace}" ∷ "  labels:" ∷ "    app: jupyterhub"
    ∷ "    component: hub" ∷ "data:" ∷ "  profile-list.json: |" ∷ []

abbrev pub line_feed : String
line_feed = "\n"

unfoldable pub indented : List String → List String
indented lines = map (λ line. "    " <> line) lines

unfoldable pub render_template : String → String
unfolding split_on indented join
render_template pretty =
    join line_feed template_header
    <> (line_feed <> (join line_feed (indented (split_on 10 pretty)) <> line_feed))

-- `main` up to the call of `render_template`
abbrev pub template_paths : Arguments → Result UsageError (String × String)
template_paths =
    paths_of
      (
        "jupyterhub-profiles/profile-list.local.json",
        "jupyterhub-profiles/manifests/jupyterhub-profile-list-local.configmap.yaml.tpl",
      )
      (
        "jupyterhub-profiles/profile-list.remote.json",
        "jupyterhub-profiles/manifests/jupyterhub-profile-list-remote.configmap.yaml.tpl",
      )
