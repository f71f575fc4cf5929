-- ===== src/Profiles/Tests.antt =====
-- A template of two lines in the ConfigMap.
use teehr_cloud_core.Base.{refl, String, ◌<>◌, ◌≡◌}
use teehr_cloud_core.Base.Split.{split_on, split_where}
use teehr_cloud_core.Api.Sql.{join}
use teehr_cloud_core.Profiles.ConfigMap.{template_header, line_feed, indented, render_template}

abbrev two_lines : String
two_lines = "[\n]"

last_lines :
    render_template two_lines
    ≡ join line_feed template_header <> (line_feed <> ("    [\n    ]" <> line_feed))
unfolding render_template indented split_on split_where join
last_lines = refl
