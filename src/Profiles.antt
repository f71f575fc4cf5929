-- ===== src/Profiles.antt =====
-- jupyterhub-profiles/generate_profile_list.py: the profiles of JupyterHub from the project specs. A
-- number of cores is kept in halves, since one limit is 15.5.
pub mod Choices
pub mod ConfigMap
mod Tests
use teehr_cloud_core.Base.{
  ℕ, ◌+◌, ◌*◌, String, Bool, true, false, not, ◌&&◌, ◌||◌, Option, none, some, List, [], ◌∷◌, map,
  if◌then◌else◌, is_some, ◌<>◌, Result, ok, err,
}
use teehr_cloud_core.Base.Dict.{Dict, insert}
use teehr_cloud_core.Api.Database.{is_infix}

abbrev stable_image : String
stable_image = "${actions.build.teehr-jupyter-driver-image-stable.outputs.deploymentImageId}"

abbrev previous_image : String
previous_image = "${actions.build.teehr-jupyter-driver-image-previous.outputs.deploymentImageId}"

abbrev edge_image : String
edge_image = "${actions.build.teehr-jupyter-driver-image-edge.outputs.deploymentImageId}"

abbrev hefs_v031_image : String
hefs_v031_image = "935462133478.dkr.ecr.us-east-2.amazonaws.com/hefs-fews-hub:v0.3.1"

abbrev hefs_dev_image : String
hefs_dev_image = "935462133478.dkr.ecr.us-east-2.amazonaws.com/hefs-fews-hub:dev"

abbrev fractional_4xl_mem_limit : String
fractional_4xl_mem_limit = "127G"

-- in halves of a core
abbrev fractional_4xl_cpu_limit : ℕ
fractional_4xl_cpu_limit = 31

unfoldable pub nodegroup : String → String → String
nodegroup size suffix = "nb-r5-" <> (size <> suffix)

pub record Choice : Type 0 where
  pub display_name : String
  pub image : String
  pub mem_limit : String
  pub mem_guarantee : String
  pub cpu_limit : ℕ
  pub cpu_guarantee : ℕ
  pub nodegroup_name : String
  pub image_pull_policy : Option String
  pub is_default : Bool

-- `"xlarge" in nodegroup_name and "4xlarge" not in nodegroup_name`
unfoldable pub is_small : String → Bool
unfolding is_infix
is_small nodegroup_name =
    is_infix "xlarge" nodegroup_name && not (is_infix "4xlarge" nodegroup_name)

unfoldable pub choice : String → String → String → String → ℕ → Bool → Option String → Choice
choice display_name image nodegroup_name mem_limit cpu_limit is_default image_pull_policy = record {
  display_name = display_name;
  image = image;
  mem_limit = mem_limit;
  mem_guarantee = if is_small nodegroup_name then "19G" else "76G";
  cpu_limit = cpu_limit;
  cpu_guarantee = if is_small nodegroup_name then 6 else 24;
  nodegroup_name = nodegroup_name;
  image_pull_policy = image_pull_policy;
  is_default = is_default;
}

abbrev version : String → String → String → String
version word name size = word <> (" " <> (name <> (" - " <> size)))

unfoldable pub standard_choices : String → String → String → String → Bool → Dict Choice
standard_choices suffix stable_version previous_version dev_version current_default =
    let xlarge = nodegroup "xlarge" suffix in
    let xl4 = nodegroup "4xlarge" suffix in
    (
      "current-tag-xlarge",
      choice (version "Version" stable_version "XL (4 cores, 16 GB memory)") stable_image xlarge
          "32G" 8 current_default none,
    )
    ∷ (
      "current-tag-4xlarge",
      choice (version "Version" stable_version "4XL (16 cores, 128 GB memory)") stable_image xl4
          fractional_4xl_mem_limit fractional_4xl_cpu_limit false none,
    )
    ∷ (
      "previous-tag-xlarge",
      choice (version "Version" previous_version "XL (4 cores, 32 GB memory)") previous_image xlarge
          "32G" 8 false none,
    )
    ∷ (
      "previous-tag-4xlarge",
      choice (version "Version" previous_version "4XL (16 cores, 128 GB memory)") previous_image xl4
          "128G" 32 false none,
    )
    ∷ (
      "dev-xlarge",
      choice (version "Bleeding Edge" dev_version "XL (4 cores, 32 GB memory)") edge_image xlarge
          "32G" 8 false none,
    )
    ∷ (
      "dev-4xlarge",
      choice (version "Bleeding Edge" dev_version "4XL (16 cores, 128 GB memory)") edge_image xl4
          fractional_4xl_mem_limit fractional_4xl_cpu_limit false none,
    )
    ∷ []

unfoldable pub hefs_choices : String → Dict Choice
hefs_choices suffix =
    let xlarge = nodegroup "xlarge" suffix in
    (
      "hefs-v0-3-0",
      choice "HEFS-FEWS v0.3.x - XL (4 cores, 16 GB memory)" hefs_v031_image xlarge "32G" 8 true
          none,
    )
    ∷ (
      "hefs-latest",
      choice "HEFS-FEWS Bleeding Edge - XL (4 cores, 16 GB memory)" hefs_dev_image xlarge "32G" 8
          false (some "Always"),
    )
    ∷ []

-- `choices.update(entries)`
unfoldable pub updated : Dict Choice → Dict Choice → Dict Choice
updated choices [] = choices
updated choices ((key, c) ∷ entries) = updated (insert key c choices) entries

-- A project of the specs.
pub record ProjectSpec : Type 0 where
  pub project_id : String
  pub display_name : String
  pub description : String
  pub nodegroup_suffix : String
  pub is_default : Bool
  pub include_hefs_choices : Bool

pub record Profile : Type 0 where
  pub display_name : String
  pub is_default : Bool
  pub description : String
  pub image_choices : Dict Choice
  pub teehr_project_id : String

unfoldable pub build_profile : ProjectSpec → Profile
unfolding updated
build_profile spec =
    let standard =
      standard_choices spec.nodegroup_suffix "${var.stableTeehrVersion}"
        "${var.previousTeehrVersion}" "${slice(var.devTeehrVersion, 0, 6)}"
        (not spec.include_hefs_choices) in
    record {
      display_name = spec.display_name;
      is_default = spec.is_default;
      description = spec.description;
      image_choices =
          updated (if spec.include_hefs_choices then hefs_choices spec.nodegroup_suffix else [])
            standard;
      teehr_project_id = spec.project_id;
    }

-- the "profiles" of the payload
abbrev pub profiles : List ProjectSpec → List Profile
profiles specs = map build_profile specs

-- The arguments of `main`: the two modes, of which argparse takes one at most, and the two paths.
pub record Arguments : Type 0 where
  pub local : Bool
  pub remote : Bool
  pub spec : Option String
  pub out : Option String

-- Both modes; paths with a mode; one path; nothing.
pub data UsageError : Type 0 where
  not_allowed_together either_or must_be_together nothing_given : UsageError

-- `main` up to the call of `generate`, for the paths of the two modes
unfoldable pub paths_of :
    String × String → String × String → Arguments → Result UsageError (String × String)
paths_of local_paths remote_paths args =
    let explicit = is_some args.spec || is_some args.out in
    if args.local && args.remote
    then err not_allowed_together
    else if explicit && (args.local || args.remote)
    then err either_or
    else if explicit
    then elim args.spec [
      | none ↦ err must_be_together
      | some spec ↦ elim args.out [ none ↦ err must_be_together | some out ↦ ok (spec, out) ]
    ]
    else if args.local
    then ok local_paths
    else if args.remote
    then ok remote_paths
    else err nothing_given

abbrev pub profile_list_paths : Arguments → Result UsageError (String × String)
profile_list_paths =
    paths_of
      (
        "jupyterhub-profiles/profile-list.example.projects.json",
        "jupyterhub-profiles/profile-list.local.json",
      )
      (
        "jupyterhub-profiles/profile-list.remote.projects.json",
        "jupyterhub-profiles/profile-list.remote.json",
      )
