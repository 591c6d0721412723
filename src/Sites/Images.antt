-- ===== src/Sites/Images.antt =====
-- manager/director/apps/sites/models.py: the commands of a site's Docker image.
use director.Prelude.{String, Bool, Option, none, some, List, [], ◌∷◌, ◌++◌, if◌then◌else◌, ◌==◌}
use director.Prelude.Text.{◌⊕◌, join}
use director.Sites.Models.{ParentImage, DockerImage}

-- `" && ".join(parts) if parts else None`
abbrev join_commands : List String → Option String
join_commands [] = none
join_commands (c ∷ cs) = some (join " && " (c ∷ cs))

unfoldable pub get_setup_command : ParentImage → Option String
get_setup_command p =
    join_commands (
      p.setup_commands
      ++ (if p.base_install_command == "" then [] else p.base_install_command ∷ []))

-- `install_command_prefix + " " + " ".join(package_names)`, if there is a package.
abbrev with_packages : String → List String → Option String
with_packages prefix [] = none
with_packages prefix (p ∷ ps) = some (prefix ⊕ " " ⊕ join " " (p ∷ ps))

abbrev install_with : Option ParentImage → List String → Option String
install_with none packages = none
install_with (some p) packages =
    if p.install_command_prefix == "" then none else with_packages p.install_command_prefix packages

unfoldable pub get_install_command : DockerImage → Option String
get_install_command i = install_with i.parent i.extra_packages

pub record ImageData : Type 0 where
  pub name : String
  pub is_custom : Bool
  pub parent_name : Option String
  pub parent_setup_command : Option String
  pub install_command : Option String

-- `DockerImage.serialize_for_appserver`
unfoldable pub serialize_image : DockerImage → ImageData
unfolding get_setup_command get_install_command
serialize_image i = record {
  name = i.name;
  is_custom = i.is_custom;
  parent_name = elim i.parent [ none ↦ none | some p ↦ some p.name ];
  parent_setup_command = elim i.parent [ none ↦ none | some p ↦ get_setup_command p ];
  install_command = get_install_command i;
}
