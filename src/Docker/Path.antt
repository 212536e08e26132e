-- ===== src/Docker/Path.antt =====
-- std::path, as far as crates/assistant-runtime-docker/src/mount.rs uses it: a path is its components.
use Prim.Native.Char.{code}
use assistant_platform.Base.{
  ◌==◌, if◌then◌else◌, or_else, String, Bool, true, false, ◌&&◌, Option, none, some, List, [], ◌∷◌,
  str_eq,
}

pub data Component : Type 0 where
  root_dir cur_dir parent_dir : Component
  normal : String → Component

abbrev pub PathBuf : Type 0
PathBuf = List Component

abbrev pub same_component : Component → Component → Bool
same_component root_dir root_dir = true
same_component cur_dir cur_dir = true
same_component parent_dir parent_dir = true
same_component (normal s) (normal t) = str_eq s t
same_component _ _ = false

abbrev pub same_path : PathBuf → PathBuf → Bool
same_path [] [] = true
same_path (c ∷ cs) (d ∷ ds) = same_component c d && same_path cs ds
same_path _ _ = false

-- `path.starts_with(root)`, by whole components
abbrev pub is_under : PathBuf → PathBuf → Bool
is_under path [] = true
is_under [] (d ∷ ds) = false
is_under (c ∷ cs) (d ∷ ds) = same_component c d && is_under cs ds

abbrev pub is_parent : Component → Bool
is_parent parent_dir = true
is_parent _ = false

abbrev pub is_named : String → Component → Bool
is_named name (normal s) = str_eq s name
is_named name _ = false

abbrev pub name_of : Component → Option String
name_of (normal s) = some s
name_of _ = none

-- `file_name()`: the last component, if it is a name.
abbrev pub file_name : PathBuf → Option String
file_name [] = none
file_name (c ∷ []) = name_of c
file_name (c ∷ d ∷ cs) = file_name (d ∷ cs)

-- What stands behind the last dot.
abbrev pub after_dot : String → Option String
after_dot String.[] = none
after_dot (String.◌∷◌ c s) = or_else (after_dot s) (if code c == b'.' then some s else none)

-- A dot that begins the name begins no extension.
abbrev pub extension_in : String → Option String
extension_in String.[] = none
extension_in (String.◌∷◌ c s) = after_dot s

abbrev pub extension_of : Option String → Option String
extension_of none = none
extension_of (some name) = extension_in name

abbrev pub extension : PathBuf → Option String
extension path = extension_of (file_name path)
