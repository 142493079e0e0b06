-- ===== src/Config/Tests.antt =====
-- Paths of scripts (src/scanbd/config.c).
use scanbd.Prelude.{◌≡◌, refl, some, none, lit, CString, Option, replicate}
use scanbd.Config.ScriptPath.{
  IsScriptPath, strncpy_path, make_script_path_abs, make_script_path_abs-is_final, relative_path,
}

abbrev cfg_dir : CString
cfg_dir = lit "/etc/scanbd"

abbrev dir : Option CString
dir = some (lit "scripts")

run : make_script_path_abs cfg_dir dir (lit "scan.sh") ≡ some (lit "/etc/scanbd/scripts/scan.sh")
unfolding make_script_path_abs relative_path
run = refl

-- A path of 4096 bytes is copied without its NUL.
too_long : make_script_path_abs cfg_dir dir (replicate 4096 47) ≡ none
unfolding make_script_path_abs strncpy_path
too_long = refl

make_script_path_abs-is_final_example :
    IsScriptPath cfg_dir dir (lit "scan.sh") (make_script_path_abs cfg_dir dir (lit "scan.sh"))
make_script_path_abs-is_final_example =
    make_script_path_abs-is_final cfg_dir dir (lit "scan.sh") refl
