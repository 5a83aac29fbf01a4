-- ===== src/Worker/Executor/Code.antt =====
-- worker/task_executor.py: `_get_docker_image` and `_prepare_task_code`. A script is written to the
-- workspace; the answer for its path includes that of `chmod`.
use the_grid_x.Base.{
  ℕ, ◌+◌, Bool, false, ◌&&◌, ◌||◌, leb, ◌==◌, or_else, List, [], ◌∷◌, ◌++◌, map, Text, text,
  text_eq, Dict, lookup, if◌then◌else◌,
}
use the_grid_x.Worker.Exec.{Exec, pure, done, change, ◌>>◌}
use the_grid_x.Worker.Docker.{Sdk, DockerManager, called, wrote}

-- `str.lower`, on the letters of ASCII; no other character's lower case is one of the letters in the
-- names below.
abbrev pub lower_char : ℕ → ℕ
lower_char c = if leb b'A' c && leb c b'Z' then c + 32 else c

abbrev pub lower : Text → Text
lower = map lower_char

abbrev pub images : Dict Text
images =
    (text "python", text "python:3.9-slim")
    ∷ (text "node", text "node:18-slim")
    ∷ (text "bash", text "ubuntu:22.04")
    ∷ (text "javascript", text "node:18-slim")
    ∷ []

unfoldable pub get_docker_image : (language : Text) → Text
get_docker_image language = or_else (lookup (lower language) images) (text "python:3.9-slim")

-- The last character, if any, is a slash.
abbrev pub ends_in_slash : Text → Bool
ends_in_slash [] = false
ends_in_slash (c ∷ []) = c == b'/'
ends_in_slash (c ∷ d ∷ s) = ends_in_slash (d ∷ s)

-- `os.path.join(a, b)`
unfoldable pub path_join : Text → Text → Text
path_join a [] = if ends_in_slash a then a else a ++ text "/"
path_join [] (c ∷ b) = c ∷ b
path_join (d ∷ a) (c ∷ b) =
    if c == b'/'
    then c ∷ b
    else if ends_in_slash (d ∷ a)
    then d ∷ a ++ (c ∷ b)
    else d ∷ a ++ (b'/' ∷ c ∷ b)

-- The name of the script, and the program that runs it.
unfoldable pub script_of : (language : Text) → Text × Text
script_of language =
    if text_eq (lower language) (text "python")
    then (text "task.py", text "python")
    else if text_eq (lower language) (text "javascript") || text_eq (lower language) (text "node")
    then (text "task.js", text "node")
    else if text_eq (lower language) (text "bash")
    then (text "task.sh", text "bash")
    else (text "task.py", text "python")

unfoldable pub prepare_task_code :
    Sdk → (language code workspace_dir : Text) → Exec DockerManager (Text × List Text)
prepare_task_code sdk language code workspace_dir =
    let script : Text × Text = script_of language in
    let code_file : Text = path_join workspace_dir script.0 in
    do
      done (sdk.write code_file)
      change (called (wrote code_file code))
      pure (code_file, script.1 ∷ script.0 ∷ [])
