-- ===== src/Desktop/Sandbox.antt =====
-- internal/domain/desktop/service/sandbox_service.go: code that runs in a container, or in a directory of its
-- own on the machine. The machine is the record `Machine`, over its state `W`.
use Prim.Native.String.{◌++◌ as append}
use ai_desktop_assistant.Common.{
  ℕ, ◌*◌, ◌^◌, String, Char, Bool, ◌&&◌, ◌||◌, Option, none, some, List, [], ◌∷◌, if◌then◌else◌,
  ltb, str_eq,
}
use ai_desktop_assistant.Common.Text.{runes, of_runes, is_blank, trim_space, to_lower}
use ai_desktop_assistant.Desktop.Paths.{FilePath, join_paths}
use ai_desktop_assistant.Common.Outcome.{Outcome, done, failed}

-- A program that ran: its error, if any, and what it wrote.
pub record Output : Type 0 where
  pub error : Option String
  pub stdout : String
  pub stderr : String

-- A program to run, for at most so many nanoseconds.
pub record Program : Type 0 where
  pub name : String
  pub args : List String
  pub dir : FilePath
  pub env : List String
  pub time_limit : ℕ

pub record Machine (W : Type 0) : Type 0 where
  pub windows : Bool
  -- `os.Getenv("PATH")`
  pub path_variable : String
  -- `os.MkdirTemp`, `os.WriteFile`, `os.RemoveAll`
  pub mkdir_temp : FilePath → String → W → Outcome FilePath × W
  pub write_file : FilePath → String → W → Option String × W
  pub remove_all : FilePath → W → Option String × W
  -- `exec.LookPath`: the error, if any
  pub look_path : String → W → Option String
  -- `dockerAvailable`, which runs `docker version`
  pub docker_available : W → Bool
  pub run : Program → W → Output × W

pub record SandboxService : Type 0 where
  pub work_root : FilePath
  pub use_docker : Bool
  pub docker_image : String
  pub max_timeout : ℕ

-- `NewSandboxService`; the system makes the directory.
unfoldable pub new_sandbox_service : FilePath → Bool → SandboxService
new_sandbox_service root use_docker = record {
  work_root = elim root [ [] ↦ runes "./temp/sandbox" | ◌∷◌ c cs ↦ c ∷ cs ];
  use_docker = use_docker;
  docker_image = "python:3.11-alpine";
  max_timeout = 30 * 10 ^ 9;
}

pub data Language : Type 0 where
  python javascript : Language

-- The switch of `Run` on the language's name.
unfoldable pub language_of : String → Option Language
language_of l =
    if str_eq l "python" || str_eq l "py"
    then some python
    else if str_eq l "javascript" || str_eq l "js" || str_eq l "node"
    then some javascript
    else none

abbrev pub file_name : Language → String
file_name python = "main.py"
file_name javascript = "main.js"

-- The time that is left of the caller's deadline, where it has one: at most the service's limit.
unfoldable pub docker_limit : Option ℕ → ℕ → ℕ
docker_limit none most = most
docker_limit (some d) most = if ltb 0 d && ltb d most then d else most

abbrev image_of : SandboxService → Language → String
image_of s python = s.docker_image
image_of s javascript = "node:20-alpine"

abbrev interpreter : Language → String
interpreter python = "python"
interpreter javascript = "node"

-- The program that `runDocker` starts.
unfoldable pub docker_program : SandboxService → Language → FilePath → Option ℕ → Program
docker_program s l dir left = record {
  name = "docker";
  args =
      "run"
      ∷ "--rm"
      ∷ "--network"
      ∷ "none"
      ∷ "--memory"
      ∷ "128m"
      ∷ "--cpus"
      ∷ "0.5"
      ∷ "-v"
      ∷ append (of_runes dir) ":/work:ro"
      ∷ "-w"
      ∷ "/work"
      ∷ image_of s l
      ∷ interpreter l
      ∷ file_name l
      ∷ [];
  dir = [];
  env = [];
  time_limit = docker_limit left s.max_timeout;
}

-- What a run is reported as.
unfoldable pub docker_report : Output → String
docker_report o =
    let out = trim_space o.stdout in
    let err = trim_space o.stderr in
    elim o.error [
      | some e ↦
          append "exit_error: "
            (append e (append "\nstdout:\n" (append out (append "\nstderr:\n" err))))
      | none ↦ (if is_blank err then out else append out (append "\n[stderr]\n" err))
    ]

unfoldable pub local_report : Output → String
local_report o =
    let out = trim_space o.stdout in
    let err = trim_space o.stderr in
    elim o.error [
      | some e ↦
          append "[local-sandbox] error: "
            (append e (append "\nstdout:\n" (append out (append "\nstderr:\n" err))))
      | none ↦
          (if is_blank err
            then append "[local-sandbox]\n" out
            else append out (append "\n[stderr]\n" err))
    ]

abbrev script_path : FilePath → Language → FilePath
script_path dir l = join_paths dir (runes (file_name l))

module _ {W : Type 0} (m : Machine W) (s : SandboxService) where
  -- `defer os.RemoveAll(dir)`, whose error is dropped
  abbrev pub removing : FilePath → Outcome String × W → Outcome String × W
  removing dir r = (r.0, (m.remove_all dir r.1).1)

  -- What follows `os.MkdirTemp`, with the directory removed at the end.
  abbrev pub in_temp :
      Outcome FilePath × W → (FilePath → W → Outcome String × W) → Outcome String × W
  in_temp (done dir, w) body = removing dir (body dir w)
  in_temp (failed e, w) body = (failed e, w)

  abbrev pub run_reported : (Output → String) → Program → W → Outcome String × W
  run_reported report p w = (done (report (m.run p w).0), (m.run p w).1)

  -- What follows the writing of the script.
  abbrev pub after_write : Option String × W → (W → Outcome String × W) → Outcome String × W
  after_write (some e, w) k = (failed e, w)
  after_write (none, w) k = k w

  abbrev pub docker_body : Language → String → Option ℕ → FilePath → W → Outcome String × W
  docker_body l code left dir w =
      after_write (m.write_file (script_path dir l) code w)
        (run_reported docker_report (docker_program s l dir left))

  unfoldable pub run_docker : Language → String → Option ℕ → W → Outcome String × W
  run_docker l code left w = in_temp (m.mkdir_temp s.work_root "sbx-*" w) (docker_body l code left)

  -- The name of the interpreter: on Windows `py` stands in for a missing `python`.
  unfoldable pub local_interpreter : Language → W → String
  local_interpreter javascript w = "node"
  local_interpreter python w = elim (m.look_path "python" w) [
    | none ↦ "python"
    | some e ↦ (if m.windows then "py" else "python")
  ]

  unfoldable pub local_program : Language → FilePath → String → Program
  local_program l dir bin = record {
    name = bin;
    args = of_runes (script_path dir l) ∷ [];
    dir = dir;
    env =
        append "PATH=" m.path_variable
        ∷ append "TEMP=" (of_runes dir)
        ∷ append "TMP=" (of_runes dir)
        ∷ [];
    time_limit = s.max_timeout;
  }

  -- The test that the interpreter is there, and the run.
  abbrev pub run_found : Option String → Program → W → Outcome String × W
  run_found (some e) p w = (failed (append "no interpreter, and no Docker: " e), w)
  run_found none p w = run_reported local_report p w

  abbrev pub local_body : Language → String → FilePath → W → Outcome String × W
  local_body l code dir w = after_write (m.write_file (script_path dir l) code w) (λ w1.
      run_found (m.look_path (local_interpreter l w) w1)
        (local_program l dir (local_interpreter l w)) w1)

  unfoldable pub run_local : Language → String → W → Outcome String × W
  run_local l code w = in_temp (m.mkdir_temp s.work_root "sbx-local-*" w) (local_body l code)

  -- A container that gave no result is followed by the machine itself.
  abbrev pub or_local : Language → String → Outcome String × W → Outcome String × W
  or_local l code (done out, w) = (done out, w)
  or_local l code (failed e, w) = run_local l code w

  abbrev pub run_language : Option Language → String → Option ℕ → W → Outcome String × W
  run_language none code left w = (failed "unsupported language", w)
  run_language (some l) code left w =
      if s.use_docker && m.docker_available w
      then or_local l code (run_docker l code left w)
      else run_local l code w

  -- `Run`; `left` is the time to the caller's deadline.
  unfoldable pub run : (Char → Char) → String → String → Option ℕ → W → Outcome String × W
  run lower language code left w =
      if is_blank (trim_space code)
      then (failed "code required", w)
      else run_language (language_of (to_lower lower (trim_space language))) (trim_space code) left
          w
