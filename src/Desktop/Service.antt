-- ===== src/Desktop/Service.antt =====
-- internal/domain/desktop/service/desktop_service.go: the desktop's ports, over the file and the command service.
use ai_desktop_assistant.Common.{String, Char, Bool, List, [], some, if◌then◌else◌}
use ai_desktop_assistant.Common.Int.{ℤ}
use ai_desktop_assistant.Desktop.Paths.{FilePath, Resolved}
use ai_desktop_assistant.Desktop.Files.{
  Os, FileService, FileOperation, FileOperationType, read, write, list, delete, create, FileResult,
  execute_file_operation,
}
use ai_desktop_assistant.Desktop.Commands.{
  CommandService, CommandResult, Invocation, Run, shell, script, execute_command,
}

module _ {W : Type 0} (os : Os W) (lower : Char → Char) (cwd : Resolved) (files : FileService) where
  abbrev file_operation : FileOperationType → FilePath → String → String → FileOperation
  file_operation k p c m = record { kind = k; path = p; content = c; mode = m }

  abbrev operate : FileOperation → W → FileResult × W
  operate = execute_file_operation os lower cwd files

  -- `ReadFile`
  unfoldable pub read_path : FilePath → W → FileResult × W
  read_path p = operate (file_operation read p "" "")

  -- `WriteFile`
  unfoldable pub write_path : FilePath → String → String → W → FileResult × W
  write_path p c m = operate (file_operation write p c m)

  -- `ListFiles`
  unfoldable pub list_path : FilePath → W → FileResult × W
  list_path p = operate (file_operation list p "" "")

  -- `DeleteFile`
  unfoldable pub delete_path : FilePath → W → FileResult × W
  delete_path p = operate (file_operation delete p "" "")

  -- `CreatePath`
  unfoldable pub create_path : FilePath → Bool → W → FileResult × W
  create_path p is_dir =
      operate (if is_dir then file_operation write p "" "mkdir" else file_operation create p "" "")

module _ {W : Type 0} (run : Invocation → W → Run × W) (windows : Bool) (own : List String) where
  -- `Execute`
  unfoldable pub execute :
      CommandService → String → List String → String → ℤ → W → CommandResult × W
  execute s command args work_dir timeout = execute_command run windows own s (
      some (record {
        kind = shell;
        command = command;
        args = args;
        work_dir = work_dir;
        env = [];
        timeout = timeout;
      }))

  -- `ExecuteScript`
  unfoldable pub execute_script : CommandService → String → String → ℤ → W → CommandResult × W
  execute_script s text work_dir timeout = execute_command run windows own s (
      some (record {
        kind = script;
        command = text;
        args = [];
        work_dir = work_dir;
        env = [];
        timeout = timeout;
      }))
