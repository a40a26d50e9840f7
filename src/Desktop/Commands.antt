-- ===== src/Desktop/Commands.antt =====
-- internal/domain/desktop/service/command_service.go: commands behind a list of denied patterns, and their
-- time limit. What runs a command is a parameter over the state `W` of the machine.
use Prim.Native.String.{◌++◌ as append}
use ai_desktop_assistant.Common.{
  ℕ, ◌-◌, ◌*◌, ◌%◌, ◌^◌, String, Char, Bool, true, false, ◌&&◌, ◌||◌, Option, none, some, List, [],
  ◌∷◌, ◌++◌, map, if◌then◌else◌, ltb, leb, ◌==◌, is_empty, get_elem?, suc,
}
use ai_desktop_assistant.Common.Int.{ℤ, pos, negsuc, positive_or}
use ai_desktop_assistant.Common.Map.{Map}
use ai_desktop_assistant.Common.Text.{runes, is_infix, is_blank, trim_space}

pub data CommandType : Type 0 where
  shell script process : CommandType

pub record CommandOperation : Type 0 where
  pub kind : CommandType
  pub command : String
  pub args : List String
  pub work_dir : String
  pub env : Map String
  pub timeout : ℤ

pub record CommandResult : Type 0 where
  pub success : Bool
  pub stdout : String
  pub stderr : String
  pub exit_code : ℤ
  pub duration : ℕ

-- Package `regexp`: what a pattern that compiles matches, and the folding of case of its `(?i)`.
pub record Regexps : Type 0 where
  pub compile : String → Option (String → Bool)
  pub fold : Char → Char

pub record CommandService : Type 0 where
  pub deny_patterns : List (String → Bool)
  pub deny_labels : List String
  pub max_timeout : ℕ

-- `(?i)` and the quoted text of a pattern that does not compile.
unfoldable pub matches_literal : Regexps → String → String → Bool
matches_literal r d s = is_infix (map r.fold (runes d)) (map r.fold (runes s))

unfoldable pub pattern_of : Regexps → String → String → Bool
pattern_of r d = elim (r.compile d) [ some m ↦ m | none ↦ matches_literal r d ]

-- The loop of the constructor.
unfoldable pub add_patterns : Regexps → List String → CommandService → CommandService
add_patterns r [] s = s
add_patterns r (d ∷ ds) s =
    let label = trim_space d in
    add_patterns r ds (
      if is_blank label then s else record s {
        deny_patterns = s.deny_patterns ++ (pattern_of r label ∷ []);
        deny_labels = s.deny_labels ++ (label ∷ []);
      })

-- `NewCommandServiceWithPolicy`
unfoldable pub new_command_service_with_policy : Regexps → ℤ → List String → CommandService
new_command_service_with_policy r max_timeout deny =
    add_patterns r deny
      (record { deny_patterns = []; deny_labels = []; max_timeout = positive_or 60 max_timeout })

abbrev pub join_spaces : List String → String
join_spaces [] = ""
join_spaces (s ∷ []) = s
join_spaces (s ∷ t ∷ ts) = append s (append " " (join_spaces (t ∷ ts)))

abbrev pub full_text : String → List String → String
full_text command args = append command (append " " (join_spaces args))

abbrev pub label_or : String → Option String → String
label_or d none = d
label_or d (some l) = l

-- `%q`, less its escapes.
abbrev pub quoted : String → String
quoted s = append "\"" (append s "\"")

-- The loop of `checkDenied`, at the pattern of index `i`.
unfoldable pub check_from : List String → String → ℕ → List (String → Bool) → Option String
check_from labels full i [] = none
check_from labels full i (m ∷ ms) =
    let rest = check_from labels full (suc i) ms in
    if m full
    then some (append "危险命令已拦截: 匹配规则 " (quoted (label_or full (get_elem? labels i))))
    else rest

-- `checkDenied`: the error's text.
unfoldable pub check_denied : CommandService → String → List String → Option String
check_denied s command args = check_from s.deny_labels (full_text command args) 0 s.deny_patterns

-- A 64-bit signed integer is its residue modulo 2 ^ 64; it is negative from 2 ^ 63 on.
abbrev pub is_negative : ℕ → Bool
is_negative n = leb (2 ^ 63) n

abbrev pub greater : ℕ → ℕ → Bool
greater a b = if is_negative a then is_negative b && ltb b a else is_negative b || ltb b a

-- `time.Duration(n) * time.Second`, in nanoseconds, with its overflow.
unfoldable pub seconds : ℤ → ℕ
seconds (pos n) = (n * 10 ^ 9) % 2 ^ 64
seconds (negsuc n) = (2 ^ 64 - ((suc n) * 10 ^ 9) % 2 ^ 64) % 2 ^ 64

-- A time limit that is not positive is 30 seconds, and none is above `most`.
unfoldable pub clamp : ℕ → ℕ → ℕ
clamp t most =
    let asked = if is_negative t || t == 0 then seconds (pos 30) else t in
    if greater asked most then most else asked

-- The time limit of a command.
abbrev pub limit : ℕ → ℤ → ℕ
limit max_timeout n = clamp (seconds n) (seconds (pos max_timeout))

-- `exec.CommandContext` with its fields.
pub record Invocation : Type 0 where
  pub program : String
  pub arguments : List String
  pub dir : String
  pub env : List String
  pub time_limit : ℕ

-- What `CombinedOutput` gives.
pub data Ended : Type 0 where
  succeeded : Ended
  exited : ℤ → Ended
  not_run : String → Ended

pub record Run : Type 0 where
  pub ended : Ended
  pub output : String
  pub timed_out : Bool
  pub duration : ℕ

-- The program and the arguments of an operation.
unfoldable pub program_of : Bool → CommandOperation → String × List String
program_of windows op =
    let full =
      if is_empty op.args
      then op.command
      else append op.command (append " " (join_spaces op.args)) in
    elim op.kind [
      | script ↦ (op.command, op.args)
      | _ ↦ (if windows then ("cmd", "/c" ∷ full ∷ []) else ("sh", "-c" ∷ full ∷ []))
    ]

abbrev assignments : Map String → List String
assignments m = map (λ e. append e.0 (append "=" e.1)) m

-- The environment: the machine's own, where the operation adds nothing.
abbrev pub env_of : List String → Map String → List String
env_of own m = if is_empty m then own else own ++ assignments m

unfoldable pub invocation : Bool → List String → CommandService → CommandOperation → Invocation
invocation windows own s op = record {
  program = (program_of windows op).0;
  arguments = (program_of windows op).1;
  dir = op.work_dir;
  env = env_of own op.env;
  time_limit = limit s.max_timeout op.timeout;
}

abbrev pub refusal : String → CommandResult
refusal e = record { success = false; stdout = ""; stderr = e; exit_code = negsuc 0; duration = 0 }

-- The result of a command that was run.
unfoldable pub report : Run → CommandResult
report r =
    let late = λ (e : String). if r.timed_out then "command timeout" else e in
    elim r.ended [
      | succeeded ↦ record {
        success = true;
        stdout = r.output;
        stderr = "";
        exit_code = pos 0;
        duration = r.duration;
      }
      | exited c ↦ record {
        success = false;
        stdout = r.output;
        stderr = late "";
        exit_code = c;
        duration = r.duration;
      }
      | not_run e ↦ record {
        success = false;
        stdout = r.output;
        stderr = late e;
        exit_code = negsuc 0;
        duration = r.duration;
      }
    ]

module _ {W : Type 0} (run : Invocation → W → Run × W) where
  abbrev pub run_reported : Invocation → W → CommandResult × W
  run_reported i w = (report (run i w).0, (run i w).1)

  -- What `checkDenied` lets through is run.
  abbrev pub run_unless : Option String → Invocation → W → CommandResult × W
  run_unless none i w = run_reported i w
  run_unless (some e) i w = (refusal e, w)

  -- `ExecuteCommand`; a missing operation is `none`.
  unfoldable pub execute_command :
      Bool → List String → CommandService → Option CommandOperation → W → CommandResult × W
  execute_command windows own s none w = (refusal "empty command", w)
  execute_command windows own s (some op) w =
      if is_blank (trim_space op.command)
      then (refusal "empty command", w)
      else run_unless (check_denied s op.command op.args) (invocation windows own s op) w
