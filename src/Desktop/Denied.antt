-- ===== src/Desktop/Denied.antt =====
-- command_service.go: which commands are run, and how.
use Prim.Native.String.{◌++◌ as append}
use text.Mathlib.TextLemmas.{append-nil}
use mathlib.Core.List as L
use ai_desktop_assistant.Common.Map.{Map}
use ai_desktop_assistant.Common.{
  ℕ, suc, ap, sym, subst, map, ◌++◌, if◌then◌else◌, is_empty, ◌*◌, ◌^◌, ◌≤◌, ◌<◌, ◌≡◌, refl, String,
  Bool, true, false, none, some, List, [], ◌∷◌, arith, any, get_elem?, Bool-cases, inl, inr,
}
use ai_desktop_assistant.Common.Int.{ℤ, pos}
use ai_desktop_assistant.Common.Text.{is_blank, trim_space}
use ai_desktop_assistant.Desktop.Commands.{
  CommandService, CommandOperation, Invocation, Run, check_from, check_denied, full_text, seconds,
  limit, clamp, invocation, refusal, run_reported, execute_command, label_or, quoted, join_spaces,
  env_of, program_of, script, shell, process,
}

abbrev IsLimit : ℕ → ℕ → Type 0
IsLimit most n = (0 < n) × (n ≤ most)

clamp-IsLimit : (t most : ℕ) → 0 < most → most < 2 ^ 63 → IsLimit most (clamp t most)
unfolding clamp seconds
clamp-IsLimit t most h k = ground (arith, h, k)

seconds_small : (n : ℕ) → n ≤ 9223372036 → seconds (pos n) ≡ n * 10 ^ 9
unfolding seconds
seconds_small n h = omega (arith, h)

limit-IsLimit :
    (most : ℕ) (n : ℤ) → 0 < most → most ≤ 9223372036 → IsLimit (most * 10 ^ 9) (limit most n)
limit-IsLimit most n h k =
    rw (seconds_small most k)
      (clamp-IsLimit (seconds n) (most * 10 ^ 9) (omega (arith, h)) (omega (arith, k)))

check_from-none :
    (labels : List String) (full : String) (i : ℕ) (ms : List (String → Bool))
    → any (λ m. m full) ms ≡ false
    → check_from labels full i ms ≡ none
unfolding check_from
check_from-none labels full i [] h = refl
check_from-none labels full i (m ∷ ms) h = ground (arith, h, check_from-none labels full (suc i) ms)

check_from-some :
    (labels : List String) (full : String) (i : ℕ) (ms : List (String → Bool))
    → any (λ m. m full) ms ≡ true
    → (e : String) × (check_from labels full i ms ≡ some e)
unfolding check_from
check_from-some labels full i [] h = ground (arith, h)
check_from-some labels full i (m ∷ ms) h = elim (Bool-cases (m full)) [
  | inl e ↦ (append "危险命令已拦截: 匹配规则 " (quoted (label_or full (get_elem? labels i))), rw e refl)
  | inr e ↦ rw e (check_from-some labels full (suc i) ms (ground (arith, h, e)))
]

-- The arguments, each after a space.
abbrev pub spaced : List String → String
spaced [] = ""
spaced (a ∷ xs) = append " " (append a (spaced xs))

-- The text of a command with its arguments.
abbrev pub command_line : CommandOperation → String
command_line op = append op.command (spaced op.args)

-- What a rule is asked: the command, a space and the arguments between spaces.
abbrev pub asked_text : CommandOperation → String
asked_text op = if is_empty op.args then append op.command " " else command_line op

-- Whether a rule of the service matches the command with its arguments.
abbrev pub is_denied : CommandService → CommandOperation → Bool
is_denied s op = any (λ m. m (asked_text op)) s.deny_patterns

-- What is run is what the operation asks for: the program with its arguments for a script, and the shell on the
-- command's line otherwise, in the operation's directory, with its variables after the machine's own.
abbrev IsProgram : Bool → CommandOperation → String → List String → Type 0
IsProgram windows op program arguments = elim op.kind [
  | script ↦ (program ≡ op.command) × (arguments ≡ op.args)
  | _ ↦
      (program ≡ (if windows then "cmd" else "sh"))
      × (arguments ≡ (if windows then "/c" else "-c") ∷ command_line op ∷ [])
]

pub record IsAsked (windows : Bool) (own : List String) (op : CommandOperation) (i : Invocation)
    : Type 0 where
  pub program : IsProgram windows op i.program i.arguments
  pub directory : i.dir ≡ op.work_dir
  pub variables : i.env ≡ own ++ map (λ e. append e.0 (append "=" e.1)) op.env

join_spaces-spaced :
    (a : String) (xs : List String) → append " " (join_spaces (a ∷ xs)) ≡ spaced (a ∷ xs)
join_spaces-spaced a [] = ap (append " ") (sym (append-nil a))
join_spaces-spaced a (b ∷ bs) = ap (λ t. append " " (append a t)) (join_spaces-spaced b bs)

full_text-asked_text : (op : CommandOperation) → full_text op.command op.args ≡ asked_text op
full_text-asked_text op = text_lem op.args
  where
    text_lem :
        (xs : List String)
        → full_text op.command xs
          ≡ (if is_empty xs then append op.command " " else append op.command (spaced xs))
    text_lem [] = ap (append op.command) (append-nil " ")
    text_lem (a ∷ xs) = ap (append op.command) (join_spaces-spaced a xs)

program_of-IsProgram :
    (windows : Bool) (op : CommandOperation)
    → IsProgram windows op (program_of windows op).0 (program_of windows op).1
unfolding program_of
program_of-IsProgram windows op =
    elim op.kind
      as (λ k.
        let o = record op { kind = k } in
        IsProgram windows o (program_of windows o).0 (program_of windows o).1) [
          | script ↦ (refl, refl)
          | shell ↦ line_lem windows
          | process ↦ line_lem windows
        ]
  where
    full : List String → String
    full xs = if is_empty xs then op.command else append op.command (append " " (join_spaces xs))

    full_lem : (xs : List String) → full xs ≡ append op.command (spaced xs)
    full_lem [] = sym (append-nil op.command)
    full_lem (a ∷ xs) = ap (append op.command) (join_spaces-spaced a xs)

    line_lem :
        (b : Bool)
        → let p : String × List String =
            if b then ("cmd", "/c" ∷ full op.args ∷ []) else ("sh", "-c" ∷ full op.args ∷ []) in
          (p.0 ≡ (if b then "cmd" else "sh"))
          × (p.1 ≡ (if b then "/c" else "-c") ∷ command_line op ∷ [])
    line_lem true = (refl, ap (λ t. "/c" ∷ t ∷ []) (full_lem op.args))
    line_lem false = (refl, ap (λ t. "-c" ∷ t ∷ []) (full_lem op.args))

invocation-IsAsked :
    (windows : Bool) (own : List String) (s : CommandService) (op : CommandOperation)
    → IsAsked windows own op (invocation windows own s op)
unfolding invocation
invocation-IsAsked windows own s op = record {
  program = program_of-IsProgram windows op;
  directory = refl;
  variables = variables_lem op.env;
}
  where
    variables_lem :
        (m : Map String) → env_of own m ≡ own ++ map (λ e. append e.0 (append "=" e.1)) m
    variables_lem [] = sym (L.append-nil own)
    variables_lem (e ∷ m) = refl

invocation-IsLimit :
    (windows : Bool) (own : List String) (s : CommandService) (op : CommandOperation)
    → 0 < s.max_timeout
    → s.max_timeout ≤ 9223372036
    → IsLimit (s.max_timeout * 10 ^ 9) (invocation windows own s op).time_limit
unfolding invocation
invocation-IsLimit windows own s op a b = limit-IsLimit s.max_timeout op.timeout a b

-- A command that is not blank runs, once and as it was asked, exactly where no rule matches it with its
-- arguments: its program or line, its directory and its variables are the operation's, and its time limit is
-- positive and at most the service's, whatever limit it asks for, overflow of 64 bits included. Where a rule
-- matches, nothing runs and the result is a refusal. (The service's limit is positive and at most 9223372036
-- seconds.)
pub execute_command-IsGuarded :
    {W : Type 0} (run : Invocation → W → Run × W) (windows : Bool) (own : List String)
    (s : CommandService) (op : CommandOperation) (w : W)
    → is_blank (trim_space op.command) ≡ false
    → 0 < s.max_timeout
    → s.max_timeout ≤ 9223372036
    → (is_denied s op ≡ true
        → (e : String) × (execute_command run windows own s (some op) w ≡ (refusal e, w)))
      × (is_denied s op ≡ false
          → (i : Invocation) × (execute_command run windows own s (some op) w
              ≡ run_reported run i w)
            × IsAsked windows own op i
            × (0 < i.time_limit)
            × (i.time_limit ≤ s.max_timeout * 10 ^ 9))
unfolding execute_command check_denied
execute_command-IsGuarded run windows own s op w h a b = (
  λ d.
      let found =
        check_from-some s.deny_labels (full_text op.command op.args) 0 s.deny_patterns
          (subst IsDenied (sym same) d) in
      (found.0, rw (h, found.1) refl),
  λ d.
      let passed =
        check_from-none s.deny_labels (full_text op.command op.args) 0 s.deny_patterns
          (subst IsAllowed (sym same) d) in
      let within = invocation-IsLimit windows own s op a b in
      (
        invocation windows own s op,
        rw (h, passed) refl,
        invocation-IsAsked windows own s op,
        within.0,
        within.1,
      ),
)
  where
    same : full_text op.command op.args ≡ asked_text op
    same = full_text-asked_text op

    IsDenied : String → Type 0
    IsDenied t = any (λ m. m t) s.deny_patterns ≡ true

    IsAllowed : String → Type 0
    IsAllowed t = any (λ m. m t) s.deny_patterns ≡ false
