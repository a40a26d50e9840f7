-- ===== src/Security/Check.antt =====
-- permission_guard.go, `Check`: when a tool call is let through, and the circuit breaker.
use mathlib.Core.List.{Memᴰ}
use ai_desktop_assistant.Common.{
  ◌+◌, ◌≤◌, ◌<◌, ◌≡◌, ◌≢◌, subst, ◌⊎◌, String, true, false, none, List, [], ◌∷◌, arith, str_eq_refl,
  All,
}
use ai_desktop_assistant.Common.Map.{lookup_or, lookup-insert}
use ai_desktop_assistant.Common.Text.{is_blank}
use ai_desktop_assistant.Values.{Args, Printer}
use ai_desktop_assistant.Security.{
  allow, deny, Rule, PermissionGuard, first_match, is_allowed, streak_of, inc_deny, is_read_tool,
  extract_command, tool_sig, check_policy, check_command, check,
}

-- No rule of a list matches.
abbrev pub NoMatch : String → List Rule → Type 0
NoMatch cmd rules = All (λ r. r.matches cmd ≡ false) rules

first_match-none :
    (rules : List Rule) (cmd : String) → first_match rules cmd ≡ none → NoMatch cmd rules
unfolding first_match
first_match-none [] cmd h = tt
first_match-none (r ∷ rules) cmd h = ground (arith, first_match-none rules cmd)

first_match-mem :
    (rules : List Rule) (cmd : String) (r : Rule)
    → Memᴰ r rules
    → r.matches cmd ≡ true
    → first_match rules cmd ≢ none
unfolding first_match
first_match-mem [] cmd r m h = elim m [ ]
first_match-mem (x ∷ rules) cmd r (Memᴰ.head e) h =
    let first : x.matches cmd ≡ true = subst (λ y. y.matches cmd ≡ true) e h in ground arith
first_match-mem (x ∷ rules) cmd r (Memᴰ.tail m) h = ground (arith, first_match-mem rules cmd r m h)

module _ (printer : Printer) (g : PermissionGuard) (session tool : String) (args : Args) where
  -- Nothing speaks against a call: no rule matches its command, and its tool neither writes, deletes nor
  -- runs a command.
  pub record IsHarmless : Type 0 where
    pub unmatched :
        let cmd = extract_command printer tool args in
        (is_blank cmd ≡ true) ⊎ (NoMatch cmd g.deny_rules × NoMatch cmd g.confirm_rules)
    pub no_write : lookup_or false tool g.write_tools ≡ false
    pub no_delete : lookup_or false tool g.delete_tools ≡ false
    pub no_command : lookup_or false tool g.command_tools ≡ false

  -- The grounds on which a call is let through.
  abbrev pub Grounds : Type 0
  Grounds =
      ((is_allowed g session (tool_sig printer tool args) ≡ true)
        ⊎ (is_allowed g session "*" ≡ true))
      ⊎ ((is_read_tool tool ≡ true) ⊎ IsHarmless)

  check_policy-allow :
      (check_policy printer g tool args).action ≡ allow
      → (lookup_or false tool g.write_tools ≡ false)
        × (lookup_or false tool g.delete_tools ≡ false)
        × (lookup_or false tool g.command_tools ≡ false)
  unfolding check_policy
  check_policy-allow h = ground arith

  check_command-allow : (check_command printer g session tool args).1.action ≡ allow → IsHarmless
  unfolding check_command
  check_command-allow h =
      let cmd = extract_command printer tool args in
      ground (
        arith,
        check_policy-allow,
        first_match-none g.deny_rules cmd,
        first_match-none g.confirm_rules cmd,
      )

  -- A call is allowed only while the session's streak of denials is below the limit, and only because the
  -- session has approved this call or every call, or the tool only reads, or nothing speaks against it.
  pub check-allow :
      (check printer g session tool args).1.action ≡ allow
      → (streak_of g session < g.circuit_limit) × Grounds
  unfolding check
  check-allow h = ground (arith, check_command-allow)

  -- A call whose command some deny rule matches is denied, unless the session has approved it or all
  -- calls, or the tool only reads; and the session's streak of denials then grows by one, or had already
  -- reached the limit.
  pub check-deny :
      (r : Rule)
      → Memᴰ r g.deny_rules
      → r.matches (extract_command printer tool args) ≡ true
      → is_blank (extract_command printer tool args) ≡ false
      → is_allowed g session (tool_sig printer tool args) ≡ false
      → is_allowed g session "*" ≡ false
      → is_read_tool tool ≡ false
      → let (g', d) = check printer g session tool args in
        (d.action ≡ deny)
        × ((streak_of g' session ≡ streak_of g session + 1)
            ⊎ (g.circuit_limit ≤ streak_of g session))
  unfolding check check_command inc_deny streak_of
  check-deny r m h b a all reads = ground (
    arith,
    first_match-mem g.deny_rules (extract_command printer tool args) r m h,
    lookup-insert session session (lookup_or 0 session g.deny_streak + 1) g.deny_streak,
    str_eq_refl session,
  )

  -- A call that is not denied was approved by the session, or its tool only reads, or no deny rule matches
  -- the command it has.
  abbrev pub IsCleared : Type 0
  IsCleared =
      ((is_allowed g session (tool_sig printer tool args) ≡ true)
        ⊎ (is_allowed g session "*" ≡ true))
      ⊎ ((is_read_tool tool ≡ true)
          ⊎ ((is_blank (extract_command printer tool args) ≡ true)
              ⊎ NoMatch (extract_command printer tool args) g.deny_rules))

  pub check-IsCleared : (check printer g session tool args).1.action ≢ deny → IsCleared
  unfolding check check_command
  check-IsCleared h =
      ground (arith, first_match-none g.deny_rules (extract_command printer tool args))

  -- What a check leaves alone: all but the streak of denials of its own session, which it raises by at
  -- most one.
  pub record IsChecked (g' : PermissionGuard) : Type 0 where
    pub same_allow : g'.session_allow ≡ g.session_allow
    pub same_pending : g'.pending ≡ g.pending
    pub same_awaiting : g'.awaiting ≡ g.awaiting
    pub same_deny_rules : g'.deny_rules ≡ g.deny_rules
    pub same_limit : g'.circuit_limit ≡ g.circuit_limit
    pub streak_ge : streak_of g session ≤ streak_of g' session
    pub streak_le : streak_of g' session ≤ streak_of g session + 1

  pub check-IsChecked : IsChecked (check printer g session tool args).0
  unfolding check check_command inc_deny streak_of
  check-IsChecked = ground (
    arith,
    lookup-insert session session (lookup_or 0 session g.deny_streak + 1) g.deny_streak,
    str_eq_refl session,
  )
