-- ===== src/Engine/Endless.antt =====
-- engine/agent_engine.go: runs that do not end, and the results of those that do.
use ai_desktop_assistant.Common.{
  ℕ, zero, suc, ◌+◌, ◌<◌, ◌≡◌, ◌≢◌, refl, ap, ◌∙◌, true, false, none, some, List, inl, inr, arith,
  length, is_empty, if_ind, Option-cases, Bool-cases,
}
use ai_desktop_assistant.Common.Text.{is_blank, runes, of_runes}
use ai_desktop_assistant.Engine.Types.{
  ToolCall, ChatMessage, ChatResponse, Reply, failure, reply, State, Env, event, publish, thought,
}
use ai_desktop_assistant.Engine.Config.{LoopConfig}
use ai_desktop_assistant.Engine.Parse.{fenced, braced, decode_calls, parse_response}
use ai_desktop_assistant.Engine.Parse.Depth.{parse_tool_calls-never}
use ai_desktop_assistant.Engine.Round.{
  Outcome, next, stop, cancel, diverge, tools_round, repeated_round, generate_with_retries,
  count_tokens, response_round, reply_round, round,
}
use ai_desktop_assistant.Engine.Run.{
  Ending, finished, cancelled, diverged, react_loop, resume_run, run, finish_run, cancel_run,
}

module _ (env : Env) (cfg : LoopConfig) where
  generate_with_retries_reply :
      (retries : ℕ) (s : State) (r : ChatResponse)
      → env.generate s.generated s.messages ≡ reply r
      → generate_with_retries env cfg retries s
        ≡ (record s { generated = s.generated + 1 }, reply r)
  unfolding generate_with_retries
  generate_with_retries_reply zero s r h = ground arith
  generate_with_retries_reply (suc retries) s r h = ground arith

  response_round_unread :
      (step : ℕ) (r : ChatResponse) (s : State)
      → is_empty r.tool_calls ≡ true
      → parse_response env.decoder r.content ≡ none
      → response_round env cfg step r s ≡ diverge (count_tokens env cfg r s)
  unfolding response_round
  response_round_unread step r s h k = ground arith

  round_going :
      (step : ℕ) (s : State)
      → env.cancelled step ≡ false
      → round env cfg step s
        ≡ reply_round env cfg step (
            generate_with_retries env cfg cfg.max_ai_retries
              (publish (event thought "" step false) s))
  unfolding round
  round_going step s on = ground arith

  round_unread :
      (step : ℕ) (r : ChatResponse) (s : State)
      → env.cancelled step ≡ false
      → env.generate s.generated s.messages ≡ reply r
      → is_empty r.tool_calls ≡ true
      → parse_response env.decoder r.content ≡ none
      → (t : State) × (round env cfg step s ≡ diverge t)
  unfolding reply_round
  round_unread step r s on answered no_calls unread =
      let s1 = publish (event thought "" step false) s in
      let s2 = record s1 { generated = s1.generated + 1 } in
      let first = generate_with_retries_reply cfg.max_ai_retries s1 r answered in
      (
        count_tokens env cfg r s2,
        round_going step s on
            ∙ ap (reply_round env cfg step) first
            ∙ response_round_unread step r s2 no_calls unread,
      )

  react_loop_stuck :
      (left step : ℕ) (s t : State)
      → 0 < left
      → round env cfg step s ≡ diverge t
      → react_loop env cfg left step s ≡ diverged t
  unfolding react_loop
  react_loop_stuck zero step s t some_left h = absurd (omega (arith, some_left))
  react_loop_stuck (suc left) step s t some_left h = ground arith

  resume_run_new : (s : State) → env.continuing ≡ false → resume_run env cfg s ≡ s
  unfolding resume_run
  resume_run_new s h = ground arith

  -- A run whose model first answers, with no calls of its own, by a text from an opening brace to a closing
  -- one, with no fenced block in it, that decodes to no call, never ends: the text is read again and again.
  -- (The run is a new one, has a round, and is not cancelled.)
  pub run-never :
      (s : State) (r : ChatResponse)
      → env.continuing ≡ false
      → 0 < cfg.max_rounds
      → env.cancelled 1 ≡ false
      → env.generate s.generated s.messages ≡ reply r
      → is_empty r.tool_calls ≡ true
      → braced (runes r.content) ≡ some (runes r.content)
      → fenced "```json" (runes r.content) ≡ none
      → fenced "```" (runes r.content) ≡ none
      → decode_calls env.decoder (of_runes (runes r.content)) ≡ none
      → (t : State) × (run env cfg s ≡ diverged t)
  unfolding run parse_response
  run-never s r new rounds on answered no_calls whole no_json no_fence undecoded =
      let text = runes r.content in
      let unread =
        parse_tool_calls-never env.decoder text whole no_json no_fence undecoded
          (suc (length text)) in
      let (t, stuck) = round_unread 1 r s on answered no_calls unread in
      (
        t,
        ap (react_loop env cfg cfg.max_rounds 1) (resume_run_new s new)
            ∙ react_loop_stuck cfg.max_rounds 1 s t rounds stuck,
      )

  -- The run has ended, with a response that is not empty.
  abbrev pub IsAnswered : Ending → Type 0
  IsAnswered (finished s r) = is_blank r.response ≡ false
  IsAnswered (cancelled s r) = is_blank r.response ≡ false
  IsAnswered (diverged s) = ⊥

  finish_run-IsAnswered : (s : State) → IsAnswered (finish_run env cfg s)
  unfolding finish_run
  finish_run-IsAnswered s =
      if_ind (λ (t : State). is_blank t.final_answer ≡ false) (is_blank s.final_answer)
        (λ empty. refl) (λ given. given)

  cancel_run-IsAnswered : (step : ℕ) (s : State) → IsAnswered (cancel_run env cfg step s)
  unfolding cancel_run
  cancel_run-IsAnswered step s = refl

  abbrev EndsRead : Outcome → Type 0
  EndsRead (diverge s) = ⊥
  EndsRead o = Unit {0}

  module _
      (reads : (n : ℕ) (ms : List ChatMessage) (r : ChatResponse)
        → env.generate n ms ≡ reply r
        → is_empty r.tool_calls ≡ true
        → parse_response env.decoder r.content ≢ none) where
    tools_round-EndsRead :
        (step : ℕ) (r : ChatResponse) (calls : List ToolCall) (s : State)
        → EndsRead (tools_round env cfg step r calls s)
    unfolding tools_round
    tools_round-EndsRead step r calls s = ground arith

    repeated_round-EndsRead :
        (step : ℕ) (r : ChatResponse) (calls : List ToolCall) (s : State)
        → EndsRead (repeated_round env cfg step r calls s)
    unfolding repeated_round
    repeated_round-EndsRead step r calls s =
        let s1 = record s { same_sig_count = s.same_sig_count + 1 } in
        let s2 = record s { same_sig_count = 0; last_tool_sig = env.sign calls } in
        ground (arith, tools_round-EndsRead step r calls s1, tools_round-EndsRead step r calls s2)

    response_round-EndsRead :
        (step : ℕ) (r : ChatResponse) (s : State)
        → (is_empty r.tool_calls ≡ true → parse_response env.decoder r.content ≢ none)
        → EndsRead (response_round env cfg step r s)
    unfolding response_round
    response_round-EndsRead step r s read =
        let s' = count_tokens env cfg r s in
        let given = repeated_round-EndsRead step r r.tool_calls s' in
        elim (Option-cases (parse_response env.decoder r.content)) [
          | inl unread ↦ elim (Bool-cases (is_empty r.tool_calls)) [
            | inl no_calls ↦ absurd (read no_calls unread)
            | inr calls ↦ rw calls given
          ]
          | inr (calls, found) ↦ ground (arith, given, repeated_round-EndsRead step r calls s')
        ]

    -- A round goes on from an answer of the model.
    answered-EndsRead :
        (step n : ℕ) (ms : List ChatMessage) (s : State) (q : Reply)
        → env.generate n ms ≡ q
        → EndsRead (reply_round env cfg step (s, q))
    unfolding reply_round
    answered-EndsRead step n ms s (failure e) h = tt
    answered-EndsRead step n ms s (reply r) h = response_round-EndsRead step r s (reads n ms r h)

    retries-EndsRead :
        (retries step : ℕ) (s : State)
        → EndsRead (reply_round env cfg step (generate_with_retries env cfg retries s))
    unfolding generate_with_retries
    retries-EndsRead zero step s = answered-EndsRead step s.generated s.messages _ _ refl
    retries-EndsRead (suc retries) step s =
        first_lem (env.generate s.generated s.messages) refl
          (retries-EndsRead retries step (record s { generated = s.generated + 1 }))
      where
        s1 : State
        s1 = record s { generated = s.generated + 1 }

        first_lem :
            (q : Reply)
            → env.generate s.generated s.messages ≡ q
            → EndsRead (reply_round env cfg step (generate_with_retries env cfg retries s1))
            → EndsRead (
                reply_round env cfg step (elim q [
                  | reply r ↦ (s1, reply r)
                  | failure e ↦ generate_with_retries env cfg retries s1
                ]))
        first_lem (reply r) h again = answered-EndsRead step s.generated s.messages s1 (reply r) h
        first_lem (failure e) h again = again

    round-EndsRead : (step : ℕ) (s : State) → EndsRead (round env cfg step s)
    unfolding round
    round-EndsRead step s =
        let s1 = publish (event thought "" step false) s in
        if_ind EndsRead (env.cancelled step) (λ off. tt)
          (λ on. retries-EndsRead cfg.max_ai_retries step s1)

    react_loop-IsAnswered :
        (left step : ℕ) (s : State) → IsAnswered (react_loop env cfg left step s)
    unfolding react_loop
    react_loop-IsAnswered zero step s = finish_run-IsAnswered s
    react_loop-IsAnswered (suc left) step s =
        (elim (round env cfg step s)
            as (λ o.
              EndsRead o
              → IsAnswered (elim o [
                | next s' ↦ react_loop env cfg left (suc step) s'
                | stop s' ↦ finish_run env cfg s'
                | cancel s' ↦ cancel_run env cfg step s'
                | diverge s' ↦ diverged s'
              ])) [
                | next s' ↦ λ e. react_loop-IsAnswered left (suc step) s'
                | stop s' ↦ λ e. finish_run-IsAnswered s'
                | cancel s' ↦ λ e. cancel_run-IsAnswered step s'
                | diverge s' ↦ λ e. e
              ])
          (round-EndsRead step s)

    -- Where reading the calls of each answer that the model gives without calls of its own returns, every run ends, by its last round at the
    -- latest, with a response that is not empty, whatever the model and the tools do.
    pub run-IsAnswered : (s : State) → IsAnswered (run env cfg s)
    unfolding run
    run-IsAnswered s = react_loop-IsAnswered cfg.max_rounds 1 (resume_run env cfg s)
