-- ===== src/Agent/Turns.antt =====
-- `turnBuilder` and `ExtractTurns` of pkg/agent/runner.go: the calls of the model that the updates of a
-- session show. The tokenizer's failures are dropped there, and count as 0.
use mcpchecker.Prelude.Word.{add64}
use mcpchecker.Tokens.Compute.{Tokenizer}
use mcpchecker.Tokens.{TurnTokens}
use mcpchecker.Prelude.Int.{pos, pos_part}
use mcpchecker.Prelude.{
  Bool-cases, ap, inl, inr, refl, ◌∙◌, ℕ, Bool, List, Option, String, [], arith, false,
  if◌then◌else◌, none, some, str_append, true, ◌&&◌, ◌++◌, ◌+◌, ◌||◌, ◌∷◌, ◌≡◌,
}
use mcpchecker.Agent.{AcpToolCall, AcpToolCallUpdate, chunk_text, SessionUpdate}

pub record TurnBuilder : Type 0 where
  pub thinking : String
  pub message : String
  pub num_tool_calls : ℕ
  pub started : Bool
  pub seen_results : Bool
  pub turns : List TurnTokens

unfoldable pub count_or_zero : Tokenizer → String → ℕ
count_or_zero tok s = elim (tok.count_tokens s) [ some n ↦ n | none ↦ 0 ]

unfoldable pub flush_turn : Tokenizer → TurnBuilder → TurnBuilder
unfolding count_or_zero
flush_turn tok tb = record {
  thinking = "";
  message = "";
  num_tool_calls = 0;
  started = false;
  seen_results = false;
  turns =
      tb.turns
      ++ record {
        output_tokens = add64 (count_or_zero tok tb.thinking) (count_or_zero tok tb.message);
        num_tool_calls = pos tb.num_tool_calls;
      }
        ∷ [];
}

abbrev is_some : {A : Type 0} → Option A → Bool
is_some none = false
is_some (some a) = true

-- A thought or a message after results starts a new turn.
unfoldable pub on_text : Tokenizer → Option String → Option String → TurnBuilder → TurnBuilder
unfolding flush_turn
on_text tok thought message tb =
    if (is_some thought || is_some message) && tb.seen_results then flush_turn tok tb else tb

unfoldable pub write_thinking : Option String → TurnBuilder → TurnBuilder
write_thinking none tb = tb
write_thinking (some s) tb = record tb { started = true; thinking = str_append tb.thinking s }

unfoldable pub write_message : Option String → TurnBuilder → TurnBuilder
write_message none tb = tb
write_message (some s) tb = record tb { started = true; message = str_append tb.message s }

unfoldable pub count_call : Option AcpToolCall → TurnBuilder → TurnBuilder
count_call none tb = tb
count_call (some tc) tb = record tb { started = true; num_tool_calls = tb.num_tool_calls + 1 }

unfoldable pub see_results : Option AcpToolCallUpdate → TurnBuilder → TurnBuilder
see_results none tb = tb
see_results (some u) tb = if is_some u.raw_output then record tb { seen_results = true } else tb

-- One round of the loop.
unfoldable pub turn_round : Tokenizer → SessionUpdate → TurnBuilder → TurnBuilder
unfolding on_text write_thinking write_message count_call see_results
turn_round tok u tb =
    let thought = chunk_text u.agent_thought_chunk in
    let message = chunk_text u.agent_message_chunk in
    see_results u.tool_call_update (
      count_call u.tool_call
        (write_message message (write_thinking thought (on_text tok thought message tb))))

unfoldable pub rounds : Tokenizer → List SessionUpdate → TurnBuilder → TurnBuilder
unfolding turn_round
rounds tok [] tb = tb
rounds tok (u ∷ us) tb = rounds tok us (turn_round tok u tb)

abbrev pub new_turn_builder : TurnBuilder
new_turn_builder = record {
  thinking = "";
  message = "";
  num_tool_calls = 0;
  started = false;
  seen_results = false;
  turns = [];
}

unfoldable pub extract_turns : Tokenizer → List SessionUpdate → List TurnTokens
unfolding rounds flush_turn
extract_turns tok updates =
    let tb = rounds tok updates new_turn_builder in
    if tb.started then (flush_turn tok tb).turns else tb.turns

-- The tool calls that the updates announce, and those that the turns count.
abbrev pub announced : List SessionUpdate → ℕ
announced [] = 0
announced (u ∷ us) = let rest = announced us in if is_some u.tool_call then 1 + rest else rest

abbrev pub counted : List TurnTokens → ℕ
counted [] = 0
counted (t ∷ ts) = pos_part t.num_tool_calls + counted ts

counted-append : (ts us : List TurnTokens) → counted (ts ++ us) ≡ counted ts + counted us
counted-append [] us = omega arith
counted-append (t ∷ ts) us = omega (arith, counted-append ts us)

-- What a builder has counted; a turn that has not started has no call.
record Sound (tb : TurnBuilder) : Type 0 where
  idle : tb.started ≡ false → tb.num_tool_calls ≡ 0

abbrev so_far : TurnBuilder → ℕ
so_far tb = counted tb.turns + tb.num_tool_calls

one_turn : TurnBuilder → Tokenizer → List TurnTokens
unfolding count_or_zero
one_turn tb tok =
    record {
      output_tokens = add64 (count_or_zero tok tb.thinking) (count_or_zero tok tb.message);
      num_tool_calls = pos tb.num_tool_calls;
    }
    ∷ []

flush_turn-so_far :
    (tok : Tokenizer) (tb : TurnBuilder)
    → (so_far (flush_turn tok tb) ≡ so_far tb) × (counted (flush_turn tok tb).turns ≡ so_far tb)
unfolding flush_turn one_turn
flush_turn-so_far tok tb =
    let e = counted-append tb.turns (one_turn tb tok) in (omega (arith, e), omega (arith, e))

on_text-Sound :
    (tok : Tokenizer) (s t : Option String) (tb : TurnBuilder)
    → Sound tb
    → (so_far (on_text tok s t tb) ≡ so_far tb) × Sound (on_text tok s t tb)
unfolding on_text
on_text-Sound tok s t tb h = elim (Bool-cases ((is_some s || is_some t) && tb.seen_results)) [
  | inl q ↦ rw q ((flush_turn-so_far tok tb).0, record { idle = λ _. refl })
  | inr q ↦ rw q (refl, h)
]

write_thinking-Sound :
    (s : Option String) (tb : TurnBuilder)
    → Sound tb
    → (so_far (write_thinking s tb) ≡ so_far tb) × Sound (write_thinking s tb)
unfolding write_thinking
write_thinking-Sound none tb h = (refl, h)
write_thinking-Sound (some s) tb h = (refl, record { idle = λ e. absurd (cc e) })

write_message-Sound :
    (s : Option String) (tb : TurnBuilder)
    → Sound tb
    → (so_far (write_message s tb) ≡ so_far tb) × Sound (write_message s tb)
unfolding write_message
write_message-Sound none tb h = (refl, h)
write_message-Sound (some s) tb h = (refl, record { idle = λ e. absurd (cc e) })

count_call-Sound :
    (o : Option AcpToolCall) (tb : TurnBuilder)
    → Sound tb
    → (so_far (count_call o tb) ≡ so_far tb + (if is_some o then 1 else 0))
      × Sound (count_call o tb)
unfolding count_call
count_call-Sound none tb h = (omega arith, h)
count_call-Sound (some tc) tb h = (omega arith, record { idle = λ e. absurd (cc e) })

see_results-Sound :
    (o : Option AcpToolCallUpdate) (tb : TurnBuilder)
    → Sound tb
    → (so_far (see_results o tb) ≡ so_far tb) × Sound (see_results o tb)
unfolding see_results
see_results-Sound none tb h = (refl, h)
see_results-Sound (some u) tb h = elim (Bool-cases (is_some u.raw_output)) [
  | inl q ↦ rw q (refl, record { idle = h.idle })
  | inr q ↦ rw q (refl, h)
]

turn_round-Sound :
    (tok : Tokenizer) (u : SessionUpdate) (tb : TurnBuilder)
    → Sound tb
    → (so_far (turn_round tok u tb) ≡ so_far tb + (if is_some u.tool_call then 1 else 0))
      × Sound (turn_round tok u tb)
unfolding turn_round
turn_round-Sound tok u tb h =
    let thought = chunk_text u.agent_thought_chunk in
    let message = chunk_text u.agent_message_chunk in
    let (a, x) = on_text-Sound tok thought message tb h in
    let (b, y) = write_thinking-Sound thought _ x in
    let (c, z) = write_message-Sound message _ y in
    let (d, v) = count_call-Sound u.tool_call _ z in
    let (e, w) = see_results-Sound u.tool_call_update _ v in
    (e ∙ d ∙ ap (λ n. n + (if is_some u.tool_call then 1 else 0)) (c ∙ b ∙ a), w)

rounds-Sound :
    (tok : Tokenizer) (us : List SessionUpdate) (tb : TurnBuilder)
    → Sound tb
    → (so_far (rounds tok us tb) ≡ so_far tb + announced us) × Sound (rounds tok us tb)
unfolding rounds
rounds-Sound tok [] tb h = (omega arith, h)
rounds-Sound tok (u ∷ us) tb h =
    let (e, x) = turn_round-Sound tok u tb h in
    let (f, y) = rounds-Sound tok us (turn_round tok u tb) x in
    (
      elim (Bool-cases (is_some u.tool_call)) [
        | inl q ↦ rw q (omega (arith, f, rw q at e))
        | inr q ↦ rw q (omega (arith, f, rw q at e))
      ],
      y,
    )

-- Whatever the tokenizer and the updates, the turns count each announced tool call once: the sum of
-- their numbers of tool calls is the number of the updates that announce a tool call.
pub extract_turns_counts :
    (tok : Tokenizer) (us : List SessionUpdate) → counted (extract_turns tok us) ≡ announced us
unfolding extract_turns
extract_turns_counts tok us =
    let (e, h) = rounds-Sound tok us new_turn_builder (record { idle = λ _. refl }) in
    elim (Bool-cases (rounds tok us new_turn_builder).started) [
      | inl q ↦ rw q (omega (arith, (flush_turn-so_far tok (rounds tok us new_turn_builder)).1, e))
      | inr q ↦ rw q (omega (arith, e, h.idle q))
    ]
