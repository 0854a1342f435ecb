-- ===== src/Stream/Followed/Accounts.antt =====
-- Between two calls the flags and the tool calls' states say exactly which blocks are open.
use agentic_model_gateway.Base.{
  NoRepeats, ℕ, ◌≡◌, refl, Bool, true, false, ◌&&◌, Option, none, some, ◌==◌, if◌then◌else◌,
  contains, lookup, insert, arith, Option-cases, inl, inr, lookup-insert,
}
use agentic_model_gateway.Stream.Text.{has}
use agentic_model_gateway.Stream.Event.{
  BlockType, text, thinking, tool_use, is_text, is_thinking, is_tool_use,
}
use agentic_model_gateway.Stream.Blocks.{ToolBlockState, StreamBlockLedger, put_tool}
use agentic_model_gateway.Stream.Ledger.{points_to}
use agentic_model_gateway.Stream.Followed.Running.{
  Tools, running, not_started, RunsAs, contains-running, running-insert_started,
  NoRepeats-running-started, running-insert_stopped, NoRepeats-running-stopped, running-insert_same,
  keys, NoRepeats-keys-insert,
}

-- The types of the blocks that are open, by index.
abbrev pub Kinds : Type 0
Kinds = ℕ → Option BlockType

abbrev pub of_type : (BlockType → Bool) → Option BlockType → Bool
of_type test none = false
of_type test (some t) = test t

-- A type whose blocks are never left open.
abbrev pub is_other : BlockType → Bool
is_other text = false
is_other thinking = false
is_other tool_use = false
is_other _ = true

pub record Accounted (kinds : Kinds) (b : StreamBlockLedger) : Type 0 where
  pub text_set : b.text_started ≡ true → has b.text_index ≡ true
  pub thinking_set : b.thinking_started ≡ true → has b.thinking_index ≡ true
  pub texts : (i : ℕ) → of_type is_text (kinds i) ≡ (b.text_started && points_to b.text_index i)
  pub thinkings :
      (i : ℕ) → of_type is_thinking (kinds i) ≡ (b.thinking_started && points_to b.thinking_index i)
  pub tools : (i : ℕ) → of_type is_tool_use (kinds i) ≡ contains i (running b.tool_states)
  pub no_others : (i : ℕ) → of_type is_other (kinds i) ≡ false
  pub once : NoRepeats (running b.tool_states)
  pub placed :
      (k : ℕ) (state : ToolBlockState)
      → lookup k b.tool_states ≡ some state
      → state.started ≡ true
      → has state.block_index ≡ true
  pub keyed : NoRepeats (keys b.tool_states)

-- Both say the same of every index.
abbrev pub Same : Kinds → Kinds → Type 0
Same kinds kinds' = (j : ℕ) → kinds' j ≡ kinds j

abbrev pub Opened : ℕ → BlockType → Kinds → Kinds → Type 0
Opened n t kinds kinds' = (j : ℕ) → kinds' j ≡ (if n == j then some t else kinds j)

abbrev pub Closed : ℕ → Kinds → Kinds → Type 0
Closed i kinds kinds' = (j : ℕ) → kinds' j ≡ (if i == j then none else kinds j)

module _ {kinds kinds' : Kinds} {b : StreamBlockLedger} (a : Accounted kinds b) where
  pub Accounted-moved :
      (next : ℕ) → Same kinds kinds' → Accounted kinds' (record b { next_index = next })
  Accounted-moved next same = record {
    text_set = a.text_set;
    thinking_set = a.thinking_set;
    texts = λ j. rw (same j) (a.texts j);
    thinkings = λ j. rw (same j) (a.thinkings j);
    tools = λ j. rw (same j) (a.tools j);
    no_others = λ j. rw (same j) (a.no_others j);
    once = a.once;
    placed = a.placed;
    keyed = a.keyed;
  }

  pub Accounted-stop_text :
      (i : ℕ)
      → b.text_started ≡ true
      → b.text_index ≡ some i
      → Closed i kinds kinds'
      → Accounted kinds' (record b { text_started = false })
  Accounted-stop_text i on at closed = record {
    text_set = λ h. cc;
    thinking_set = a.thinking_set;
    texts = λ j. ground (arith, closed j, a.texts j);
    thinkings = λ j. ground (arith, closed j, a.texts j, a.thinkings j);
    tools = λ j. ground (arith, closed j, a.texts j, a.tools j);
    no_others = λ j. ground (arith, closed j, a.no_others j);
    once = a.once;
    placed = a.placed;
    keyed = a.keyed;
  }

  pub Accounted-stop_thinking :
      (i : ℕ)
      → b.thinking_started ≡ true
      → b.thinking_index ≡ some i
      → Closed i kinds kinds'
      → Accounted kinds' (record b { thinking_started = false })
  Accounted-stop_thinking i on at closed = record {
    text_set = a.text_set;
    thinking_set = λ h. cc;
    texts = λ j. ground (arith, closed j, a.texts j, a.thinkings j);
    thinkings = λ j. ground (arith, closed j, a.thinkings j);
    tools = λ j. ground (arith, closed j, a.thinkings j, a.tools j);
    no_others = λ j. ground (arith, closed j, a.no_others j);
    once = a.once;
    placed = a.placed;
    keyed = a.keyed;
  }

  pub Accounted-start_text :
      (n next : ℕ)
      → b.text_started ≡ false
      → kinds n ≡ none
      → Opened n text kinds kinds'
      → Accounted kinds' (record b { next_index = next; text_index = some n; text_started = true })
  Accounted-start_text n next off free opened = record {
    text_set = λ h. refl;
    thinking_set = a.thinking_set;
    texts = λ j. ground (arith, opened j, a.texts j);
    thinkings = λ j. ground (arith, opened j, a.thinkings j);
    tools = λ j. ground (arith, opened j, a.tools j);
    no_others = λ j. ground (arith, opened j, a.no_others j);
    once = a.once;
    placed = a.placed;
    keyed = a.keyed;
  }

  pub Accounted-start_thinking :
      (n next : ℕ)
      → b.thinking_started ≡ false
      → kinds n ≡ none
      → Opened n thinking kinds kinds'
      → Accounted kinds'
          (record b { next_index = next; thinking_index = some n; thinking_started = true })
  Accounted-start_thinking n next off free opened = record {
    text_set = a.text_set;
    thinking_set = λ h. refl;
    texts = λ j. ground (arith, opened j, a.texts j);
    thinkings = λ j. ground (arith, opened j, a.thinkings j);
    tools = λ j. ground (arith, opened j, a.tools j);
    no_others = λ j. ground (arith, opened j, a.no_others j);
    once = a.once;
    placed = a.placed;
    keyed = a.keyed;
  }

  pub Accounted-start_tool :
      (k n next : ℕ) (state : ToolBlockState)
      → not_started (lookup k b.tool_states) ≡ true
      → state.started ≡ true
      → state.block_index ≡ some n
      → kinds n ≡ none
      → Opened n tool_use kinds kinds'
      → Accounted kinds' (record (put_tool k state b) { next_index = next })
  Accounted-start_tool k n next state off on at free opened = record {
    text_set = a.text_set;
    thinking_set = a.thinking_set;
    texts = λ j. ground (arith, opened j, a.texts j);
    thinkings = λ j. ground (arith, opened j, a.thinkings j);
    tools = λ j.
        ground (arith, opened j, a.tools j, running-insert_started k n state on at j b.tool_states);
    no_others = λ j. ground (arith, opened j, a.no_others j);
    once =
        NoRepeats-running-started k n state on at b.tool_states off (ground (arith, a.tools n))
          a.once;
    placed = λ j other found runs.
        ground (arith, a.placed j other, lookup-insert k j state b.tool_states);
    keyed = NoRepeats-keys-insert k state b.tool_states a.keyed;
  }

  pub Accounted-stop_tool :
      (k i : ℕ) (old state : ToolBlockState)
      → lookup k b.tool_states ≡ some old
      → old.started ≡ true
      → old.block_index ≡ some i
      → state.started ≡ false
      → Closed i kinds kinds'
      → Accounted kinds' (put_tool k state b)
  Accounted-stop_tool k i old state found on at off closed =
      let open_tool = contains-running k i old b.tool_states found on at in
      record {
        text_set = a.text_set;
        thinking_set = a.thinking_set;
        texts = λ j. ground (arith, closed j, a.texts j, a.tools j, a.tools i);
        thinkings = λ j. ground (arith, closed j, a.thinkings j, a.tools j, a.tools i);
        tools = λ j. ground (
          arith,
          closed j,
          a.tools j,
          running-insert_stopped k i old state on at off j b.tool_states found a.once,
        );
        no_others = λ j. ground (arith, closed j, a.no_others j);
        once = NoRepeats-running-stopped k i old state on at off b.tool_states found a.once;
        placed = λ j other there runs.
            ground (arith, a.placed j other, lookup-insert k j state b.tool_states);
        keyed = NoRepeats-keys-insert k state b.tool_states a.keyed;
      }

placed-retold :
    (k j : ℕ) (state other : ToolBlockState) (tools : Tools)
    → RunsAs (lookup k tools) state
    → ((old : ToolBlockState)
        → lookup j tools ≡ some old
        → old.started ≡ true
        → has old.block_index ≡ true)
    → lookup j (insert k state tools) ≡ some other
    → other.started ≡ true
    → has other.block_index ≡ true
placed-retold k j state other tools same all found runs = elim (Option-cases (lookup k tools)) [
  | inl e ↦
      let off : state.started ≡ false = rw e at same in
      ground (arith, all other, lookup-insert k j state tools)
  | inr (old, e) ↦
      let runs_as = rw e at same in
      ground (arith, all other, all old, lookup-insert k j state tools, runs_as.0, runs_as.1)
]

-- A tool call's state that runs as before: its texts have changed.
pub Accounted-retold :
    {kinds : Kinds} {b : StreamBlockLedger} (k : ℕ) (state : ToolBlockState)
    → Accounted kinds b
    → RunsAs (lookup k b.tool_states) state
    → Accounted kinds (put_tool k state b)
Accounted-retold {kinds} {b} k state a same = record {
  text_set = a.text_set;
  thinking_set = a.thinking_set;
  texts = a.texts;
  thinkings = a.thinkings;
  tools = λ j. rw (running-insert_same k state b.tool_states same) (a.tools j);
  no_others = a.no_others;
  once = rw (running-insert_same k state b.tool_states same) a.once;
  placed = λ j other found runs.
      placed-retold k j state other b.tool_states same (a.placed j) found runs;
  keyed = NoRepeats-keys-insert k state b.tool_states a.keyed;
}
