-- ===== src/Stream/Followed/Texts.antt =====
-- The identifier, name and extra content of a tool call change no account.
use agentic_model_gateway.Base.{
  ℕ, ◌≡◌, refl, ◌∙◌, Option, none, some, [], ◌∷◌, lookup, lookup-insert, arith, ==_refl, false,
}
use agentic_model_gateway.Stream.Text.{Text}
use agentic_model_gateway.Stream.Blocks.{
  ToolBlockState, put_tool, set_stream_tool_id, set_tool_extra_content, register_tool_name,
  ensure_tool_state, ensured, named_state, new_tool_state,
}
use agentic_model_gateway.Stream.Ledger.{Ledger}
use agentic_model_gateway.Stream.Followed.Blocks.{open_kind}
use agentic_model_gateway.Stream.Followed.Running.{RunsAs}
use agentic_model_gateway.Stream.Followed.Accounts.{Accounted-retold}
use agentic_model_gateway.Stream.Followed.Opening.{Sound, Followed-reblocked}

-- The texts of a tool call's state say nothing of its block.
put_tool-Sound :
    (k : ℕ) (state : ToolBlockState) (l : Ledger)
    → Sound l
    → RunsAs (lookup k l.blocks.tool_states) state
    → Sound (record l { blocks = put_tool k state l.blocks })
unfolding open_kind
put_tool-Sound k state l s same = record {
  followed = Followed-reblocked l (put_tool k state l.blocks) (omega arith) s.followed;
  accounted = Accounted-retold k state s.accounted same;
}

named_state-RunsAs : (o : Option ToolBlockState) (name : Text) → RunsAs o (named_state o name)
named_state-RunsAs none name = refl
named_state-RunsAs (some state) name = (refl, refl)

pub register_tool_name-Sound :
    (k : ℕ) (name : Text) (l : Ledger)
    → Sound l
    → Sound (record l { blocks = register_tool_name k name l.blocks })
unfolding register_tool_name
register_tool_name-Sound k name l s =
    let old = lookup k l.blocks.tool_states in
    put_tool-Sound k (named_state old name) l s (named_state-RunsAs old name)

-- The state that a caller gets is the one that stands in the ledger.
ensured-Sound :
    (k : ℕ) (o : Option ToolBlockState) (l : Ledger)
    → Sound l
    → lookup k l.blocks.tool_states ≡ o
    → Sound (record l { blocks = (ensured k o l.blocks).1 })
      × (lookup k (ensured k o l.blocks).1.tool_states ≡ some (ensured k o l.blocks).0)
ensured-Sound k (some state) l s e = (s, e)
ensured-Sound k none l s e =
    let state = new_tool_state none [] [] none false in
    (
      put_tool-Sound k state l s (rw e refl),
      lookup-insert k k state l.blocks.tool_states ∙ rw (==_refl k) refl,
    )

-- A change of the state's texts.
touched-Sound :
    (k : ℕ) (f : ToolBlockState → ToolBlockState) (l : Ledger)
    → Sound l
    → ((state : ToolBlockState)
        → ((f state).started ≡ state.started) × ((f state).block_index ≡ state.block_index))
    → Sound (record l {
      blocks = put_tool k (f (ensure_tool_state k l.blocks).0) (ensure_tool_state k l.blocks).1;
    })
unfolding ensure_tool_state
touched-Sound k f l s keeps =
    let (state, b) = ensured k (lookup k l.blocks.tool_states) l.blocks in
    let (sound, found) = ensured-Sound k (lookup k l.blocks.tool_states) l s refl in
    put_tool-Sound k (f state) (record l { blocks = b }) sound (rw found (keeps state))

pub set_stream_tool_id-Sound :
    (k : ℕ) (id : Text) (l : Ledger)
    → Sound l
    → Sound (record l { blocks = set_stream_tool_id k id l.blocks })
unfolding set_stream_tool_id
set_stream_tool_id-Sound k [] l s = s
set_stream_tool_id-Sound k (c ∷ id) l s =
    touched-Sound k (λ state. record state { tool_id = c ∷ id }) l s (λ state. (refl, refl))

pub set_tool_extra_content-Sound :
    (k : ℕ) (extra : Option ℕ) (l : Ledger)
    → Sound l
    → Sound (record l { blocks = set_tool_extra_content k extra l.blocks })
unfolding set_tool_extra_content
set_tool_extra_content-Sound k none l s = s
set_tool_extra_content-Sound k (some extra) l s =
    touched-Sound k (λ state. record state { extra_content = some extra }) l s
      (λ state. (refl, refl))
