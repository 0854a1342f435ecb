-- ===== src/Stream/Tests.antt =====
-- The theorems on streams at a turn that thinks, speaks and calls tools.
use agentic_model_gateway.Base.{◌≡◌, refl, true, false, none, some, List, [], ◌∷◌}
use agentic_model_gateway.Stream.Event.{end_turn}
use agentic_model_gateway.Stream.Ledger.{Ledger, start_message}
use agentic_model_gateway.Stream.Turn.{close_unclosed_blocks}
use agentic_model_gateway.Stream.Client.{
  Call, text_arrives, reasoning_arrives, tool_starts, arguments_arrive, tool_ends, reasoning_sealed,
  tool_arrives, id_arrives, play, all_may, finish,
}
use agentic_model_gateway.Stream.Contract.{Seen, nothing_seen, see_all, meets_contract}
use agentic_model_gateway.Stream.Followed.Contracts.{started, stream_meets_contract}
use agentic_model_gateway.Stream.Followed.CutOff.{cut_off_stream_closed}

-- Two tool calls run at once, and one of them never ends.
abbrev turn : List Call
turn =
    reasoning_arrives (104 ∷ 109 ∷ [])
    ∷ text_arrives (72 ∷ 105 ∷ [])
    ∷ id_arrives 0 (49 ∷ [])
    ∷ tool_starts 0 (49 ∷ []) (76 ∷ 115 ∷ []) none
    ∷ tool_starts 1 (50 ∷ []) (82 ∷ 109 ∷ []) none
    ∷ arguments_arrive 0 (123 ∷ [])
    ∷ arguments_arrive 1 (123 ∷ 125 ∷ [])
    ∷ tool_ends 1
    ∷ reasoning_sealed (120 ∷ [])
    ∷ tool_arrives (51 ∷ []) (67 ∷ 112 ∷ []) (123 ∷ 125 ∷ [])
    ∷ []

turn_allowed : all_may turn (started 1 2 3) ≡ true
unfolding all_may start_message
turn_allowed = refl

stream_meets_contract_example :
    (l l' : Ledger) × (play turn (started 1 2 3) ≡ some l)
    × (finish end_turn none none [] l ≡ some l')
    × (meets_contract false true l'.sent ≡ true)
stream_meets_contract_example = stream_meets_contract 1 2 3 turn end_turn none none [] turn_allowed

cut_off_stream_closed_example :
    (l : Ledger) × (c : Seen) × (play turn (started 1 2 3) ≡ some l)
    × (see_all false (close_unclosed_blocks l).sent (some nothing_seen) ≡ some c)
    × (c.open_blocks ≡ [])
cut_off_stream_closed_example = cut_off_stream_closed 1 2 3 turn turn_allowed
