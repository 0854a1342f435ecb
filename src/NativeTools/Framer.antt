-- ===== src/NativeTools/Framer.antt =====
-- providers/nvidia_nim/native_tool_stream.py: class _MiniMaxM3ToolFramer. A raised exception is a value,
-- and what it leaves of the framer is dropped with the stream.
use agentic_model_gateway.Base.{
  ℕ, zero, suc, ◌+◌, ◌-◌, min, Bool, true, false, not, Option, none, some, List, [], ◌∷◌, ◌++◌,
  length, ltb, ◌==◌, if◌then◌else◌, is_none,
}
use agentic_model_gateway.Stream.Text.{Text, is_empty, is_visible, join, starts_with}
use agentic_model_gateway.Stream.Slices.{drop, take, without_last}
use agentic_model_gateway.Think.Find.{find}

-- `]<]minimax[>[`
abbrev pub namespace : Text
namespace = 93 ∷ 60 ∷ 93 ∷ 109 ∷ 105 ∷ 110 ∷ 105 ∷ 109 ∷ 97 ∷ 120 ∷ 91 ∷ 62 ∷ 91 ∷ []

-- The namespace with `<tool_call>`, and with `</tool_call>`.
abbrev pub tool_block_start : Text
tool_block_start = namespace ++ 60 ∷ 116 ∷ 111 ∷ 111 ∷ 108 ∷ 95 ∷ 99 ∷ 97 ∷ 108 ∷ 108 ∷ 62 ∷ []

abbrev pub tool_block_end : Text
tool_block_end = namespace ++ 60 ∷ 47 ∷ 116 ∷ 111 ∷ 111 ∷ 108 ∷ 95 ∷ 99 ∷ 97 ∷ 108 ∷ 108 ∷ 62 ∷ []

abbrev pub max_native_tool_block_chars : ℕ
max_native_tool_block_chars = 4194304

pub data ToolError : Type 0 where
  already_finished malformed_markup oversized_call content_after_call : ToolError
  incomplete_marker incomplete_call : ToolError

pub data Raising (A : Type 0) : Type 0 where
  ok : A → Raising A
  raised : ToolError → Raising A

abbrev pub and_then : {A B : Type 0} → Raising A → (A → Raising B) → Raising B
and_then (ok a) f = f a
and_then (raised error) f = raised error

pub data FramingMode : Type 0 where
  text_mode tool_block_mode after_tool_block finished : FramingMode

pub record Framer : Type 0 where
  pub mode : FramingMode
  pub text_tail : Text
  pub tool_tail : Text
  pub tool_parts : List Text
  pub tool_length : ℕ
  pub tool_block : Option Text

abbrev pub new_framer : Framer
new_framer = record {
  mode = text_mode;
  text_tail = [];
  tool_tail = [];
  tool_parts = [];
  tool_length = 0;
  tool_block = none;
}

-- The loop of `_partial_marker_suffix_length`, from a length on down.
unfoldable pub partial_from : Text → Text → ℕ → ℕ
unfolding starts_with drop
partial_from text marker zero = 0
partial_from text marker (suc n) =
    if starts_with marker (drop (length text - suc n) text)
    then suc n
    else partial_from text marker n

unfoldable pub partial_marker_suffix_length : Text → Text → ℕ
unfolding partial_from
partial_marker_suffix_length text marker =
    partial_from text marker (min (length text) (length marker - 1))

unfoldable pub append_tool_fragment : Text → Framer → Raising Framer
append_tool_fragment fragment f =
    if is_empty fragment
    then ok f
    else if ltb max_native_tool_block_chars (f.tool_length + length fragment)
    then raised oversized_call
    else ok (record f {
      tool_length = f.tool_length + length fragment;
      tool_parts = f.tool_parts ++ fragment ∷ [];
    })

unfoldable pub validate_trailing_text : Text → Framer → Raising Framer
unfolding is_visible
validate_trailing_text text f = if is_visible text then raised content_after_call else ok f

unfoldable pub close_block : Framer → Framer
unfolding join
close_block f = record f {
  tool_block = some (join f.tool_parts);
  tool_parts = [];
  tool_tail = [];
  mode = after_tool_block;
}

-- The candidate is the tail of the block with the new text.
unfoldable pub feed_block_at : Option ℕ → Text → Framer → Raising Framer
unfolding append_tool_fragment partial_marker_suffix_length validate_trailing_text close_block drop
    without_last take
feed_block_at none candidate f =
    let held = partial_marker_suffix_length candidate tool_block_end in
    if not (held == 0)
    then and_then (append_tool_fragment (without_last held candidate) f)
        (λ g. ok (record g { tool_tail = drop (length candidate - held) candidate }))
    else and_then (append_tool_fragment candidate f) (λ g. ok (record g { tool_tail = [] }))
feed_block_at (some i) candidate f =
    and_then (append_tool_fragment (take i candidate) f)
      (λ g. validate_trailing_text (drop (i + length tool_block_end) candidate) (close_block g))

unfoldable pub feed_tool_block : Text → Framer → Raising Framer
unfolding feed_block_at find
feed_tool_block text f =
    let candidate = f.tool_tail ++ text in feed_block_at (find tool_block_end candidate) candidate f

-- Where the namespace may stand: at the marker, or at what may become one.
abbrev pub protected_namespace_index : Option ℕ → (held size : ℕ) → Option ℕ
protected_namespace_index (some i) held size = some i
protected_namespace_index none held size = if not (held == 0) then some (size - held) else none

abbrev pub is_misplaced : (namespace_index protected : Option ℕ) → Bool
is_misplaced none protected = false
is_misplaced (some i) none = true
is_misplaced (some i) (some j) = not (i == j)

abbrev pub enter_block : Framer → Framer
enter_block f = record f { text_tail = []; mode = tool_block_mode }

unfoldable pub feed_text_at : Option ℕ → (held : ℕ) → Text → Framer → Raising (Text × Framer)
unfolding feed_tool_block drop take without_last
feed_text_at (some i) held candidate f =
    and_then (feed_tool_block (drop (i + length tool_block_start) candidate) (enter_block f))
      (λ g. ok (take i candidate, g))
feed_text_at none held candidate f =
    if not (held == 0)
    then ok (
      without_last held candidate,
      record f { text_tail = drop (length candidate - held) candidate },
    )
    else ok (candidate, record f { text_tail = [] })

unfoldable pub feed_text : Text → Framer → Raising (Text × Framer)
unfolding find partial_marker_suffix_length feed_text_at
feed_text candidate f =
    let marker_index = find tool_block_start candidate in
    let held = partial_marker_suffix_length candidate tool_block_start in
    if is_misplaced (find namespace candidate)
      (protected_namespace_index marker_index held (length candidate))
    then raised malformed_markup
    else feed_text_at marker_index held candidate f

unfoldable pub feed_in : FramingMode → Text → Framer → Raising (Text × Framer)
unfolding feed_text feed_tool_block validate_trailing_text
feed_in text_mode text f = feed_text (f.text_tail ++ text) f
feed_in tool_block_mode text f = and_then (feed_tool_block text f) (λ g. ok ([], g))
feed_in after_tool_block text f = and_then (validate_trailing_text text f) (λ g. ok ([], g))
feed_in finished text f = raised already_finished

abbrev pub is_finished : FramingMode → Bool
is_finished finished = true
is_finished _ = false

unfoldable pub feed : Text → Framer → Raising (Text × Framer)
unfolding feed_in
feed text f =
    if is_finished f.mode
    then raised already_finished
    else if is_empty text
    then ok ([], f)
    else feed_in f.mode text f

unfoldable pub finish_text : Bool → Framer → Raising (Text × Framer)
unfolding find
finish_text require_complete f =
    let g = record f { text_tail = []; mode = finished } in
    if not (is_none (find namespace f.text_tail))
    then (if require_complete then raised incomplete_marker else ok ([], g))
    else ok (f.text_tail, g)

abbrev pub finish_block : Framer → Raising (Text × Framer)
finish_block f = ok ([], record f { tool_parts = []; tool_tail = []; mode = finished })

unfoldable pub finish_in : FramingMode → Bool → Framer → Raising (Text × Framer)
unfolding finish_text
finish_in finished require_complete f = ok ([], f)
finish_in text_mode require_complete f = finish_text require_complete f
finish_in tool_block_mode require_complete f =
    if require_complete then raised incomplete_call else finish_block f
finish_in after_tool_block require_complete f = finish_block f

unfoldable pub finish : Bool → Framer → Raising (Text × Framer)
unfolding finish_in
finish require_complete f = finish_in f.mode require_complete f

-- The texts of one output field, as normalize_nim_native_tool_stream feeds them, and its end.
unfoldable pub feed_all : List Text → Framer → Raising (Text × Framer)
unfolding feed
feed_all [] f = ok ([], f)
feed_all (text ∷ texts) f =
    and_then (feed text f)
      (λ (visible, g). and_then (feed_all texts g) (λ (more, h). ok (visible ++ more, h)))

unfoldable pub frame : Bool → List Text → Raising (Text × Option Text)
unfolding feed_all finish
frame require_complete texts = and_then (feed_all texts new_framer) (λ (visible, f).
    and_then (finish require_complete f) (λ (more, g). ok (visible ++ more, g.tool_block)))
