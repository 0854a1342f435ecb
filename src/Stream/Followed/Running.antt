-- ===== src/Stream/Followed/Running.antt =====
-- The indexes of the blocks of the tool calls that run, under the changes of the tool calls' states.
use agentic_model_gateway.Base.{
  NoRepeats, ℕ, ◌≡◌, refl, Bool, true, false, not, ◌&&◌, ◌||◌, Option, none, some, List, [], ◌∷◌,
  ◌==◌, if◌then◌else◌, contains, lookup, insert, arith, Bool-cases, inl, inr, All, All-map, ==_refl,
}
use agentic_model_gateway.Stream.Blocks.{ToolBlockState}

abbrev index_or_zero : Option ℕ → ℕ
index_or_zero none = 0
index_or_zero (some i) = i

abbrev pub Tools : Type 0
Tools = List (ℕ × ToolBlockState)

abbrev pub and_index : Option ℕ → List ℕ → List ℕ
and_index none rest = rest
and_index (some i) rest = i ∷ rest

unfoldable pub running : Tools → List ℕ
running [] = []
running ((k, state) ∷ tools) =
    if state.started then and_index state.block_index (running tools) else running tools

-- The tool call has no started state.
abbrev pub not_started : Option ToolBlockState → Bool
not_started none = true
not_started (some state) = not state.started

pub contains-running :
    (k i : ℕ) (state : ToolBlockState) (tools : Tools)
    → lookup k tools ≡ some state
    → state.started ≡ true
    → state.block_index ≡ some i
    → contains i (running tools) ≡ true
unfolding running lookup contains
contains-running k i state [] h s b = cc
contains-running k i state ((j, other) ∷ tools) h s b =
    ground (arith, contains-running k i state tools, ==_refl i)

-- The rest of a list whose head may be left out.
NoRepeats-rest :
    (state : ToolBlockState) (rest : List ℕ)
    → NoRepeats (if state.started then and_index state.block_index rest else rest)
    → NoRepeats rest
NoRepeats-rest state rest d = ground arith

module _ (k n : ℕ) (state : ToolBlockState) (s : state.started ≡ true)
    (b : state.block_index ≡ some n) where
  pub running-insert_started :
      (j : ℕ) (tools : Tools)
      → not_started (lookup k tools) ≡ true
      → contains j (running (insert k state tools)) ≡ (n == j || contains j (running tools))
  unfolding running lookup insert contains
  running-insert_started j [] h = ground arith
  running-insert_started j ((i, other) ∷ tools) h = ground (arith, running-insert_started j tools)

  pub NoRepeats-running-started :
      (tools : Tools)
      → not_started (lookup k tools) ≡ true
      → contains n (running tools) ≡ false
      → NoRepeats (running tools)
      → NoRepeats (running (insert k state tools))
  unfolding running lookup insert contains
  NoRepeats-running-started [] h out d = ground arith
  NoRepeats-running-started ((i, other) ∷ tools) h out d =
      let rest = NoRepeats-rest other (running tools) d in
      ground (
        arith,
        NoRepeats-running-started tools,
        running-insert_started (index_or_zero other.block_index) tools,
      )

module _ (k n : ℕ) (old state : ToolBlockState) (s : old.started ≡ true)
    (b : old.block_index ≡ some n) (off : state.started ≡ false) where
  pub running-insert_stopped :
      (j : ℕ) (tools : Tools)
      → lookup k tools ≡ some old
      → NoRepeats (running tools)
      → contains j (running (insert k state tools)) ≡ (not (n == j) && contains j (running tools))
  unfolding running lookup insert contains
  running-insert_stopped j [] h d = cc
  running-insert_stopped j ((i, other) ∷ tools) h d =
      let rest = NoRepeats-rest other (running tools) d in
      ground (arith, running-insert_stopped j tools, contains-running k n old tools)

  pub NoRepeats-running-stopped :
      (tools : Tools)
      → lookup k tools ≡ some old
      → NoRepeats (running tools)
      → NoRepeats (running (insert k state tools))
  unfolding running lookup insert contains
  NoRepeats-running-stopped [] h d = cc
  NoRepeats-running-stopped ((i, other) ∷ tools) h d =
      let rest = NoRepeats-rest other (running tools) d in
      ground (
        arith,
        NoRepeats-running-stopped tools,
        running-insert_stopped (index_or_zero other.block_index) tools,
      )

-- A new state that runs exactly as the old one, at the same block.
abbrev pub RunsAs : Option ToolBlockState → ToolBlockState → Type 0
RunsAs none state = state.started ≡ false
RunsAs (some old) state = (state.started ≡ old.started) × (state.block_index ≡ old.block_index)

pub running-insert_same :
    (k : ℕ) (state : ToolBlockState) (tools : Tools)
    → RunsAs (lookup k tools) state
    → running (insert k state tools) ≡ running tools
unfolding running lookup insert
running-insert_same k state [] h = rw h
running-insert_same k state ((i, other) ∷ tools) h = elim (Bool-cases (i == k)) [
  | inl e ↦ let same = rw e at h in rw (e, same.0, same.1)
  | inr e ↦ let ih = running-insert_same k state tools (rw e at h) in rw (e, ih)
]

unfoldable pub keys : Tools → List ℕ
keys [] = []
keys ((k, state) ∷ tools) = k ∷ keys tools

pub contains-keys-insert :
    (k j : ℕ) (state : ToolBlockState) (tools : Tools)
    → contains j (keys (insert k state tools)) ≡ (k == j || contains j (keys tools))
unfolding keys insert contains
contains-keys-insert k j state [] = ground arith
contains-keys-insert k j state ((i, other) ∷ tools) =
    ground (arith, contains-keys-insert k j state tools)

pub NoRepeats-keys-insert :
    (k : ℕ) (state : ToolBlockState) (tools : Tools)
    → NoRepeats (keys tools)
    → NoRepeats (keys (insert k state tools))
unfolding keys insert contains
NoRepeats-keys-insert k state [] d = ground arith
NoRepeats-keys-insert k state ((i, other) ∷ tools) d =
    ground (arith, NoRepeats-keys-insert k state tools d.1, contains-keys-insert k i state tools)

contains-keys :
    (k : ℕ) (state : ToolBlockState) (tools : Tools)
    → lookup k tools ≡ some state
    → contains k (keys tools) ≡ true
unfolding keys lookup contains
contains-keys k state [] h = cc
contains-keys k state ((i, other) ∷ tools) h = ground (arith, contains-keys k state tools)

-- In a dictionary each item is what its key finds.
abbrev pub IsFound : Tools → ℕ × ToolBlockState → Type 0
IsFound all item = lookup item.0 all ≡ some item.1

pub All-IsFound : (tools : Tools) → NoRepeats (keys tools) → All (IsFound tools) tools
unfolding keys lookup contains
All-IsFound [] d = tt
All-IsFound ((k, state) ∷ tools) d = (
  rw (==_refl k) refl,
  All-map tools (λ item found. ground (arith, contains-keys item.0 item.1 tools found))
      (All-IsFound tools d.1),
)
