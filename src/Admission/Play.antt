-- ===== src/Admission/Play.antt =====
-- A schedule of steps, run: the executable side of the step relation.
use agentic_model_gateway.Base.{
  ℕ, ◌≡◌, refl, Option, none, some, List, [], ◌∷◌, get_elem?, set, subst,
}
use agentic_model_gateway.Admission.State.{Policy, State}
use agentic_model_gateway.Admission.System.{
  Phase, Action, act, World, Step, step, Reach, here, next,
}

some_eq : {A : Type 0} {a b : A} → some a ≡ some b → a ≡ b
some_eq e = cc

module _ {E : Type 0} (policy : Policy E) (override : E → Option E) where
  abbrev moved : World E → ℕ → Option (Phase × State E) → Option (World E)
  moved w i none = none
  moved w i (some (after, s)) = some (record { state = s; phases = set w.phases i after })

  abbrev chosen : World E → ℕ → Action E → Option Phase → Option (World E)
  chosen w i action none = none
  chosen w i action (some phase) = moved w i (act policy override action i phase w.state)

  -- One step of execution `i`, where it can take it.
  unfoldable pub play_one : World E → ℕ → Action E → Option (World E)
  play_one w i action = chosen w i action (get_elem? w.phases i)

  unfoldable pub play : World E → List (ℕ × Action E) → Option (World E)
  unfolding play_one
  play w [] = some w
  play w ((i, action) ∷ rest) = elim (play_one w i action) [ none ↦ none | some v ↦ play v rest ]

  moved-Step :
      (w v : World E) (i : ℕ) (action : Action E) (phase : Phase) (o : Option (Phase × State E))
      → get_elem? w.phases i ≡ some phase
      → act policy override action i phase w.state ≡ o
      → moved w i o ≡ some v
      → Step policy override w v
  moved-Step w v i action phase none found acted e = absurd (cc)
  moved-Step w v i action phase (some (after, s)) found acted e =
      subst (Step policy override w) (some_eq e) (step i action phase after s found acted)

  chosen-Step :
      (w v : World E) (i : ℕ) (action : Action E) (o : Option Phase)
      → get_elem? w.phases i ≡ o
      → chosen w i action o ≡ some v
      → Step policy override w v
  chosen-Step w v i action none found e = absurd (cc)
  chosen-Step w v i action (some phase) found e = moved-Step w v i action phase _ found refl e

  extend :
      {u v w : World E}
      → Step policy override u v
      → Reach policy override v w
      → Reach policy override u w
  extend st here = next here st
  extend st (next r t) = next (extend st r) t

  play_rest :
      (w v : World E) (i : ℕ) (action : Action E) (rest : List (ℕ × Action E))
      (o : Option (World E))
      → play_one w i action ≡ o
      → ((u : World E) → play u rest ≡ some v → Reach policy override u v)
      → let result : Option (World E) = elim o [ none ↦ none | some u ↦ play u rest ] in
        result ≡ some v → Reach policy override w v
  unfolding play_one
  play_rest w v i action rest none one again e = absurd (cc)
  play_rest w v i action rest (some u) one again e =
      extend (chosen-Step w u i action _ refl one) (again u e)

  -- What a schedule reaches is reachable.
  pub play-Reach :
      (actions : List (ℕ × Action E)) (w v : World E)
      → play w actions ≡ some v
      → Reach policy override w v
  unfolding play
  play-Reach [] w v e = subst (Reach policy override w) (some_eq e) here
  play-Reach ((i, action) ∷ rest) w v e =
      play_rest w v i action rest _ refl (λ u h. play-Reach rest u v h) e
