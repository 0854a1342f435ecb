-- ===== src/Admission/Phases.antt =====
-- The phases of the executions as a list, and as a function of the execution's number.
use agentic_model_gateway.Base.{
  update, ℕ, zero, suc, ◌≡◌, refl, some, List, [], ◌∷◌, get_elem?, set, replicate, arith,
}
use agentic_model_gateway.Admission.System.{Phase, idle}

-- The phase of an execution, `idle` where there is none.
abbrev pub phase_of : List Phase → ℕ → Phase
phase_of [] i = idle
phase_of (p ∷ ps) zero = p
phase_of (p ∷ ps) (suc i) = phase_of ps i

pub phase_of-get_elem? :
    (ps : List Phase) (i : ℕ) (p : Phase) → get_elem? ps i ≡ some p → phase_of ps i ≡ p
phase_of-get_elem? [] i p e = cc
phase_of-get_elem? (x ∷ ps) zero p e = cc
phase_of-get_elem? (x ∷ ps) (suc i) p e = phase_of-get_elem? ps i p e

pub phase_of-set :
    (ps : List Phase) (i j : ℕ) (p after : Phase)
    → get_elem? ps i ≡ some p
    → phase_of (set ps i after) j ≡ update (phase_of ps) i after j
phase_of-set [] i j p after e = cc
phase_of-set (x ∷ ps) zero zero p after e = refl
phase_of-set (x ∷ ps) zero (suc j) p after e = ground arith
phase_of-set (x ∷ ps) (suc i) zero p after e = ground arith
phase_of-set (x ∷ ps) (suc i) (suc j) p after e = ground (arith, phase_of-set ps i j p after e)

pub phase_of-idle : (n i : ℕ) → phase_of (replicate n idle) i ≡ idle
phase_of-idle zero i = refl
phase_of-idle (suc n) zero = refl
phase_of-idle (suc n) (suc i) = phase_of-idle n i
