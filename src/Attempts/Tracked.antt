-- ===== src/Attempts/Tracked.antt =====
-- internal/worker/attempt.go: the order and the running entry of an attempt history.
use subagent_broker.Common.{
  ℕ, ◌≤◌, ◌<◌, String, ◌≡◌, ◌≢◌, ◌⊎◌, refl, Option, none, some, List, [], ◌∷◌, ◌++◌, All, ok, arith,
  ltb, if◌then◌else◌,
}
use subagent_broker.Attempts.Types.{Outcome, WorkerSession, Attempt, TaskState, outcome_eq}
use subagent_broker.Attempts.Ops.{
  highest, active_from, finish_numbered, force_finish, update_numbered,
}

abbrev pub Idle : List Attempt → Type 0
Idle xs = All (λ a. a.outcome ≢ Outcome.running) xs

-- The numbers rise strictly, from above `n`.
abbrev pub Above : ℕ → List Attempt → Type 0
Above n [] = Unit
Above n (a ∷ rest) = (n < a.number) × Above a.number rest

-- An attempt is running exactly when it is the last one and the one that `n` names.
abbrev pub Current : List Attempt → ℕ → Type 0
Current xs n =
    ((n ≡ 0) × Idle xs)
    ⊎ ((before : List Attempt) × (a : Attempt) × (xs ≡ before ++ a ∷ [])
        × Idle before
        × (a.outcome ≡ Outcome.running)
        × (a.number ≡ n))

pub record Managed (ts : TaskState) : Type 0 where
  pub rising : Above 0 ts.attempts
  pub current : Current ts.attempts ts.active_attempt

pub highest-bounds :
    (m : ℕ) (xs : List Attempt) → (m ≤ highest m xs) × All (λ a. a.number ≤ highest m xs) xs
unfolding highest
highest-bounds m [] = ground arith
highest-bounds m (a ∷ rest) =
    let (low, all) = highest-bounds (if ltb m a.number then a.number else m) rest in
    (ground (arith, low), (ground (arith, low), all))

pub active_from-Idle :
    (found : Option Attempt) (xs : List Attempt) → Idle xs → active_from found xs ≡ ok found
unfolding active_from
active_from-Idle found [] h = refl
active_from-Idle found (a ∷ rest) h = ground (arith, active_from-Idle found rest h.1)

pub active_from-some :
    (a : Attempt) (xs : List Attempt) (o : Option Attempt)
    → active_from (some a) xs ≡ ok o
    → (o ≡ some a) × Idle xs
unfolding active_from
active_from-some a [] o h = ground arith
active_from-some a (b ∷ rest) o h = ground (arith, active_from-some a rest o)

pub active_from-none : (xs : List Attempt) → active_from none xs ≡ ok none → Idle xs
unfolding active_from
active_from-none [] h = tt
active_from-none (b ∷ rest) h = ground (arith, active_from-none rest, active_from-some b rest none)

pub Above-snoc :
    (n : ℕ) (xs : List Attempt) (a : Attempt)
    → Above n xs
    → n < a.number
    → All (λ b. b.number < a.number) xs
    → Above n (xs ++ a ∷ [])
Above-snoc n [] a h l k = (l, tt)
Above-snoc n (b ∷ rest) a h l k = (h.0, Above-snoc b.number rest a h.1 k.0 k.1)

pub Above-last :
    (n : ℕ) (xs : List Attempt) (a : Attempt)
    → Above n (xs ++ a ∷ [])
    → (n < a.number) × All (λ b. b.number < a.number) xs
Above-last n [] a h = (h.0, tt)
Above-last n (b ∷ rest) a h =
    let (low, all) = Above-last b.number rest a h.1 in (omega (arith, low, h.0), (low, all))

pub Above-relast :
    (n : ℕ) (xs : List Attempt) (a b : Attempt)
    → b.number ≡ a.number
    → Above n (xs ++ a ∷ [])
    → Above n (xs ++ b ∷ [])
Above-relast n [] a b e h = (rw e h.0, tt)
Above-relast n (c ∷ rest) a b e h = (h.0, Above-relast c.number rest a b e h.1)

pub finish_numbered-last :
    (outcome : Outcome) (reason : String) (now : ℕ) (xs : List Attempt) (a : Attempt)
    → All (λ b. b.number < a.number) xs
    → finish_numbered a.number outcome reason now (xs ++ a ∷ []) ≡ (
      xs ++ force_finish a outcome reason now ∷ [],
      some (force_finish a outcome reason now).worker,
    )
unfolding finish_numbered
finish_numbered-last outcome reason now [] a h = ground arith
finish_numbered-last outcome reason now (b ∷ rest) a h =
    ground (arith, finish_numbered-last outcome reason now rest a h.1)

pub update_numbered-last :
    (w : WorkerSession) (xs : List Attempt) (a : Attempt)
    → All (λ b. b.number < a.number) xs
    → update_numbered a.number w (xs ++ a ∷ []) ≡ xs ++ record a { worker = w } ∷ []
unfolding update_numbered
update_numbered-last w [] a h = ground arith
update_numbered-last w (b ∷ rest) a h = ground (arith, update_numbered-last w rest a h.1)
