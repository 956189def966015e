-- ===== src/Service/Lifecycle/Status.antt =====
-- internal/service/service.go: allowedTaskTransition, and the statuses that it allows a task to have.
use mathlib.Core.Bool.{and-eq-true_iff}
use mathlib.Core.Path.{subst}
use atlas_c.Base.{
  ◌≡◌, refl, sym, ◌∙◌, String, Bool, true, false, ◌||◌, ◌&&◌, ◌⊎◌, inl, inr, ◌==◌, eq_iff,
}
use atlas_c.Service.Tasks.{allowed_task_transition}

-- The moves of the status machine.
pub data Moves : String → String → Type 0 where
  acknowledge : Moves "pending" "acknowledged"
  complete : Moves "acknowledged" "completed"
  give_up : Moves "acknowledged" "failed"

-- Any number of moves.
pub data Becomes : String → String → Type 0 where
  stays : {a : String} → Becomes a a
  moves : {a b c : String} → Becomes a b → Moves b c → Becomes a c

-- The two ends of the machine.
pub data IsFinished : String → Type 0 where
  completed : IsFinished "completed"
  failed : IsFinished "failed"

or-true-cases : (x y : Bool) → (x || y) ≡ true → (x ≡ true) ⊎ (y ≡ true)
or-true-cases true y h = inl refl
or-true-cases false y h = inr h

-- The two words of a move.
both : (a b x y : String) → (a == x && b == y) ≡ true → (a ≡ x) × (b ≡ y)
both a b x y h =
    let (p, q) = (and-eq-true_iff (a == x) (b == y)).0 h in ((eq_iff a x).0 p, (eq_iff b y).0 q)

allowed-Moves : (a b : String) → allowed_task_transition a b ≡ true → Moves a b
unfolding allowed_task_transition
allowed-Moves a b h =
    elim (or-true-cases (a == "pending" && b == "acknowledged")
      (a == "acknowledged" && (b == "completed" || b == "failed")) h) [
        | inl first ↦
            let (p, q) = both a b "pending" "acknowledged" first in rw (p, q) Moves.acknowledge
        | inr second ↦
            let (p, q) = (and-eq-true_iff (a == "acknowledged") _).0 second in
            let from = (eq_iff a "acknowledged").0 p in
            elim (or-true-cases (b == "completed") (b == "failed") q) [
              | inl e ↦ let to = (eq_iff b "completed").0 e in rw (from, to) Moves.complete
              | inr e ↦ let to = (eq_iff b "failed").0 e in rw (from, to) Moves.give_up
            ]
      ]

Moves-allowed : {a b : String} → Moves a b → allowed_task_transition a b ≡ true
unfolding allowed_task_transition
Moves-allowed Moves.acknowledge = refl
Moves-allowed Moves.complete = refl
Moves-allowed Moves.give_up = refl

-- No move leads away from an end.
finished-stuck : {a b : String} → IsFinished a → Moves a b → b ≡ a
unfolding allowed_task_transition
finished-stuck IsFinished.completed m = let bad : false ≡ true = Moves-allowed m in cc bad
finished-stuck IsFinished.failed m = let bad : false ≡ true = Moves-allowed m in cc bad

pub finished-Becomes : {a b : String} → Becomes a b → IsFinished a → b ≡ a
finished-Becomes Becomes.stays f = refl
finished-Becomes (Becomes.moves before m) f =
    let same = finished-Becomes before f in finished-stuck (subst IsFinished (sym same) f) m ∙ same

-- One kept or moved status, after others.
pub Becomes-step :
    {a b c : String} → Becomes a b → (c ≡ b) ⊎ (allowed_task_transition b c ≡ true) → Becomes a c
Becomes-step {a} before (inl same) = subst (Becomes a) (sym same) before
Becomes-step {b} {c} before (inr allowed) = Becomes.moves before (allowed-Moves b c allowed)
