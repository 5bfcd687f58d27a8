-- ===== src/Closing/Terminal.antt =====
-- Once admission is closed, every semaphore is, whatever the order of registrations and closings.
use uring.Prelude.{
  ℕ, ◌≡◌, refl, ap, ◌⊎◌, inl, inr, Bool, true, false, ◌||◌, List, [], ◌∷◌, ◌++◌, arith, Bool-cases,
}
use uring.Prelude.Map.{contains}
use uring.Closing.{ByteAdmission, new, register, close}

pub data Step : Type 0 where
  registers : ℕ → Step
  closes : Step

unfoldable pub run : ByteAdmission → List Step → ByteAdmission
run a [] = a
run a (registers count ∷ rest) = run (register a count) rest
run a (closes ∷ rest) = run (close a) rest

abbrev pub registered : List Step → List ℕ
registered [] = []
registered (registers count ∷ rest) = count ∷ registered rest
registered (closes ∷ rest) = registered rest

abbrev pub closed_in : List Step → Bool
closed_in [] = false
closed_in (registers count ∷ rest) = closed_in rest
closed_in (closes ∷ rest) = true

contains-append : (j : ℕ) (xs ys : List ℕ) → contains j (xs ++ ys) ≡ contains j xs || contains j ys
contains-append j [] ys = refl
contains-append j (x ∷ xs) ys = ground (arith, contains-append j xs ys)

-- A semaphore that the admission has, had or will have.
abbrev Concerns : ByteAdmission → List Step → ℕ → Type 0
Concerns a steps j =
    contains j a.counts || (contains j a.shut || contains j (registered steps)) ≡ true

-- It is closed, or will be.
abbrev Closes : ByteAdmission → List Step → Type 0
Closes a steps = ((a.closed ≡ true) × (a.counts ≡ [])) ⊎ (closed_in steps ≡ true)

register-Concerns :
    (a : ByteAdmission) (count : ℕ) (rest : List Step) (j : ℕ)
    → Concerns a (registers count ∷ rest) j
    → Concerns (register a count) rest j
unfolding register
register-Concerns a count rest j h = elim (Bool-cases a.closed) [
  | inl down ↦ simp down (ground arith)
  | inr up ↦ simp up (ground (arith, contains-append j a.counts (count ∷ [])))
]

register-Closes :
    (a : ByteAdmission) (count : ℕ) (rest : List Step)
    → Closes a (registers count ∷ rest)
    → Closes (register a count) rest
unfolding register
register-Closes a count rest (inl (down, none_left)) = inl (simp down (refl, none_left))
register-Closes a count rest (inr later) = inr later

close-Concerns :
    (a : ByteAdmission) (rest : List Step) (j : ℕ)
    → Concerns a (closes ∷ rest) j
    → Concerns (close a) rest j
unfolding close
close-Concerns a rest j h = ground (arith, contains-append j a.counts (a.bytes ∷ a.shut))

run-shut :
    (steps : List Step) (a : ByteAdmission) (j : ℕ)
    → Concerns a steps j
    → Closes a steps
    → contains j (run a steps).shut ≡ true
unfolding run close
run-shut [] a j h (inl (down, none_left)) = ground (arith, ap (contains j) none_left)
run-shut [] a j h (inr later) = cc later
run-shut (registers count ∷ rest) a j h c =
    run-shut rest (register a count) j (register-Concerns a count rest j h)
      (register-Closes a count rest c)
run-shut (closes ∷ rest) a j h c =
    run-shut rest (close a) j (close-Concerns a rest j h) (inl (refl, refl))

-- Registrations and closings may come in any order: if there is a closing, every count semaphore
-- that is registered, before it or after it, is closed in the end.
pub run-closed :
    (bytes : ℕ) (steps : List Step) (j : ℕ)
    → closed_in steps ≡ true
    → contains j (registered steps) ≡ true
    → contains j (run (new bytes) steps).shut ≡ true
unfolding new
run-closed bytes steps j c h = run-shut steps (new bytes) j h (inr c)
