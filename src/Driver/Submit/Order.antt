-- ===== src/Driver/Submit/Order.antt =====
-- `flush_backlog`: the submission queue gets the backlog in its order, and nothing is lost.
use uring.Prelude.{
  ℕ, zero, suc, ◌+◌, ◌≡◌, refl, ap, ◌∙◌, List, [], ◌∷◌, ◌++◌, min, arith, length, length-append,
}
use uring.Pending.{Sqe}
use uring.Driver.Submit.{flush_backlog}

append_nil : (xs : List Sqe) → xs ++ [] ≡ xs
append_nil [] = refl
append_nil (x ∷ xs) = ap (◌∷◌ x) (append_nil xs)

append_assoc : (xs ys zs : List Sqe) → (xs ++ ys) ++ zs ≡ xs ++ (ys ++ zs)
append_assoc [] ys zs = refl
append_assoc (x ∷ xs) ys zs = ap (◌∷◌ x) (append_assoc xs ys zs)

-- No entry is lost, doubled or reordered: the queue, continued by what is left in the backlog, is
-- the old queue continued by the old backlog; as many entries move as there is room for.
pub flush_backlog-order :
    (room : ℕ) (ring backlog : List Sqe)
    → let r = flush_backlog room ring backlog in
      (r.0 ++ r.1 ≡ ring ++ backlog) × (length r.0 ≡ length ring + min room (length backlog))
unfolding flush_backlog
flush_backlog-order room ring [] = (refl, omega arith)
flush_backlog-order zero ring (s ∷ backlog) = (refl, omega arith)
flush_backlog-order (suc room) ring (s ∷ backlog) =
    let (same, moved) = flush_backlog-order room (ring ++ s ∷ []) backlog in
    (same ∙ append_assoc ring (s ∷ []) backlog, omega (arith, moved, length-append ring (s ∷ [])))
