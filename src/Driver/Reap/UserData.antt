-- ===== src/Driver/Reap/UserData.antt =====
-- Completions find their way by the user data of their entries.
use Prim.Native.Nat.{bit_and, bit_or}
use uring.Prelude.{ℕ, ◌^◌, ◌<◌, ◌≡◌, refl, true, false, ◌==◌, some, arith}
use uring.Prelude.Bits.{bit_and_clear, bit_and_set, bit_or_top}
use uring.Driver.{Driver, cancel_bit}
use uring.Driver.Reap.{Cqe, count_cancel, on_read_cqe, on_cqe}

-- For an id that `submit` gives, the completion of the read is handled as that read's, and the
-- completion of its cancel only counts, whatever the table holds: it changes neither the table nor
-- the answers.
pub on_cqe-user_data :
    (d : Driver) (c : Cqe) (id : ℕ)
    → id < 2 ^ 63
    → (on_cqe d (record c { user_data = id }) ≡ on_read_cqe d id c.completion c.send_ok)
      × (on_cqe d (record c { user_data = bit_or id cancel_bit })
          ≡ some (record d { stats = count_cancel c.completion.result d.stats }))
unfolding on_cqe
on_cqe-user_data d c id h =
    let clear : (bit_and id cancel_bit == 0) ≡ true = ground (arith, bit_and_clear 63 id h) in
    let set : (bit_and (bit_or id cancel_bit) cancel_bit == 0) ≡ false =
      ground (arith, bit_and_set 63 id (bit_or id cancel_bit) h (bit_or_top 63 id h)) in
    (simp clear refl, simp set refl)
