-- ===== src/Ordered/Refines.antt =====
-- However its reads complete, a consumer of the ordered reader gets what sequential reads give.
use uring.Prelude.{
  ℕ, suc, ◌+◌, ◌≡◌, refl, ap, sym, subst, inr, Option, none, some, List, [], ◌∷◌, ◌++◌, arith,
}
use uring.Sys.{IoResult, ok, err}
use uring.Handle.{Poll}
use uring.Ordered.{
  Config, Chunk, OrderedReader, Source, start, new, poll_next, Ending, running, ended, failed,
  Outcome, and_then, collected, consume,
}
use uring.Ordered.Bounds.{IsBounded, new-IsBounded}
use uring.Ordered.Made.{new_lem}
use uring.Ordered.Sequential.{Serves, sequential, whole_range}
use uring.Ordered.Deliver.{Refines, Matches, poll_next-Matches}
use uring.Ordered.Window.{IsGoing}

-- What has been consumed is a beginning of what is to come, and all of it once the chunks have ended.
abbrev pub IsPrefix : List Chunk → Ending → Outcome → Type 0
IsPrefix cs running out = (rest : List Chunk) × (out.0 ≡ cs ++ rest)
IsPrefix cs ended out = out ≡ (cs, ended)
IsPrefix cs (failed x) out = out ≡ (cs, failed x)

IsPrefix-and_then :
    (c : Chunk) (cs : List Chunk) (ending : Ending) (out : Outcome)
    → IsPrefix cs ending out
    → IsPrefix (c ∷ cs) ending (and_then c out)
IsPrefix-and_then c cs running out (rest, e) = (rest, ap (λ (ds : List Chunk). c ∷ ds) e)
IsPrefix-and_then c cs ended out e = rw e refl
IsPrefix-and_then c cs (failed x) out e = rw e refl

module _ {F S E : Type 0} {src : Source F S E} {answer : ℕ → ℕ → IoResult (List ℕ)}
    (a : Serves src answer) (end : ℕ) (c : Config) where
  collected-IsPrefix :
      (r : OrderedReader F S) (p : Poll (IoResult (Option Chunk))) (rest out : Outcome)
      → Matches a end c r p out
      → ((out : Outcome) → Refines a end c r out → IsPrefix rest.0 rest.1 out)
      → IsPrefix (collected p rest).0 (collected p rest).1 out
  collected-IsPrefix r Poll.pending rest out m ih = ih out m
  collected-IsPrefix r (Poll.ready (err x)) rest out m ih = m
  collected-IsPrefix r (Poll.ready (ok none)) rest out m ih = m
  collected-IsPrefix r (Poll.ready (ok (some chunk))) rest out (out', e, m) ih =
      rw e (IsPrefix-and_then chunk rest.0 rest.1 out' (ih out' m))

  consume-IsPrefix :
      (es : List E) (r : OrderedReader F S) (out : Outcome)
      → Refines a end c r out
      → IsPrefix (consume src es r).0 (consume src es r).1 out
  unfolding consume
  consume-IsPrefix [] r out v = (out.0, refl)
  consume-IsPrefix (e ∷ es) r out v =
      collected-IsPrefix (poll_next src e r).0 (poll_next src e r).1
        (consume src es (poll_next src e r).0) out (poll_next-Matches a end c e r out v)
        (consume-IsPrefix es (poll_next src e r).0)

  pub new-Refines :
      (source : S) (r : OrderedReader F S)
      → new c source ≡ ok r
      → end ≡ c.offset + c.length
      → Refines a end c r (sequential answer end c.chunk (suc c.length) c.offset)
  new-Refines source r made is_end =
      let (e, is, valid, sum, fits) = new_lem c source r made in
      let bounded = new-IsBounded c source r made in
      let going : IsGoing a end c (suc c.length) c.offset (start {F = F} {S = S} c source e) =
        record {
          bounded = subst (λ (r : OrderedReader F S). IsBounded c r) is bounded;
          ends = omega (arith, sum, is_end);
          going = refl;
          chain = (refl, refl);
          rounds = omega (arith, is_end);
        } in
      inr (
        suc c.length,
        c.offset,
        subst (λ (r : OrderedReader F S). IsGoing a end c (suc c.length) c.offset r) (sym is) going,
        refl,
      )

-- For a source whose handles, once they are ready, have what `answer` says of their ranges: whatever the
-- order in which they become ready, the chunks that a consumer has got are the first of those that one
-- read after another gives from `offset` on, and once its sequence ends, or fails, they are all of them
-- and the end or the error is the same.
pub consume-IsPrefix_sequential :
    {F S E : Type 0} {src : Source F S E} (answer : ℕ → ℕ → IoResult (List ℕ))
    → Serves src answer
    → (c : Config) (source : S) (r : OrderedReader F S) (es : List E) → new c source ≡ ok r
    → IsPrefix (consume src es r).0 (consume src es r).1 (whole_range answer c)
consume-IsPrefix_sequential answer a c source r es made =
    consume-IsPrefix a (c.offset + c.length) c es r _
      (new-Refines a (c.offset + c.length) c source r made refl)
