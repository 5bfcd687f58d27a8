-- ===== src/Front/Validate.antt =====
-- What `submit` lets through.
use uring.Prelude.{
  ℕ, ◌+◌, ◌-◌, ◌%◌, ◌^◌, ◌≤◌, ◌<◌, ◌≡◌, ◌∙◌, ◌⊎◌, inl, inr, true, false, none, some, arith, ltb,
  is_some_and, Option-cases,
}
use uring.Prelude.Word.{word, i64_max, is_power_of_two}
use uring.Sys.{ok}
use uring.Geometry.{Geometry, aligned_geometry, current_position, max_read_len}
use uring.Geometry.Superset.{aligned_geometry_total, power_pos}
use uring.Driver.{ReadMsg}
use uring.Driver.Intake.Entry.{IsValidRead}
use uring.Front.{ReadLimits, Request, within_budget, ends_within, check_geometry, validate}

-- The message that the request becomes.
abbrev pub IsOf : Request → ReadMsg → Type 0
IsOf r m = (m.offset ≡ r.offset) × (m.len ≡ r.len) × (m.align ≡ r.align)

checks :
    (l : ReadLimits) (r : Request) (n : ℕ)
    → validate l r ≡ ok n
    → (r.len ≤ max_read_len)
      × (check_geometry l r (aligned_geometry r.offset r.len r.align) ≡ ok n)
      × ((r.offset ≤ i64_max) ⊎ ((r.offset ≡ current_position) × (r.allow_current_position ≡ true)))
unfolding validate
checks l r n e = ground arith

check_geometry-fits :
    (l : ReadLimits) (r : Request) (g : Geometry) (n : ℕ)
    → check_geometry l r (some g) ≡ ok n
    → (g.region_len ≤ max_read_len)
      × (ends_within r g ≡ true)
      × (n ≡ g.region_len + r.align - 1)
      × (is_some_and l.max_in_flight_bytes (λ max. ltb max n) ≡ false)
unfolding check_geometry within_budget
check_geometry-fits l r g n e = ground arith

check_geometry-none : (l : ReadLimits) (r : Request) (n : ℕ) → ¬ (check_geometry l r none ≡ ok n)
unfolding check_geometry
check_geometry-none l r n e = ground arith

stream_geometry :
    (o len : ℕ) (g : Geometry) → aligned_geometry o len 1 ≡ some g → g.kernel_offset ≡ o
unfolding aligned_geometry is_power_of_two
stream_geometry o len g e = ground arith

ends_cases :
    (r : Request) (g : Geometry)
    → ends_within r g ≡ true
    → ((r.allow_current_position ≡ true) × (r.offset ≡ current_position))
      ⊎ (g.kernel_offset + g.region_len ≤ i64_max)
ends_cases r g e = ground arith

-- The end of the region, for the message.
message_end :
    (r : Request) (m : ReadMsg) (g : Geometry)
    → IsOf r m
    → (r.allow_current_position ≡ true → r.align ≡ 1)
    → aligned_geometry r.offset r.len r.align ≡ some g
    → ends_within r g ≡ true
    → ((m.align ≡ 1) × (g.kernel_offset ≡ current_position))
      ⊎ (g.kernel_offset + g.region_len ≤ i64_max)
message_end r m g of stream eg ends = elim (ends_cases r g ends) [
  | inl (allowed, at) ↦
      let one = stream allowed in
      let eg' : aligned_geometry r.offset r.len 1 ≡ some g = rw one at eg in
      inl (of.2 ∙ one, stream_geometry r.offset r.len g eg' ∙ at)
  | inr within ↦ inr within
]

-- A read that passes the checks, under an id below 2 ^ 63, with an offset of 64 bits, and without
-- alignment if it may read at the current position, is a valid message: it has a geometry, its
-- region is within the cap, its end is a valid signed offset unless it is a stream read. Its
-- charge is the length of the allocation that the driver makes, fits a u32 and is within the byte
-- budget.
pub validate-IsValidRead :
    (l : ReadLimits) (r : Request) (n : ℕ) (m : ReadMsg)
    → r.offset < word
    → (r.allow_current_position ≡ true → r.align ≡ 1)
    → validate l r ≡ ok n
    → IsOf r m
    → m.id < 2 ^ 63
    → (v : IsValidRead m) × (n ≡ v.geometry.region_len + (m.align - 1))
      × (n % 2 ^ 32 ≡ n)
      × (is_some_and l.max_in_flight_bytes (λ max. ltb max n) ≡ false)
validate-IsValidRead l r n m ho stream e of hid =
    let (short, checked, at) = checks l r n e in
    elim (Option-cases (aligned_geometry r.offset r.len r.align)) [
      | inl none_eq ↦ absurd (check_geometry-none l r n (rw none_eq at checked))
      | inr (g, eg) ↦
          let (region, ends, charge, budget) = check_geometry-fits l r g n (rw eg at checked) in
          let legal = (aligned_geometry_total r.offset r.len r.align ho short).0 (g, eg) in
          let positive = power_pos r.align legal.0 in
          (
            record {
              id_small = hid;
              offset_word = omega (arith, of.0);
              len_capped = omega (arith, of.1);
              geometry = g;
              accepted = rw (of.0, of.1, of.2) eg;
              region_capped = region;
              end_signed = message_end r m g of stream eg ends;
            },
            omega (arith, of.2),
            omega (arith, legal.1),
            budget,
          )
    ]
